-- ===== src/Tests/Queue.antt =====
-- A queue in memory, and a controller's loop over it.
use k8s_ext_connector.Prelude.{
  Text, codes, ℕ, ◌≤◌, Bool, true, false, Option, none, some, List, [], ◌∷◌, ◌++◌, ◌==◌, eq_iff,
  eq_refl, ◌≡◌, ◌≢◌, ◌⊎◌, refl, arith, ◌||◌, Bool-cases, inl, inr,
}
use k8s_ext_connector.Exec.{ok, err, api}
use k8s_ext_connector.Util.Controller.{
  Item, key, WorkQueue, ReconcilerInterface, ResourceEvent, update_func, object_of,
}
use k8s_ext_connector.Tests.World.{meta}
use k8s_ext_connector.Util.Controller.{Informer, in_loop, returned, run}
use k8s_ext_connector.Util.Controller.Run.{after_rounds, run-pending}
use k8s_ext_connector.Util.Controller.Open.{QueueLaws}
use k8s_ext_connector.Util.Controller.Retry.{Handled}

pub queued : Text → List Text → Bool
queued j [] = false
queued j (k ∷ keys) = k == j || queued j keys

-- Whether the queue was shut down, and the keys. A key that comes after that is ignored; an open
-- queue that is empty waits until it is shut down.
abbrev pub Queue : Type 0
Queue = Bool × List Text

pub put : Text → Queue → Queue
put k (true, keys) = (true, keys)
put k (false, keys) = (false, keys ++ k ∷ [])

pub take : Queue → Option Item × Queue
take (shut, []) = (none, (true, []))
take (shut, k ∷ keys) = (some (key k), (shut, keys))

abbrev queue : WorkQueue Queue
queue = record {
  add = put;
  get = take;
  done = λ i w. w;
  forget = λ i w. w;
  add_rate_limited = put;
  shut_down = λ w. (true, w.1);
  meta_namespace_key = λ m. ok m.name;
  split_meta_namespace_key = λ k. ok (codes "external-services", k);
}

queued-append_last : (j : Text) (w : List Text) → queued j (w ++ j ∷ []) ≡ true
unfolding queued
queued-append_last j [] = ground (arith, eq_refl j)
queued-append_last j (k ∷ w) = ground (arith, queued-append_last j w)

queued-append : (j k : Text) (w : List Text) → queued j w ≡ true → queued j (w ++ k ∷ []) ≡ true
unfolding queued
queued-append j k [] h = cc
queued-append j k (i ∷ w) h = ground (arith, queued-append j k w)

put_self : (k : Text) (w : Queue) → w.0 ≡ false → queued k (put k w).1 ≡ true
unfolding put
put_self k (true, keys) o = cc
put_self k (false, keys) o = queued-append_last k keys

put_keeps : (j k : Text) (w : Queue) → queued j w.1 ≡ true → queued j (put k w).1 ≡ true
unfolding put
put_keeps j k (true, keys) h = h
put_keeps j k (false, keys) h = queued-append j k keys h

put_open : (k : Text) (w : Queue) → w.0 ≡ false → (put k w).0 ≡ false
unfolding put
put_open k (true, keys) o = o
put_open k (false, keys) o = o

take_keeps :
    (j : Text) (i : Item) (w : Queue)
    → (take w).0 ≡ some i
    → i ≢ key j
    → queued j w.1 ≡ true
    → queued j (take w).1.1 ≡ true
unfolding take queued
take_keeps j i (shut, []) e d h = cc
take_keeps j i (shut, k ∷ keys) e d h = elim (Bool-cases (k == j)) [
  | inl same ↦
      let same : k ≡ j = (eq_iff k j).0 same in let taken : i ≡ key j = cc in absurd (d taken)
  | inr other ↦ ground (arith, other)
]

take_open : (i : Item) (w : Queue) → (take w).0 ≡ some i → w.0 ≡ false → (take w).1.0 ≡ false
unfolding take
take_open i (shut, []) e o = absurd cc
take_open i (shut, k ∷ keys) e o = o

abbrev queue_laws : QueueLaws queue
queue_laws = record {
  pending = λ j w. queued j w.1;
  get_keeps = take_keeps;
  is_shut = λ w. w.0;
  add_rate_limited_self = put_self;
  add_rate_limited_keeps = put_keeps;
  add_self = put_self;
  add_keeps = put_keeps;
  forget_keeps = λ j i w h. h;
  done_keeps = λ j i w h. h;
  get_open = take_open;
  add_rate_limited_open = put_open;
  add_open = put_open;
  forget_open = λ i w o. o;
  done_open = λ i w o. o;
}

-- Every `Reconcile` fails.
abbrev failing : ReconcilerInterface Queue
failing namespace name w = (err (api 500), w)

abbrev event : ResourceEvent
event = update_func (meta (codes "b")) (meta (codes "a"))

-- The event comes while the cache is filled.
abbrev informer : Informer Queue
informer = record { wait_for_cache_sync = λ w. (true, event ∷ [], w) }

abbrev before : Queue
before = (false, codes "b" ∷ [])

run-pending_example :
    (((n : ℕ) × (n ≤ 3)
        × Handled queue queue_laws failing
            (codes "a")
            (after_rounds queue queue_laws failing informer n before))
      ⊎ (queued (codes "a") (after_rounds queue queue_laws failing informer 3 before).1 ≡ true)
      ⊎ ((run queue 3 informer failing before).0 ≡ returned))
    × (((run queue 3 informer failing before).0 ≡ in_loop)
        ⊎ (((run queue 3 informer failing before).0 ≡ returned)
            × ((n : ℕ) × (n ≤ 3)
                × ((take (after_rounds queue queue_laws failing informer n before)).0 ≡ none))))
unfolding object_of
run-pending_example =
    run-pending queue queue_laws failing informer 3 (codes "a") before (λ j namespace name w h. h)
      (λ namespace name w o. o) refl refl (inr (inl refl))

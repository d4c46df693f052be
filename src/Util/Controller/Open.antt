-- ===== src/Util/Controller/Open.antt =====
-- What the queue of pkg/util/controller.go promises, and what keeps it open.
use k8s_ext_connector.Prelude.{
  Text, Bool, true, false, Option, none, some, ◌≡◌, ◌≢◌, refl, List, [], ◌∷◌,
}
use k8s_ext_connector.Exec.{Result, ok, err}
use k8s_ext_connector.Util.Controller.{
  Item, key, other, WorkQueue, ReconcilerInterface, after_reconcile, reconcile_key, process_item,
  process_got, process_next, ResourceEvent, object_of, handle_event, handle_events,
}

-- What client-go documents of the queue: `pending` says that a key is queued, or will be after its
-- delay. `Get` takes out the item that it returns and no other, and no call takes out another key.
-- `Add` and `AddRateLimited` make their key pending unless the queue was shut down, which none of
-- these calls does: a `Get` that hands out an item found the queue open and leaves it so. A `Get` that hands
-- out none was told that the queue is shut down, and may have dropped keys that were delayed.
pub record QueueLaws {W : Type 0} (q : WorkQueue W) : Type 0 where
  pub pending : Text → W → Bool
  pub get_keeps :
      (j : Text) (i : Item) (w : W)
      → (q.get w).0 ≡ some i
      → i ≢ key j
      → pending j w ≡ true
      → pending j (q.get w).1 ≡ true
  pub is_shut : W → Bool
  pub add_rate_limited_self :
      (k : Text) (w : W) → is_shut w ≡ false → pending k (q.add_rate_limited k w) ≡ true
  pub add_rate_limited_keeps :
      (j k : Text) (w : W) → pending j w ≡ true → pending j (q.add_rate_limited k w) ≡ true
  pub add_self : (k : Text) (w : W) → is_shut w ≡ false → pending k (q.add k w) ≡ true
  pub add_keeps : (j k : Text) (w : W) → pending j w ≡ true → pending j (q.add k w) ≡ true
  pub forget_keeps :
      (j : Text) (i : Item) (w : W) → pending j w ≡ true → pending j (q.forget i w) ≡ true
  pub done_keeps :
      (j : Text) (i : Item) (w : W) → pending j w ≡ true → pending j (q.done i w) ≡ true
  pub get_open :
      (i : Item) (w : W) → (q.get w).0 ≡ some i → is_shut w ≡ false → is_shut (q.get w).1 ≡ false
  pub add_rate_limited_open :
      (k : Text) (w : W) → is_shut w ≡ false → is_shut (q.add_rate_limited k w) ≡ false
  pub add_open : (k : Text) (w : W) → is_shut w ≡ false → is_shut (q.add k w) ≡ false
  pub forget_open : (i : Item) (w : W) → is_shut w ≡ false → is_shut (q.forget i w) ≡ false
  pub done_open : (i : Item) (w : W) → is_shut w ≡ false → is_shut (q.done i w) ≡ false

module _ {W : Type 0} (q : WorkQueue W) (L : QueueLaws q) (r : ReconcilerInterface W) where
  -- A reconciler takes no key out of the queue.
  abbrev pub KeepsPending : Type 0
  KeepsPending =
      (j namespace name : Text) (w : W)
      → L.pending j w ≡ true
      → L.pending j (r namespace name w).1 ≡ true

  -- A reconciler does not shut the queue down.
  abbrev pub KeepsOpen : Type 0
  KeepsOpen =
      (namespace name : Text) (w : W)
      → L.is_shut w ≡ false
      → L.is_shut (r namespace name w).1 ≡ false

  after_reconcile-open :
      (k : Text) (res : Result (Unit {0}) × W)
      → L.is_shut res.1 ≡ false
      → L.is_shut (after_reconcile q k res).1 ≡ false
  unfolding after_reconcile
  after_reconcile-open k (ok _, w) o = L.forget_open (key k) w o
  after_reconcile-open k (err e, w) o = L.add_rate_limited_open k w o

  reconcile_key-open :
      (k : Text) (parsed : Result (Text × Text)) (w : W)
      → KeepsOpen
      → L.is_shut w ≡ false
      → L.is_shut (reconcile_key q r k parsed w).1 ≡ false
  unfolding reconcile_key
  reconcile_key-open k (err e) w opens o = o
  reconcile_key-open k (ok (namespace, name)) w opens o =
      after_reconcile-open k (r namespace name w) (opens namespace name w o)

  process_item-open :
      (i : Item) (w : W)
      → KeepsOpen
      → L.is_shut w ≡ false
      → L.is_shut (process_item q r i w).1 ≡ false
  unfolding process_item
  process_item-open (key k) w opens o =
      reconcile_key-open k (q.split_meta_namespace_key k) w opens o
  process_item-open other w opens o = L.forget_open other w o

  process_got-open :
      (got : Option Item) (w : W)
      → KeepsOpen
      → ((i : Item) → got ≡ some i → L.is_shut w ≡ false)
      → (process_got q r got w).0 ≡ true
      → L.is_shut (process_got q r got w).1 ≡ false
  unfolding process_got
  process_got-open none w opens o h = cc
  process_got-open (some i) w opens o h =
      L.done_open i (process_item q r i w).1 (process_item-open i w opens (o i refl))

  -- A round that was handed an item leaves the queue open.
  pub process_next-open :
      (w : W)
      → KeepsOpen
      → L.is_shut w ≡ false
      → (process_next q r w).0 ≡ true
      → L.is_shut (process_next q r w).1 ≡ false
  unfolding process_next
  process_next-open w opens o h =
      process_got-open (q.get w).0 (q.get w).1 opens (λ i e. L.get_open i w e o) h

  enqueue-open :
      (w : W) (k : Result Text)
      → L.is_shut w ≡ false
      → L.is_shut (elim k as (λ _. W) [ ok i ↦ q.add i w | err e ↦ w ]) ≡ false
  enqueue-open w (ok i) o = L.add_open i w o
  enqueue-open w (err x) o = o

  pub handle_event-open :
      (event : ResourceEvent) (w : W)
      → L.is_shut w ≡ false
      → L.is_shut (handle_event q event w) ≡ false
  unfolding handle_event
  handle_event-open event w o = enqueue-open w (q.meta_namespace_key (object_of event)) o

  pub handle_events-open :
      (events : List ResourceEvent) (w : W)
      → L.is_shut w ≡ false
      → L.is_shut (handle_events q events w) ≡ false
  unfolding handle_events
  handle_events-open [] w o = o
  handle_events-open (event ∷ events) w o =
      handle_events-open events _ (handle_event-open event w o)

-- ===== src/Util/Controller/Retry.antt =====
-- That `processNext` of pkg/util/controller.go loses no key.
use k8s_ext_connector.Prelude.{
  Text, ℕ, zero, suc, ◌≤◌, Bool, arith, true, false, Option, none, some, ◌==◌, eq_iff, ◌≡◌, ◌≢◌,
  ◌⊎◌, inl, inr, refl, ap, Bool-cases, Option-cases, ◌∙◌, List, [], ◌∷◌, sym, subst,
}
use k8s_ext_connector.Exec.{Error, Result, ok, err, ok-injective}
use k8s_ext_connector.Util.Controller.{
  Item, key, other, WorkQueue, ReconcilerInterface, after_reconcile, reconcile_key, process_item,
  process_got, process_next, reconcile_loop, ResourceEvent, object_of, handle_event, handle_events,
}
use k8s_ext_connector.Util.Controller.Open.{
  QueueLaws, KeepsPending, KeepsOpen, process_next-open, handle_event-open, handle_events-open,
}

module _ {W : Type 0} (q : WorkQueue W) (L : QueueLaws q) (r : ReconcilerInterface W) where
  -- The key was handed out, and was no name of a resource, or its `Reconcile` succeeded.
  abbrev pub Handled : Text → W → Type 0
  Handled j w =
      ((q.get w).0 ≡ some (key j))
      × (((e : Error) × (q.split_meta_namespace_key j ≡ err e))
          ⊎ ((namespace : Text) × (name : Text) × (q.split_meta_namespace_key j
                ≡ ok (namespace, name))
              × ((r namespace name (q.get w).1).0 ≡ ok tt)))

  after_reconcile-pending :
      (j k : Text) (res : Result (Unit {0}) × W)
      → L.pending j res.1 ≡ true
      → L.pending j (after_reconcile q k res).1 ≡ true
  unfolding after_reconcile
  after_reconcile-pending j k (ok _, w) h = L.forget_keeps j (key k) w h
  after_reconcile-pending j k (err e, w) h = L.add_rate_limited_keeps j k w h

  -- A failed call is pending again.
  after_reconcile-failed :
      (k : Text) (res : Result (Unit {0}) × W)
      → L.is_shut res.1 ≡ false
      → (res.0 ≡ ok tt) ⊎ (L.pending k (after_reconcile q k res).1 ≡ true)
  unfolding after_reconcile
  after_reconcile-failed k (ok _, w) o = inl refl
  after_reconcile-failed k (err e, w) o = inr (L.add_rate_limited_self k w o)

  reconcile_key-pending :
      (j k : Text) (parsed : Result (Text × Text)) (w : W)
      → KeepsPending q L r
      → L.pending j w ≡ true
      → L.pending j (reconcile_key q r k parsed w).1 ≡ true
  unfolding reconcile_key
  reconcile_key-pending j k (err e) w keeps h = h
  reconcile_key-pending j k (ok (namespace, name)) w keeps h =
      after_reconcile-pending j k (r namespace name w) (keeps j namespace name w h)

  process_item-pending :
      (j : Text) (i : Item) (w : W)
      → KeepsPending q L r
      → L.pending j w ≡ true
      → L.pending j (process_item q r i w).1 ≡ true
  unfolding process_item
  process_item-pending j (key k) w keeps h =
      reconcile_key-pending j k (q.split_meta_namespace_key k) w keeps h
  process_item-pending j other w keeps h = L.forget_keeps j other w h

  process_got-pending :
      (j : Text) (got : Option Item) (w : W)
      → KeepsPending q L r
      → L.pending j w ≡ true
      → L.pending j (process_got q r got w).1 ≡ true
  unfolding process_got
  process_got-pending j none w keeps h = h
  process_got-pending j (some i) w keeps h =
      L.done_keeps j i (process_item q r i w).1 (process_item-pending j i w keeps h)

  reconcile_key-Handled :
      (k : Text) (parsed : Result (Text × Text)) (w : W)
      → KeepsOpen q L r
      → L.is_shut w ≡ false
      → ((e : Error) × (parsed ≡ err e))
        ⊎ ((namespace : Text) × (name : Text) × (parsed ≡ ok (namespace, name))
            × ((r namespace name w).0 ≡ ok tt))
        ⊎ (L.pending k (reconcile_key q r k parsed w).1 ≡ true)
  unfolding reconcile_key
  reconcile_key-Handled k (err e) w opens o = inl (e, refl)
  reconcile_key-Handled k (ok (namespace, name)) w opens o =
      elim (after_reconcile-failed k (r namespace name w) (opens namespace name w o)) [
        | inl done ↦ inr (inl (namespace, name, refl, done))
        | inr again ↦ inr (inr again)
      ]

  process_got-Handled :
      (j : Text) (w : W)
      → KeepsOpen q L r
      → L.is_shut w ≡ false
      → (q.get w).0 ≡ some (key j)
      → Handled j w ⊎ (L.pending j (process_next q r w).1 ≡ true)
  unfolding process_next process_got process_item
  process_got-Handled j w opens o e =
      elim (reconcile_key-Handled j (q.split_meta_namespace_key j) (q.get w).1 opens
        (L.get_open (key j) w e o)) [
          | inl bad ↦ inl (e, inl bad)
          | inr rest ↦ elim rest [
            | inl done ↦ inl (e, inr done)
            | inr again ↦ inr (rw e (L.done_keeps j (key j) _ again))
          ]
        ]

  -- Whether an item is the key.
  is_key : Text → Option Item → Bool
  is_key j (some (key k)) = k == j
  is_key j _ = false

  is_key_iff : (j : Text) (got : Option Item) → is_key j got ≡ true → got ≡ some (key j)
  unfolding is_key
  is_key_iff j none h = cc
  is_key_iff j (some other) h = cc
  is_key_iff j (some (key k)) h = ap (λ x. some (key x)) ((eq_iff k j).0 h)

  is_key_self : (j : Text) (got : Option Item) → got ≡ some (key j) → is_key j got ≡ true
  unfolding is_key
  is_key_self j got e = rw e ((eq_iff j j).1 refl)

  -- `processNext` loses no key, unless it says that the queue was shut down.
  process_next-pending :
      (j : Text) (w : W)
      → KeepsPending q L r
      → KeepsOpen q L r
      → L.is_shut w ≡ false
      → L.pending j w ≡ true
      → (process_next q r w).0 ≡ true
      → Handled j w ⊎ (L.pending j (process_next q r w).1 ≡ true)
  unfolding process_next process_got
  process_next-pending j w keeps opens o h more = elim (Option-cases (q.get w).0) [
    | inl shut ↦ absurd (let ended = (rw shut at more) in cc)
    | inr (i, e) ↦ elim (Bool-cases (is_key j (q.get w).0)) [
      | inl mine ↦ process_got-Handled j w opens o (is_key_iff j (q.get w).0 mine)
      | inr not_mine ↦
          let other_key : i ≢ key j =
            λ same. let is = is_key_self j (q.get w).0 (e ∙ ap (λ x. some x) same) in absurd cc in
          let kept = L.get_keeps j i w e other_key h in
          inr (process_got-pending j (q.get w).0 (q.get w).1 keeps kept)
    ]
  ]

  -- The loop loses no key that is pending when it starts, until it ends.
  loop_keeps :
      (rounds : ℕ) (j : Text) (w : W)
      → KeepsPending q L r
      → KeepsOpen q L r
      → L.is_shut w ≡ false
      → L.pending j w ≡ true
      → ((n : ℕ) × (n ≤ rounds) × Handled j (reconcile_loop q n r w).1)
        ⊎ (L.pending j (reconcile_loop q rounds r w).1 ≡ true)
        ⊎ ((reconcile_loop q rounds r w).0 ≡ false)
  unfolding reconcile_loop
  loop_keeps zero j w keeps opens o h = inr (inl h)
  loop_keeps (suc rounds) j w keeps opens o h =
      let w₁ = (process_next q r w).1 in
      elim (Bool-cases (process_next q r w).0) [
        | inr ended ↦ inr (inr (rw ended refl))
        | inl more ↦ elim (process_next-pending j w keeps opens o h more) [
          | inl handled ↦ inl (0, omega arith, handled)
          | inr h₁ ↦
              rw more
                (elim (loop_keeps rounds j w₁ keeps opens (process_next-open q L r w opens o more)
                  h₁) [
                    | inl (n, le, handled) ↦ inl (suc n, omega arith, rw more handled)
                    | inr rest ↦ inr rest
                  ])
        ]
      ]

  enqueue-pending :
      (j : Text) (w : W) (k : Result Text)
      → L.is_shut w ≡ false
      → (L.pending j w ≡ true) ⊎ (k ≡ ok j)
      → L.pending j (elim k as (λ _. W) [ ok i ↦ q.add i w | err e ↦ w ]) ≡ true
  enqueue-pending j w (ok i) o (inl h) = L.add_keeps j i w h
  enqueue-pending j w (ok i) o (inr e) =
      subst (λ x. L.pending j (q.add x w) ≡ true) (sym (ok-injective e)) (L.add_self j w o)
  enqueue-pending j w (err x) o (inl h) = h
  enqueue-pending j w (err x) o (inr e) = cc

  handle_event-pending :
      (event : ResourceEvent) (j : Text) (w : W)
      → L.is_shut w ≡ false
      → (L.pending j w ≡ true) ⊎ (q.meta_namespace_key (object_of event) ≡ ok j)
      → L.pending j (handle_event q event w) ≡ true
  unfolding handle_event
  handle_event-pending event j w o h =
      enqueue-pending j w (q.meta_namespace_key (object_of event)) o h

  -- The key comes from an event of the list.
  abbrev pub IsTold : Text → List ResourceEvent → Type 0
  IsTold j [] = ⊥
  IsTold j (event ∷ events) = (q.meta_namespace_key (object_of event) ≡ ok j) ⊎ IsTold j events

  handle_events-pending :
      (events : List ResourceEvent) (j : Text) (w : W)
      → L.is_shut w ≡ false
      → (L.pending j w ≡ true) ⊎ IsTold j events
      → L.pending j (handle_events q events w) ≡ true
  unfolding handle_events
  handle_events-pending [] j w o (inl h) = h
  handle_events-pending [] j w o (inr z) = absurd z
  handle_events-pending (event ∷ events) j w o (inl h) =
      handle_events-pending events j _ (handle_event-open q L r event w o)
        (inl (handle_event-pending event j w o (inl h)))
  handle_events-pending (event ∷ events) j w o (inr (inl e)) =
      handle_events-pending events j _ (handle_event-open q L r event w o)
        (inl (handle_event-pending event j w o (inr e)))
  handle_events-pending (event ∷ events) j w o (inr (inr m)) =
      handle_events-pending events j _ (handle_event-open q L r event w o) (inr m)

  -- Where the reconciler takes no key out of the queue and does not shut it down, the loop loses no
  -- key until it ends: one that was pending in an open queue, or that is the key of an object of
  -- one of the events that the handlers were then given, is pending after any number of rounds, or
  -- after one of them it was handed out, and its `Reconcile` succeeded or it does not parse as the
  -- key of a resource; or the loop has ended.
  pub reconcile_loop-pending :
      (rounds : ℕ) (events : List ResourceEvent) (j : Text) (w : W)
      → KeepsPending q L r
      → KeepsOpen q L r
      → L.is_shut w ≡ false
      → (L.pending j w ≡ true) ⊎ IsTold j events
      → ((n : ℕ) × (n ≤ rounds) × Handled j (reconcile_loop q n r (handle_events q events w)).1)
        ⊎ (L.pending j (reconcile_loop q rounds r (handle_events q events w)).1 ≡ true)
        ⊎ ((reconcile_loop q rounds r (handle_events q events w)).0 ≡ false)
  reconcile_loop-pending rounds events j w keeps opens o h =
      loop_keeps rounds j (handle_events q events w) keeps opens
        (handle_events-open q L r events w o) (handle_events-pending events j w o h)

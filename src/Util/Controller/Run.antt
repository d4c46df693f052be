-- ===== src/Util/Controller/Run.antt =====
-- What `Run` of pkg/util/controller.go does with the keys that its informer tells of.
use k8s_ext_connector.Prelude.{
  Text, ℕ, zero, suc, ◌≤◌, arith, true, false, Option, none, some, ◌≡◌, ◌⊎◌, inl, inr, refl,
  Bool-cases,
}
use k8s_ext_connector.Util.Controller.{
  Item, WorkQueue, ReconcilerInterface, process_got, process_next, reconcile_loop, handle_events,
  Informer, in_loop, returned, run,
}
use k8s_ext_connector.Util.Controller.Open.{QueueLaws, KeepsPending, KeepsOpen}
use k8s_ext_connector.Util.Controller.Retry.{Handled, IsTold, reconcile_loop-pending}

module _ {W : Type 0} (q : WorkQueue W) (r : ReconcilerInterface W) where
  process_got-ended : (got : Option Item) (w : W) → (process_got q r got w).0 ≡ false → got ≡ none
  unfolding process_got
  process_got-ended none w h = refl
  process_got-ended (some i) w h = cc

  -- The loop ends only where `Get` hands out no item.
  loop_ended :
      (rounds : ℕ) (w : W)
      → (reconcile_loop q rounds r w).0 ≡ false
      → (n : ℕ) × (n ≤ rounds) × ((q.get (reconcile_loop q n r w).1).0 ≡ none)
  unfolding reconcile_loop process_next
  loop_ended zero w h = cc
  loop_ended (suc rounds) w h = elim (Bool-cases (process_next q r w).0) [
    | inr ended ↦ (0, omega arith, process_got-ended (q.get w).0 (q.get w).1 ended)
    | inl more ↦
        let (n, le, shut) = loop_ended rounds (process_next q r w).1 (rw more at h) in
        (suc n, omega arith, rw more shut)
  ]

module _ {W : Type 0} (q : WorkQueue W) (L : QueueLaws q) (r : ReconcilerInterface W)
    (informer : Informer W) where
  -- The world after some rounds of the loop.
  abbrev pub after_rounds : ℕ → W → W
  after_rounds n w =
      let (_, events, w₁) = informer.wait_for_cache_sync w in
      (reconcile_loop q n r (handle_events q events w₁)).1

  -- Where the reconciler takes no key out of the queue and does not shut it down, let the
  -- informer's cache be in sync and the queue then be open. A key that is then pending, or that is
  -- the key of an object of one of the events that came until then, is pending after any number of
  -- rounds of the loop of Run, or after one of them it was handed out, and its Reconcile succeeded
  -- or it does not parse as the key of a resource; or Run has returned. And Run is in its loop
  -- after those rounds, or it returned because after one of them Get handed out no item, which says
  -- that the queue was shut down.
  pub run-pending :
      (rounds : ℕ) (j : Text) (w : W)
      → KeepsPending q L r
      → KeepsOpen q L r
      → (informer.wait_for_cache_sync w).0 ≡ true
      → L.is_shut (informer.wait_for_cache_sync w).2 ≡ false
      → (L.pending j (informer.wait_for_cache_sync w).2 ≡ true)
        ⊎ IsTold q L r j (informer.wait_for_cache_sync w).1
      → (((n : ℕ) × (n ≤ rounds) × Handled q L r j (after_rounds n w))
          ⊎ (L.pending j (after_rounds rounds w) ≡ true)
          ⊎ ((run q rounds informer r w).0 ≡ returned))
        × (((run q rounds informer r w).0 ≡ in_loop)
            ⊎ (((run q rounds informer r w).0 ≡ returned)
                × ((n : ℕ) × (n ≤ rounds) × ((q.get (after_rounds n w)).0 ≡ none))))
  unfolding run
  run-pending rounds j w keeps opens synced o h =
      let (_, events, w₁) = informer.wait_for_cache_sync w in
      let w₂ = handle_events q events w₁ in
      (
        elim (reconcile_loop-pending q L r rounds events j w₁ keeps opens o h) [
          | inl handled ↦ inl handled
          | inr (inl kept) ↦ inr (inl kept)
          | inr (inr ended) ↦ inr (inr (rw (synced, ended) refl))
        ],
        elim (Bool-cases (reconcile_loop q rounds r w₂).0) [
          | inl more ↦ inl (rw (synced, more) refl)
          | inr ended ↦ inr (rw (synced, ended) refl, loop_ended q r rounds w₂ ended)
        ],
      )

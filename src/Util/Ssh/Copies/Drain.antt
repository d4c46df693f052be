-- ===== src/Util/Ssh/Copies/Drain.antt =====
-- When the connections of a tunnel are closed.
use k8s_ext_connector.Prelude.{
  Bool, false, List, [], ◌∷◌, ◌++◌, ◌≡◌, ◌⊎◌, inl, inr, refl, subst, All, some,
}
use k8s_ext_connector.Util.Ssh.{Handle}
use k8s_ext_connector.Util.Ssh.Copies.{
  ended, Copies, do_forward, close_order, goroutine, go_on, Step, goes_on, selects, ends, cancels,
  Reach, here, next,
}
use k8s_ext_connector.Util.Ssh.Copies.Calls.{go_on-At}
use k8s_ext_connector.Util.Ssh.Copies.Count.{
  Phase, began, closed_last, closed_both, following, At, finish-At, copy_con-At,
}
use k8s_ext_connector.Util.Ssh.Copies.Runs.{At-Drains}

-- What was closed is a beginning of the order, nothing is closed before both copies ended, and no
-- `select` with the context done led to an `io.Copy`.
pub record IsDraining (order : List Handle) (s : Copies) : Type 0 where
  pub rest : List Handle
  pub in_order : s.closed ++ rest ≡ order
  pub only_ended : (s.closed ≡ []) ⊎ ((s.copy_forth ≡ ended) × (s.copy_back ≡ ended))
  pub quiet : All (λ late. late ≡ false) s.begun

module _ {a b : Handle} where
  Step-At : {p : Phase} {s t : Copies} → At a b p s → Step s t → (q : Phase) × At a b q t
  Step-At {p = p} {s = s} at (goes_on {t = t} e) =
      (following p, go_on-At p at (subst (λ todo. go_on todo s ≡ some t) at.todo e))
  Step-At {p = p} at (selects d e) = (p, copy_con-At at d e)
  Step-At {p = p} at (ends d e) = (p, finish-At at d (rw e refl))
  Step-At {p = p} at cancels = (
    p,
    record {
      todo = at.todo;
      counter = at.counter;
      forth_fits = at.forth_fits;
      back_fits = at.back_fits;
      closed = at.closed;
      quiet = at.quiet;
    },
  )

  Reach-At : {s t : Copies} → At a b began s → Reach s t → (q : Phase) × At a b q t
  Reach-At at here = (began, at)
  Reach-At at (next r st) = let (p, at') = Reach-At at r in Step-At at' st

  At-IsDraining : (p : Phase) {s : Copies} → At a b p s → IsDraining (b ∷ a ∷ []) s
  At-IsDraining closed_last {s} at = record {
    rest = a ∷ [];
    in_order = rw at.closed refl;
    only_ended = inr (at.forth_fits, at.back_fits);
    quiet = at.quiet;
  }
  At-IsDraining closed_both {s} at = record {
    rest = [];
    in_order = rw at.closed refl;
    only_ended = inr (at.forth_fits, at.back_fits);
    quiet = at.quiet;
  }
  At-IsDraining _ at = record {
    rest = b ∷ a ∷ [];
    in_order = rw at.closed refl;
    only_ended = inl at.closed;
    quiet = at.quiet;
  }

-- Whatever the copies, the goroutine and `Cancel()` do, and in whatever order, with a `wg.Wait()`
-- that only waits for the counter of the `WaitGroup` to be 0: the two connections are closed in the
-- order in which the deferred calls run, and neither before both copies ended, so that `Cancel()`
-- closes no connection that is still copied; and no copy whose `select` runs when the context is
-- done begins its `io.Copy`. And from every state that is reached there are steps, if the copies
-- that run can end, after which both connections are closed.
pub do_forward-IsDraining :
    (done : Bool) (deferred_first deferred_last : Handle) (s : Copies)
    → Reach (goroutine done deferred_first deferred_last) s
    → IsDraining (deferred_last ∷ deferred_first ∷ []) s
      × ((t : Copies) × Reach s t × (t.closed ≡ deferred_last ∷ deferred_first ∷ []))
unfolding goroutine do_forward close_order
do_forward-IsDraining done a b s r =
    let start : At a b began (goroutine done a b) = record {
      todo = refl;
      counter = refl;
      forth_fits = refl;
      back_fits = refl;
      closed = refl;
      quiet = tt;
    } in
    let (p, at) = Reach-At start r in (At-IsDraining p at, At-Drains p at)

-- ===== src/Util/Ssh/Copies/Calls.antt =====
-- The calls of the goroutine, from phase to phase (`doForward` of pkg/util/ssh.go).
use k8s_ext_connector.Prelude.{
  some, none, [], ◌∷◌, ◌++◌, ◌≡◌, refl, sym, ap, ◌∙◌, subst, arith, Bool-cases, inl, inr, nat_eq,
  nat_eq_iff,
}
use k8s_ext_connector.Util.Ssh.{Handle}
use k8s_ext_connector.Util.Ssh.Copies.{Copies, act, go_on}
use k8s_ext_connector.Util.Ssh.Copies.Count.{
  Phase, began, added_forth, went_forth, added_back, went_back, waited, closed_last, closed_both,
  alive, alive-ended, following, left, At,
}

landed : (P : Copies → Type 0) {s t : Copies} → some s ≡ some t → P s → P t
landed P {s} {t} e at = let same : s ≡ t = cc (e) in subst P same at

module _ {a b : Handle} {s t : Copies} where
  -- `wg.Wait()` returns with the counter at 0, and then neither copy runs.
  wait-At : At a b went_back s → go_on (left a b went_back) s ≡ some t → At a b waited t
  unfolding go_on act
  wait-At at e = elim (Bool-cases (nat_eq s.wait_group 0)) [
    | inr counted ↦
        let blocks : go_on (left a b went_back) s ≡ none = rw counted refl in
        absurd (cc (blocks, e))
    | inl zero_ ↦
        let n : s.wait_group ≡ 0 = (nat_eq_iff s.wait_group 0).0 zero_ in
        let m = at.counter in
        let returns : go_on (left a b went_back) s ≡ some (record s { todo = left a b waited }) =
          rw zero_ refl in
        let e' : some (record s { todo = left a b waited }) ≡ some t = sym returns ∙ e in
        landed (At a b waited) e' (record {
          todo = refl;
          counter = omega arith;
          forth_fits = alive-ended s.copy_forth at.forth_fits (omega arith);
          back_fits = alive-ended s.copy_back at.back_fits (omega arith);
          closed = at.closed;
          quiet = at.quiet;
        })
  ]

  -- Each call of the goroutine leads to the next phase.
  pub go_on-At : (p : Phase) → At a b p s → go_on (left a b p) s ≡ some t → At a b (following p) t
  unfolding go_on act
  go_on-At began at e = landed (At a b added_forth) e (record {
    todo = refl;
    counter = (let n = at.counter in omega arith);
    forth_fits = at.forth_fits;
    back_fits = at.back_fits;
    closed = at.closed;
    quiet = at.quiet;
  })
  go_on-At added_forth at e = landed (At a b went_forth) e (record {
    todo = refl;
    counter = (let n = at.counter in let none_yet = ap alive at.forth_fits in omega arith);
    forth_fits = λ e'. absurd (cc (e'));
    back_fits = at.back_fits;
    closed = at.closed;
    quiet = at.quiet;
  })
  go_on-At went_forth at e = landed (At a b added_back) e (record {
    todo = refl;
    counter = (let n = at.counter in omega arith);
    forth_fits = at.forth_fits;
    back_fits = at.back_fits;
    closed = at.closed;
    quiet = at.quiet;
  })
  go_on-At added_back at e = landed (At a b went_back) e (record {
    todo = refl;
    counter = (let n = at.counter in let none_yet = ap alive at.back_fits in omega arith);
    forth_fits = at.forth_fits;
    back_fits = λ e'. absurd (cc (e'));
    closed = at.closed;
    quiet = at.quiet;
  })
  go_on-At went_back at e = wait-At at e
  go_on-At waited at e = landed (At a b closed_last) e (record {
    todo = refl;
    counter = at.counter;
    forth_fits = at.forth_fits;
    back_fits = at.back_fits;
    closed = ap (λ hs. hs ++ b ∷ []) at.closed;
    quiet = at.quiet;
  })
  go_on-At closed_last at e = landed (At a b closed_both) e (record {
    todo = refl;
    counter = at.counter;
    forth_fits = at.forth_fits;
    back_fits = at.back_fits;
    closed = ap (λ hs. hs ++ a ∷ []) at.closed;
    quiet = at.quiet;
  })
  go_on-At closed_both at e = absurd (cc (e))

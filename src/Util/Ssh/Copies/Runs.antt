-- ===== src/Util/Ssh/Copies/Runs.antt =====
-- From every state of a tunnel's goroutine its connections can be closed.
use k8s_ext_connector.Prelude.{
  [], ◌∷◌, ◌≡◌, ◌≢◌, ◌⊎◌, inl, inr, refl, sym, ap, ◌∙◌, subst, some, Bool-cases, arith, nat_eq_iff,
}
use k8s_ext_connector.Util.Ssh.{Handle}
use k8s_ext_connector.Util.Ssh.Copies.{
  CopyState, absent, started, copying, ended, Direction, forth, back, Copies, state, set_state,
  finish, copy_con, act, go_on, goes_on, selects, ends, Reach, here, next,
}
use k8s_ext_connector.Util.Ssh.Copies.Calls.{go_on-At}
use k8s_ext_connector.Util.Ssh.Copies.Count.{
  alive, Phase, began, added_forth, went_forth, added_back, went_back, waited, closed_last,
  closed_both, following, left, At, finish-At, copying-At,
}

-- The state that a run from `s` leads to, with what it keeps.
abbrev pub Ends : Copies → (Copies → Type 0) → Type 0
Ends s P = (t : Copies) × Reach s t × P t

Reach-append : {s t u : Copies} → Reach s t → Reach t u → Reach s u
Reach-append r here = r
Reach-append r (next q st) = next (Reach-append r q) st

abbrev other : Direction → Direction
other forth = back
other back = forth

CopyState-cases : (c : CopyState) → (c ≡ absent) ⊎ ((c ≡ started) ⊎ ((c ≡ copying) ⊎ (c ≡ ended)))
CopyState-cases absent = inl refl
CopyState-cases started = inr (inl refl)
CopyState-cases copying = inr (inr (inl refl))
CopyState-cases ended = inr (inr (inr refl))

finish-state :
    (d : Direction) (s : Copies)
    → (state d (finish d s) ≡ ended) × (state (other d) (finish d s) ≡ state (other d) s)
unfolding finish
finish-state forth s = (refl, refl)
finish-state back s = (refl, refl)

copying-state :
    (d : Direction) (s : Copies)
    → let copies = set_state d copying (record s { begun = s.done ∷ s.begun }) in
      (state d copies ≡ copying) × (state (other d) copies ≡ state (other d) s)
copying-state forth s = (refl, refl)
copying-state back s = (refl, refl)

module _ (a b : Handle) where
  -- A run from `s` after which a copy has ended, and all else is as it was.
  abbrev EndsOne : Direction → Phase → Copies → Type 0
  EndsOne d p s =
      Ends s (λ t. At a b p t × (state d t ≡ ended) × (state (other d) t ≡ state (other d) s))

  abbrev pub Drains : Copies → Type 0
  Drains s = Ends s (λ t. t.closed ≡ b ∷ a ∷ [])

module _ {a b : Handle} where
  Drains-after : {s t : Copies} → Reach s t → Drains a b t → Drains a b s
  Drains-after r (u, q, all) = (u, Reach-append r q, all)

  -- A call that does not block, and what follows from the next phase.
  proceed :
      (p : Phase) {s t : Copies}
      → At a b p s
      → go_on (left a b p) s ≡ some t
      → (At a b (following p) t → Drains a b t)
      → Drains a b s
  proceed p {s} {t} at e from =
      Drains-after (next here (goes_on (subst (λ todo. go_on todo s ≡ some t) (sym at.todo) e)))
        (from (go_on-At p at e))

  end_copying :
      (d : Direction) {p : Phase} {s : Copies}
      → state d s ≡ copying
      → At a b p s
      → EndsOne a b d p s
  end_copying d {s = s} e at = (
    finish d s,
    next here (ends d e),
    (finish-At at d (rw e refl), (finish-state d s).0, (finish-state d s).1),
  )

  end_started :
      (d : Direction) {p : Phase} {s : Copies}
      → state d s ≡ started
      → At a b p s
      → EndsOne a b d p s
  unfolding copy_con
  end_started d {s = s} e at = elim (Bool-cases s.done) [
    | inl done ↦
        let same : copy_con d s ≡ finish d s = rw done refl in
        (
          finish d s,
          subst (λ t. Reach s t) same (next here (selects d e)),
          (finish-At at d (rw e refl), (finish-state d s).0, (finish-state d s).1),
        )
    | inr open_ ↦
        let copies = set_state d copying (record s { begun = s.done ∷ s.begun }) in
        let same : copy_con d s ≡ copies = rw open_ refl in
        let (now, kept) = copying-state d s in
        let (t, r, (at', over, alike)) = end_copying d now (copying-At at d e open_) in
        (
          t,
          Reach-append (subst (λ t. Reach s t) same (next here (selects d e))) r,
          (at', over, alike ∙ kept),
        )
  ]

  end_copy :
      (d : Direction) {p : Phase} {s : Copies} → state d s ≢ absent → At a b p s → EndsOne a b d p s
  end_copy d {s = s} running at = elim (CopyState-cases (state d s)) [
    | inl e ↦ absurd (running e)
    | inr (inl e) ↦ end_started d e at
    | inr (inr (inl e)) ↦ end_copying d e at
    | inr (inr (inr e)) ↦ (s, here, (at, e, refl))
  ]

  from_closed_both : {s : Copies} → At a b closed_both s → Drains a b s
  from_closed_both {s} at = (s, here, at.closed)

  from_closed_last : {s : Copies} → At a b closed_last s → Drains a b s
  unfolding go_on act
  from_closed_last at = proceed closed_last at refl from_closed_both

  from_waited : {s : Copies} → At a b waited s → Drains a b s
  unfolding go_on act
  from_waited at = proceed waited at refl from_closed_last

  -- With both copies ended, the counter is 0.
  from_ended :
      {s : Copies} → s.copy_forth ≡ ended → s.copy_back ≡ ended → At a b went_back s → Drains a b s
  unfolding go_on act
  from_ended {s} f b' at =
      let n = at.counter in
      let m = ap alive f in
      let k = ap alive b' in
      let zero_ : s.wait_group ≡ 0 = omega arith in
      let returns : go_on (left a b went_back) s ≡ some (record s { todo = left a b waited }) =
        rw ((nat_eq_iff s.wait_group 0).1 zero_) refl in
      proceed went_back at returns from_waited

  from_went_back : {s : Copies} → At a b went_back s → Drains a b s
  from_went_back at =
      let (t, r, (at', f, _)) = end_copy forth at.forth_fits at in
      let (u, q, (at'', b', f')) = end_copy back at'.back_fits at' in
      Drains-after (Reach-append r q) (from_ended (f' ∙ f) b' at'')

  from_added_back : {s : Copies} → At a b added_back s → Drains a b s
  unfolding go_on act
  from_added_back at = proceed added_back at refl from_went_back

  from_went_forth : {s : Copies} → At a b went_forth s → Drains a b s
  unfolding go_on act
  from_went_forth at = proceed went_forth at refl from_added_back

  from_added_forth : {s : Copies} → At a b added_forth s → Drains a b s
  unfolding go_on act
  from_added_forth at = proceed added_forth at refl from_went_forth

  from_began : {s : Copies} → At a b began s → Drains a b s
  unfolding go_on act
  from_began at = proceed began at refl from_added_forth

  pub At-Drains : (p : Phase) {s : Copies} → At a b p s → Drains a b s
  At-Drains began at = from_began at
  At-Drains added_forth at = from_added_forth at
  At-Drains went_forth at = from_went_forth at
  At-Drains added_back at = from_added_back at
  At-Drains went_back at = from_went_back at
  At-Drains waited at = from_waited at
  At-Drains closed_last at = from_closed_last at
  At-Drains closed_both at = from_closed_both at

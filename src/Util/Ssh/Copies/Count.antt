-- ===== src/Util/Ssh/Copies/Count.antt =====
-- The counter of the `WaitGroup` counts the copies that run (`doForward` of pkg/util/ssh.go).
use k8s_ext_connector.Prelude.{
  ℕ, ◌+◌, false, List, [], ◌∷◌, ◌≡◌, ◌≢◌, refl, sym, ap, subst, All, arith, Bool-cases, inl, inr,
}
use k8s_ext_connector.Util.Ssh.{Handle}
use k8s_ext_connector.Util.Ssh.Copies.{
  CopyState, absent, started, copying, ended, Direction, forth, back, Action, add, wait, go, close,
  Copies, state, set_state, finish, copy_con,
}

-- Where the goroutine stands: what it did last.
pub data Phase : Type 0 where
  began added_forth went_forth added_back went_back waited closed_last closed_both : Phase

-- How many copies run.
abbrev pub alive : CopyState → ℕ
alive absent = 0
alive started = 1
alive copying = 1
alive ended = 0

-- What was added to the counter for a copy that is not started yet.
abbrev owed : Phase → ℕ
owed added_forth = 1
owed added_back = 1
owed _ = 0

-- Not started, started, or ended.
pub data Stage : Type 0 where
  not_yet under_way over : Stage

abbrev Fits : Stage → CopyState → Type 0
Fits not_yet c = c ≡ absent
Fits under_way c = c ≢ absent
Fits over c = c ≡ ended

abbrev stage : Direction → Phase → Stage
stage forth began = not_yet
stage forth added_forth = not_yet
stage forth went_forth = under_way
stage forth added_back = under_way
stage forth went_back = under_way
stage back began = not_yet
stage back added_forth = not_yet
stage back went_forth = not_yet
stage back added_back = not_yet
stage back went_back = under_way
stage _ _ = over

pub alive-ended : (c : CopyState) → c ≢ absent → alive c ≡ 0 → c ≡ ended
alive-ended absent n z = absurd (n refl)
alive-ended started n z = absurd (cc (z))
alive-ended copying n z = absurd (cc (z))
alive-ended ended n z = refl

abbrev pub following : Phase → Phase
following began = added_forth
following added_forth = went_forth
following went_forth = added_back
following added_back = went_back
following went_back = waited
following waited = closed_last
following closed_last = closed_both
following closed_both = closed_both

module _ (a b : Handle) where
  -- What is left to do.
  abbrev pub left : Phase → List Action
  left began = add ∷ go forth ∷ add ∷ go back ∷ wait ∷ close b ∷ close a ∷ []
  left added_forth = go forth ∷ add ∷ go back ∷ wait ∷ close b ∷ close a ∷ []
  left went_forth = add ∷ go back ∷ wait ∷ close b ∷ close a ∷ []
  left added_back = go back ∷ wait ∷ close b ∷ close a ∷ []
  left went_back = wait ∷ close b ∷ close a ∷ []
  left waited = close b ∷ close a ∷ []
  left closed_last = close a ∷ []
  left closed_both = []

  -- What is closed.
  abbrev pub closed_at : Phase → List Handle
  closed_at closed_last = b ∷ []
  closed_at closed_both = b ∷ a ∷ []
  closed_at _ = []

  pub record At (phase : Phase) (s : Copies) : Type 0 where
    pub todo : s.todo ≡ left phase
    pub counter : s.wait_group ≡ alive s.copy_forth + alive s.copy_back + owed phase
    pub forth_fits : Fits (stage forth phase) s.copy_forth
    pub back_fits : Fits (stage back phase) s.copy_back
    pub closed : s.closed ≡ closed_at phase
    pub quiet : All (λ late. late ≡ false) s.begun

Fits-ended : (st : Stage) (c : CopyState) → alive c ≡ 1 → Fits st c → Fits st ended
Fits-ended not_yet c one f = absurd (cc (one, ap alive f))
Fits-ended under_way c one f = λ e. absurd (cc (e))
Fits-ended over c one f = refl

Fits-copying : (st : Stage) (c : CopyState) → c ≡ started → Fits st c → Fits st copying
Fits-copying not_yet c e f = absurd (cc (e, f))
Fits-copying under_way c e f = λ e'. absurd (cc (e'))
Fits-copying over c e f = absurd (cc (e, f))

module _ {a b : Handle} {p : Phase} {s : Copies} (at : At a b p s) where
  pub finish-At : (d : Direction) → alive (state d s) ≡ 1 → At a b p (finish d s)
  unfolding finish
  finish-At forth one = record {
    todo = at.todo;
    counter = (let n = at.counter in omega arith);
    forth_fits = Fits-ended (stage forth p) s.copy_forth one at.forth_fits;
    back_fits = at.back_fits;
    closed = at.closed;
    quiet = at.quiet;
  }
  finish-At back one = record {
    todo = at.todo;
    counter = (let n = at.counter in omega arith);
    forth_fits = at.forth_fits;
    back_fits = Fits-ended (stage back p) s.copy_back one at.back_fits;
    closed = at.closed;
    quiet = at.quiet;
  }

  pub copying-At :
      (d : Direction)
      → state d s ≡ started
      → s.done ≡ false
      → At a b p (set_state d copying (record s { begun = s.done ∷ s.begun }))
  copying-At forth e open_ = record {
    todo = at.todo;
    counter = (let n = at.counter in let one = ap alive e in omega arith);
    forth_fits = Fits-copying (stage forth p) s.copy_forth e at.forth_fits;
    back_fits = at.back_fits;
    closed = at.closed;
    quiet = (open_, at.quiet);
  }
  copying-At back e open_ = record {
    todo = at.todo;
    counter = (let n = at.counter in let one = ap alive e in omega arith);
    forth_fits = at.forth_fits;
    back_fits = Fits-copying (stage back p) s.copy_back e at.back_fits;
    closed = at.closed;
    quiet = (open_, at.quiet);
  }

  pub copy_con-At : (d : Direction) → state d s ≡ started → At a b p (copy_con d s)
  unfolding copy_con
  copy_con-At d e = elim (Bool-cases s.done) [
    | inl done ↦ subst (λ t. At a b p t) (sym (rw done refl)) (finish-At d (ap alive e))
    | inr open_ ↦ subst (λ t. At a b p t) (sym (rw open_ refl)) (copying-At d e open_)
  ]

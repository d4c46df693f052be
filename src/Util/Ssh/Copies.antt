-- ===== src/Util/Ssh/Copies.antt =====
-- `doForward` and `doRemoteForward` of pkg/util/ssh.go, with the goroutine of the accept loop that
-- calls them: two copies side by side, and the deferred closes behind them.
pub mod Calls
pub mod Count
pub mod Drain
pub mod Runs
use k8s_ext_connector.Prelude.{
  ℕ, ◌+◌, ◌-◌, Bool, true, Option, none, some, List, [], ◌∷◌, ◌++◌, ◌≡◌, nat_eq, if◌then◌else◌,
}
use k8s_ext_connector.Util.Ssh.{Handle}

-- Where a `copyCon` stands: not started, before its `select`, in `io.Copy`, behind `wg.Done()`.
pub data CopyState : Type 0 where
  absent started copying ended : CopyState

pub data Direction : Type 0 where
  forth back : Direction

-- What the goroutine calls: `wg.Add(1)`, `go copyCon(…)`, `wg.Wait()`, and a deferred `Close()`.
pub data Action : Type 0 where
  add wait : Action
  go : Direction → Action
  close : Handle → Action

-- Whether the tunnel's context is done, the two copies, the counter of the `WaitGroup`, what the
-- goroutine has still to do, the connections closed so far, and for each `io.Copy` that was begun
-- whether the context was done at the `select` before it.
pub record Copies : Type 0 where
  pub done : Bool
  pub copy_forth : CopyState
  pub copy_back : CopyState
  pub wait_group : ℕ
  pub todo : List Action
  pub closed : List Handle
  pub begun : List Bool

abbrev pub state : Direction → Copies → CopyState
state forth s = s.copy_forth
state back s = s.copy_back

abbrev pub set_state : Direction → CopyState → Copies → Copies
set_state forth c s = record s { copy_forth = c }
set_state back c s = record s { copy_back = c }

-- The deferred `wg.Done()`, with which a `copyCon` returns.
unfoldable pub finish : Direction → Copies → Copies
finish d s = set_state d ended (record s { wait_group = s.wait_group - 1 })

-- The `select` of `copyCon`: `default` is taken unless the context is done.
unfoldable pub copy_con : Direction → Copies → Copies
unfolding finish
copy_con d s =
    if s.done then finish d s else set_state d copying (record s { begun = s.done ∷ s.begun })

unfoldable pub do_forward : List Action
do_forward = add ∷ go forth ∷ add ∷ go back ∷ wait ∷ []

-- `Forward` defers the close of the local connection and then that of the remote one, and
-- `RemoteForward` the other way round; the last one deferred runs first.
unfoldable pub close_order : Handle → Handle → List Action
close_order deferred_first deferred_last = close deferred_last ∷ close deferred_first ∷ []

-- The goroutine as the accept loop starts it.
unfoldable pub goroutine : Bool → Handle → Handle → Copies
unfolding do_forward close_order
goroutine done deferred_first deferred_last = record {
  done = done;
  copy_forth = absent;
  copy_back = absent;
  wait_group = 0;
  todo = do_forward ++ close_order deferred_first deferred_last;
  closed = [];
  begun = [];
}

-- A call of the goroutine; `none` where it blocks. `wg.Wait()` blocks unless the counter is 0.
unfoldable pub act : Action → Copies → Option Copies
act add s = some (record s { wait_group = s.wait_group + 1 })
act (go d) s = some (set_state d started s)
act wait s = if nat_eq s.wait_group 0 then some s else none
act (close h) s = some (record s { closed = s.closed ++ h ∷ [] })

-- The next call.
unfoldable pub go_on : List Action → Copies → Option Copies
unfolding act
go_on [] s = none
go_on (action ∷ actions) s = act action (record s { todo = actions })

-- A step of the goroutine, of a copy, or of whoever calls `Cancel()`. A copy ends when `io.Copy`
-- returns, whenever that is.
pub data Step (s : Copies) : Copies → Type 0 where
  goes_on : {t : Copies} → go_on s.todo s ≡ some t → Step s t
  selects : (d : Direction) → state d s ≡ started → Step s (copy_con d s)
  ends : (d : Direction) → state d s ≡ copying → Step s (finish d s)
  cancels : Step s (record s { done = true })

pub data Reach (s : Copies) : Copies → Type 0 where
  here : Reach s s
  next : {t u : Copies} → Reach s t → Step t u → Reach s u

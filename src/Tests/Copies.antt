-- ===== src/Tests/Copies.antt =====
-- A tunnel that is cancelled while one direction is copied, and that is closed then.
use k8s_ext_connector.Prelude.{true, false, [], ◌∷◌, ◌≡◌, refl}
use k8s_ext_connector.Util.Ssh.Copies.{
  forth, back, add, wait, go, close, absent, copying, ended, Copies, finish, do_forward,
  close_order, copy_con, goroutine, act, go_on, goes_on, selects, ends, cancels, Reach, here, next,
}
use k8s_ext_connector.Util.Ssh.Copies.Drain.{IsDraining, do_forward-IsDraining}

-- The first copy runs when the tunnel is cancelled.
abbrev copies_on : Copies
copies_on = record {
  done = true;
  copy_forth = copying;
  copy_back = absent;
  wait_group = 1;
  todo = add ∷ go back ∷ wait ∷ close 4 ∷ close 3 ∷ [];
  closed = [];
  begun = false ∷ [];
}

-- The second copy returns at once, the first one ends,
-- and the goroutine closes one of the two connections.
abbrev half_closed : Copies
half_closed = record {
  done = true;
  copy_forth = ended;
  copy_back = ended;
  wait_group = 0;
  todo = close 3 ∷ [];
  closed = 4 ∷ [];
  begun = false ∷ [];
}

cancelled : Reach (goroutine false 3 4) copies_on
unfolding goroutine do_forward close_order go_on act copy_con
cancelled =
    next (next (next (next here (goes_on refl)) (goes_on refl)) (selects forth refl)) cancels

run : Reach (goroutine false 3 4) half_closed
unfolding go_on act copy_con finish
run =
    next
      (next
        (next (next (next (next cancelled (goes_on refl)) (goes_on refl)) (selects back refl))
          (ends forth refl))
        (goes_on refl))
      (goes_on refl)

do_forward-IsDraining_example :
    IsDraining (4 ∷ 3 ∷ []) half_closed
    × ((t : Copies) × Reach half_closed t × (t.closed ≡ 4 ∷ 3 ∷ []))
do_forward-IsDraining_example = do_forward-IsDraining false 3 4 half_closed run

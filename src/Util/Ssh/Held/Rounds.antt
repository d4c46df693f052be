-- ===== src/Util/Ssh/Held/Rounds.antt =====
-- What a round of the accept loops of pkg/util/ssh.go holds open.
use k8s_ext_connector.Prelude.{
  Text, some, ℕ, zero, suc, ◌+◌, Bool, true, false, arith, if◌then◌else◌,
}
use k8s_ext_connector.Exec.{Result, ok, err}
use k8s_ext_connector.Forwarder.Tunnels.{Tunnel}
use k8s_ext_connector.Util.Ssh.{
  Handle, TcpAddr, Net, Running, serve_local, serve_remote, forward_loop, remote_forward_loop,
}
use k8s_ext_connector.Util.Ssh.Held.{is_given, Opens, IsCounted, Holds}

module _ {W : Type 0} (net : Net W) (h : Handle) (opened released : W → ℕ)
    (counted : IsCounted net h opened released) where
  -- A connection that was accepted is joined with the one that was dialed for it, or closed.
  joined-Holds :
      (a : Handle) (r : Result Handle) (w w₀ : W)
      → Holds net h opened released (is_given h (ok a) + is_given h r) w₀ w
      → Holds net h opened released 0 w₀
          (elim r as (λ _. Result (Unit {0}) × W) [
            | ok b ↦ (ok tt, net.copy_both a b w)
            | err e ↦ (err e, net.close a w)
          ]).1
  joined-Holds a (ok b) w w₀ held = let (o, r) = counted.copies a b w in omega arith
  joined-Holds a (err e) w w₀ held = let (o, r) = counted.closes a w in omega arith

  -- A handle that a call gave is held besides.
  pub Opens-Holds :
      (call : W → Result Handle × W) (n : ℕ) (w₀ w : W)
      → Opens net h opened released call
      → Holds net h opened released n w₀ w
      → Holds net h opened released (n + is_given h (call w).0) w₀ (call w).1
  Opens-Holds call n w₀ w opens held = let (o, r) = opens w in omega arith

  serve_local-Holds :
      (cli : Handle) (laddr raddr : TcpAddr) (r : Result Handle) (w w₀ : W)
      → Holds net h opened released (is_given h r) w₀ w
      → Holds net h opened released 0 w₀ (serve_local net cli laddr raddr (r, w)).1
  unfolding serve_local
  serve_local-Holds cli laddr raddr (err e) w w₀ held = held
  serve_local-Holds cli laddr raddr (ok l_con) w w₀ held =
      joined-Holds l_con _ _ w₀
        (Opens-Holds _ (is_given h (ok l_con)) w₀ w (counted.connects_there cli laddr raddr) held)

  serve_remote-Holds :
      (t : Tunnel) (r : Result Handle) (w w₀ : W)
      → Holds net h opened released (is_given h r) w₀ w
      → Holds net h opened released 0 w₀ (serve_remote net t (r, w)).1
  unfolding serve_remote
  serve_remote-Holds t (err e) w w₀ held = held
  serve_remote-Holds t (ok r_con) w w₀ held =
      joined-Holds r_con _ _ w₀
        (Opens-Holds _ (is_given h (ok r_con)) w₀ w (counted.connects t.local_endpoint) held)

  then-Holds :
      (n : ℕ) (w₀ w w₁ : W)
      → Holds net h opened released n w₀ w
      → Holds net h opened released 0 w w₁
      → Holds net h opened released n w₀ w₁
  then-Holds n w₀ w w₁ before after = omega arith

  is_done-Holds : (w : W) → Holds net h opened released 0 w (net.is_done w).1
  is_done-Holds w = let (o, r) = counted.looks w in omega arith

  pub dialed-Holds :
      (addr : Text) (w : W)
      → Holds net h opened released (is_given h (net.ssh_dial addr w).0) w (net.ssh_dial addr w).1
  dialed-Holds addr w = let (o, r) = counted.dials addr w in omega arith

  accept-Holds :
      (lnr : Handle) (w : W)
      → Holds net h opened released (is_given h (net.accept lnr w).0) w (net.accept lnr w).1
  accept-Holds lnr w = let (o, r) = counted.accepts lnr w in omega arith

  -- A round goes on, with the connections joined or the context done, or ends the call.
  round-Holds :
      (n : ℕ) (w₀ : W) (done : Bool) (spin : Running net) (served : Result (Unit {0})) (w₂ : W)
      (next : Running net)
      → Holds net h opened released n w₀ spin.1
      → Holds net h opened released n w₀ w₂
      → Holds net h opened released n w₀ next.1
      → Holds net h opened released n w₀
          (if done
            then spin
            else (elim served as (λ _. Running net) [ ok _ ↦ next | err e ↦ (some (err e), w₂) ])).1
  round-Holds n w₀ true spin served w₂ next spun ended went = spun
  round-Holds n w₀ false spin (ok _) w₂ next spun ended went = went
  round-Holds n w₀ false spin (err e) w₂ next spun ended went = ended

  -- However many rounds it makes, the loop of `Forward` holds no connection besides.
  pub forward_loop-Holds :
      (rounds : ℕ) (cli lnr : Handle) (laddr raddr : TcpAddr) (n : ℕ) (w₀ w : W)
      → Holds net h opened released n w₀ w
      → Holds net h opened released n w₀ (forward_loop net rounds cli lnr laddr raddr w).1
  unfolding forward_loop
  forward_loop-Holds zero cli lnr laddr raddr n w₀ w held = held
  forward_loop-Holds (suc rounds) cli lnr laddr raddr n w₀ w held =
      let w₁ = (net.is_done w).1 in
      let looked = then-Holds n w₀ w w₁ held (is_done-Holds w) in
      let served = then-Holds n w₀ w₁ _ looked (
        serve_local-Holds cli laddr raddr (net.accept lnr w₁).0 (net.accept lnr w₁).1 w₁
          (accept-Holds lnr w₁)) in
      let round = serve_local net cli laddr raddr (net.accept lnr w₁) in
      round-Holds n w₀ (net.is_done w).0 _ round.0 round.1
        (forward_loop net rounds cli lnr laddr raddr round.1)
        (forward_loop-Holds rounds cli lnr laddr raddr n w₀ w₁ looked) served
        (forward_loop-Holds rounds cli lnr laddr raddr n w₀ round.1 served)

  -- However many rounds it makes, the loop of `RemoteForward` holds no connection besides.
  pub remote_forward_loop-Holds :
      (rounds : ℕ) (t : Tunnel) (lnr : Handle) (n : ℕ) (w₀ w : W)
      → Holds net h opened released n w₀ w
      → Holds net h opened released n w₀ (remote_forward_loop net rounds t lnr w).1
  unfolding remote_forward_loop
  remote_forward_loop-Holds zero t lnr n w₀ w held = held
  remote_forward_loop-Holds (suc rounds) t lnr n w₀ w held =
      let w₁ = (net.is_done w).1 in
      let looked = then-Holds n w₀ w w₁ held (is_done-Holds w) in
      let served = then-Holds n w₀ w₁ _ looked (
        serve_remote-Holds t (net.accept lnr w₁).0 (net.accept lnr w₁).1 w₁
          (accept-Holds lnr w₁)) in
      let round = serve_remote net t (net.accept lnr w₁) in
      round-Holds n w₀ (net.is_done w).0 _ round.0 round.1
        (remote_forward_loop net rounds t lnr round.1)
        (remote_forward_loop-Holds rounds t lnr n w₀ w₁ looked) served
        (remote_forward_loop-Holds rounds t lnr n w₀ round.1 served)

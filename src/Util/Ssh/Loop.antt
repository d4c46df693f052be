-- ===== src/Util/Ssh/Loop.antt =====
-- When `Forward` and `RemoteForward` of pkg/util/ssh.go return.
use k8s_ext_connector.Prelude.{
  Text, Option, List, ℕ, zero, suc, true, none, some, ◌≡◌, ◌≢◌, refl, arith,
}
use k8s_ext_connector.Exec.{Result, ok, err}
use k8s_ext_connector.Forwarder.Tunnels.{Tunnel}
use k8s_ext_connector.Util.Ssh.{
  Handle, TcpAddr, Net, Running, defer_close, serve_local, forward_loop, forward,
  remote_forward_loop, forward_addrs, forward_listen, forward_dialed,
}

module _ {W : Type 0} (net : Net W) where
  forward_loop-ne-nil :
      (rounds : ℕ) (cli lnr : Handle) (laddr raddr : TcpAddr) (w : W)
      → (forward_loop net rounds cli lnr laddr raddr w).0 ≢ some (ok tt)
  unfolding forward_loop
  forward_loop-ne-nil zero cli lnr laddr raddr w = λ h. cc h
  forward_loop-ne-nil (suc rounds) cli lnr laddr raddr w =
      let w₁ = (net.is_done w).1 in
      ground (
        arith,
        forward_loop-ne-nil rounds cli lnr laddr raddr w₁,
        forward_loop-ne-nil rounds cli lnr laddr raddr
            (serve_local net cli laddr raddr (net.accept lnr w₁)).1,
      )

  -- A deferred close leaves the outcome as it is.
  defer_close-ne-nil :
      (h : Handle) (r : Running net) → r.0 ≢ some (ok tt) → (defer_close net h r).0 ≢ some (ok tt)
  defer_close-ne-nil h (none, w) e = e
  defer_close-ne-nil h (some r, w) e = e

  -- Where a context that is done stays done, the loops go on.
  module _ (IsCancelled : W → Type 0)
      (stays : (w : W)
        → IsCancelled w
        → ((net.is_done w).0 ≡ true) × IsCancelled (net.is_done w).1) where
    forward_loop-none :
        (rounds : ℕ) (cli lnr : Handle) (laddr raddr : TcpAddr) (w : W)
        → IsCancelled w
        → (forward_loop net rounds cli lnr laddr raddr w).0 ≡ none
    unfolding forward_loop
    forward_loop-none zero cli lnr laddr raddr w h = refl
    forward_loop-none (suc rounds) cli lnr laddr raddr w h =
        let (done, still) = stays w h in
        rw done (forward_loop-none rounds cli lnr laddr raddr (net.is_done w).1 still)

    remote_forward_loop-none :
        (rounds : ℕ) (t : Tunnel) (lnr : Handle) (w : W)
        → IsCancelled w
        → (remote_forward_loop net rounds t lnr w).0 ≡ none
    unfolding remote_forward_loop
    remote_forward_loop-none zero t lnr w h = refl
    remote_forward_loop-none (suc rounds) t lnr w h =
        let (done, still) = stays w h in
        rw done (remote_forward_loop-none rounds t lnr (net.is_done w).1 still)

  -- Once the tunnel's context is done for good, which `Cancel()` brings about, neither the loop of
  -- `Forward` nor that of `RemoteForward` returns after any number of rounds, so their listeners are
  -- not closed.
  pub forward_loop_cancelled :
      (IsCancelled : W → Type 0)
      → ((w : W) → IsCancelled w → ((net.is_done w).0 ≡ true) × IsCancelled (net.is_done w).1)
      → (rounds : ℕ) (t : Tunnel) (cli lnr : Handle) (laddr raddr : TcpAddr) (w : W) → IsCancelled w
      → ((forward_loop net rounds cli lnr laddr raddr w).0 ≡ none)
        × ((remote_forward_loop net rounds t lnr w).0 ≡ none)
  forward_loop_cancelled P stays rounds t cli lnr laddr raddr w h = (
    forward_loop-none P stays rounds cli lnr laddr raddr w h,
    remote_forward_loop-none P stays rounds t lnr w h,
  )

module _ {W : Type 0} (net : Net W) (parse_ipv6 : Text → Option (List ℕ)) where
  forward_addrs-ne-nil :
      (rounds : ℕ) (t : Tunnel) (cli lnr : Handle) (w : W)
      → (forward_addrs net parse_ipv6 rounds t cli lnr w).0 ≢ some (ok tt)
  unfolding forward_addrs
  forward_addrs-ne-nil rounds t cli lnr w = grind (arith, forward_loop-ne-nil net)

  forward_listen-ne-nil :
      (rounds : ℕ) (t : Tunnel) (cli : Handle) (r : Result Handle × W)
      → (forward_listen net parse_ipv6 rounds t cli r).0 ≢ some (ok tt)
  unfolding forward_listen
  forward_listen-ne-nil rounds t cli (err e, w) = λ h. cc h
  forward_listen-ne-nil rounds t cli (ok lnr, w) =
      defer_close-ne-nil net lnr _ (forward_addrs-ne-nil rounds t cli lnr w)

  forward_dialed-ne-nil :
      (rounds : ℕ) (t : Tunnel) (r : Result Handle × W)
      → (forward_dialed net parse_ipv6 rounds t r).0 ≢ some (ok tt)
  unfolding forward_dialed
  forward_dialed-ne-nil rounds t (err e, w) = λ h. cc h
  forward_dialed-ne-nil rounds t (ok cli, w) =
      defer_close-ne-nil net cli _
        (forward_listen-ne-nil rounds t cli (net.listen t.local_endpoint w))

  -- `Forward` never returns nil, however many rounds its loop makes: it ends with an error, or it
  -- goes on.
  pub forward-ne-nil :
      (rounds : ℕ) (t : Tunnel) (w : W) → (forward net parse_ipv6 rounds t w).0 ≢ some (ok tt)
  unfolding forward
  forward-ne-nil rounds t w = forward_dialed-ne-nil rounds t (net.ssh_dial t.server_endpoint w)

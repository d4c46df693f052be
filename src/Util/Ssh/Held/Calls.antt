-- ===== src/Util/Ssh/Held/Calls.antt =====
-- What `Forward` and `RemoteForward` of pkg/util/ssh.go have closed when they return.
use k8s_ext_connector.Prelude.{Text, Option, some, none, List, ℕ, ◌+◌, true, false, arith, inl, inr}
use k8s_ext_connector.Exec.{Error, Result, ok, err, Result-cases}
use k8s_ext_connector.Forwarder.Tunnels.{Tunnel}
use k8s_ext_connector.Util.Ssh.{
  Handle, Net, Running, defer_close, to_tcp_addr, forward_addrs, forward_listen, forward_dialed,
  forward, remote_forward_listen, remote_forward_dialed, remote_forward,
}
use k8s_ext_connector.Util.Ssh.Held.{is_given, IsCounted, Holds, IsReleased}
use k8s_ext_connector.Util.Ssh.Held.Rounds.{
  Opens-Holds, dialed-Holds, forward_loop-Holds, remote_forward_loop-Holds,
}

module _ {W : Type 0} (net : Net W) (h : Handle) (opened released : W → ℕ)
    (counted : IsCounted net h opened released) where
  -- The deferred closes of the listener and of the client.
  listened-IsReleased :
      (cli lnr : Handle) (w₀ : W) (r : Running net)
      → Holds net h opened released (is_given h (ok cli) + is_given h (ok lnr)) w₀ r.1
      → IsReleased net h opened released w₀ (defer_close net cli (defer_close net lnr r))
  listened-IsReleased cli lnr w₀ (none, w) held = (cli, lnr, held)
  listened-IsReleased cli lnr w₀ (some r, w) held =
      let (o, c) = counted.closes lnr w in
      let (o', c') = counted.closes cli (net.close lnr w) in omega arith

  -- The deferred close of the client where no listener came.
  dialed-IsReleased :
      (cli : Handle) (w₀ w : W) (e : Error)
      → Holds net h opened released (is_given h (ok cli)) w₀ w
      → IsReleased net h opened released w₀ (defer_close net cli (some (err e), w))
  dialed-IsReleased cli w₀ w e held = let (o, c) = counted.closes cli w in omega arith

  remote_forward_listen-IsReleased :
      (rounds : ℕ) (t : Tunnel) (cli : Handle) (r : Result Handle) (w w₀ : W)
      → Holds net h opened released (is_given h (ok cli) + is_given h r) w₀ w
      → IsReleased net h opened released w₀
          (defer_close net cli (remote_forward_listen net rounds t (r, w)))
  unfolding remote_forward_listen
  remote_forward_listen-IsReleased rounds t cli (err e) w w₀ held =
      dialed-IsReleased cli w₀ w e (omega arith)
  remote_forward_listen-IsReleased rounds t cli (ok lnr) w w₀ held =
      listened-IsReleased cli lnr w₀ _
        (remote_forward_loop-Holds net h opened released counted rounds t lnr _ w₀ w held)

  remote_forward_dialed-IsReleased :
      (rounds : ℕ) (t : Tunnel) (r : Result Handle) (w w₀ : W)
      → Holds net h opened released (is_given h r) w₀ w
      → IsReleased net h opened released w₀ (remote_forward_dialed net rounds t (r, w))
  unfolding remote_forward_dialed
  remote_forward_dialed-IsReleased rounds t (err e) w w₀ held = held
  remote_forward_dialed-IsReleased rounds t (ok cli) w w₀ held =
      remote_forward_listen-IsReleased rounds t cli _ _ w₀ (
        Opens-Holds net h opened released counted _ (is_given h (ok cli)) w₀ w
          (counted.listens_there cli t.remote_endpoint) held)

  remote_forward-IsReleased :
      (rounds : ℕ) (t : Tunnel) (w : W)
      → IsReleased net h opened released w (remote_forward net rounds t w)
  unfolding remote_forward
  remote_forward-IsReleased rounds t w =
      remote_forward_dialed-IsReleased rounds t _ _ w
        (dialed-Holds net h opened released counted t.server_endpoint w)

  module _ (parse_ipv6 : Text → Option (List ℕ)) where
    forward_addrs-Holds :
        (rounds : ℕ) (t : Tunnel) (cli lnr : Handle) (n : ℕ) (w₀ w : W)
        → Holds net h opened released n w₀ w
        → Holds net h opened released n w₀ (forward_addrs net parse_ipv6 rounds t cli lnr w).1
    unfolding forward_addrs
    forward_addrs-Holds rounds t cli lnr n w₀ w held =
        elim (Result-cases (to_tcp_addr parse_ipv6 t.server_endpoint true)) [
          | inl (laddr, e) ↦ elim (Result-cases (to_tcp_addr parse_ipv6 t.remote_endpoint false)) [
            | inl (raddr, e') ↦
                rw (forward_addrs, e, e')
                  (forward_loop-Holds net h opened released counted rounds cli lnr laddr raddr n w₀
                    w held)
            | inr (x, e') ↦ rw (forward_addrs, e, e') held
          ]
          | inr (x, e) ↦ rw (forward_addrs, e) held
        ]

    forward_listen-IsReleased :
        (rounds : ℕ) (t : Tunnel) (cli : Handle) (r : Result Handle) (w w₀ : W)
        → Holds net h opened released (is_given h (ok cli) + is_given h r) w₀ w
        → IsReleased net h opened released w₀
            (defer_close net cli (forward_listen net parse_ipv6 rounds t cli (r, w)))
    unfolding forward_listen
    forward_listen-IsReleased rounds t cli (err e) w w₀ held =
        dialed-IsReleased cli w₀ w e (omega arith)
    forward_listen-IsReleased rounds t cli (ok lnr) w w₀ held =
        listened-IsReleased cli lnr w₀ _ (forward_addrs-Holds rounds t cli lnr _ w₀ w held)

    forward_dialed-IsReleased :
        (rounds : ℕ) (t : Tunnel) (r : Result Handle) (w w₀ : W)
        → Holds net h opened released (is_given h r) w₀ w
        → IsReleased net h opened released w₀ (forward_dialed net parse_ipv6 rounds t (r, w))
    unfolding forward_dialed
    forward_dialed-IsReleased rounds t (err e) w w₀ held = held
    forward_dialed-IsReleased rounds t (ok cli) w w₀ held =
        forward_listen-IsReleased rounds t cli _ _ w₀ (
          Opens-Holds net h opened released counted _ (is_given h (ok cli)) w₀ w
            (counted.listens t.local_endpoint) held)

    forward_call-IsReleased :
        (rounds : ℕ) (t : Tunnel) (w : W)
        → IsReleased net h opened released w (forward net parse_ipv6 rounds t w)
    unfolding forward
    forward_call-IsReleased rounds t w =
        forward_dialed-IsReleased rounds t _ _ w
          (dialed-Holds net h opened released counted t.server_endpoint w)

    -- For every handle: a `Forward` or a `RemoteForward` that returned has closed it, or given it to
    -- the goroutine that closes it, as often as it opened it; one that still runs holds no more than
    -- a client and a listener.
    pub forward-IsReleased :
        (rounds : ℕ) (t : Tunnel) (w : W)
        → IsReleased net h opened released w (forward net parse_ipv6 rounds t w)
          × IsReleased net h opened released w (remote_forward net rounds t w)
    forward-IsReleased rounds t w =
        (forward_call-IsReleased rounds t w, remote_forward-IsReleased rounds t w)

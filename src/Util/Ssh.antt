-- ===== src/Util/Ssh.antt =====
-- pkg/util/ssh.go: the accept loops of the tunnels, and the server's handler of forwarded
-- connections. The network and the ssh library act on a world `W`; a connection, a listener or a
-- client is a handle.
pub mod Loop
pub mod Addr
pub mod Egress
pub mod Held
pub mod Copies
use k8s_ext_connector.Prelude.{
  Text, ℕ, zero, suc, Bool, true, false, Option, none, some, List, if◌then◌else◌,
}
use k8s_ext_connector.Prelude.Int.{ℤ, pos}
use k8s_ext_connector.Exec.{Error, Result, ok, err, bind_result, Exec}
use k8s_ext_connector.Util.Ip.{parse_ip}
use k8s_ext_connector.Util.HostPort.{split_host_port, atoi}
use k8s_ext_connector.Forwarder.Tunnels.{Tunnel}

abbrev pub Handle : Type 0
Handle = ℕ

-- `net.TCPAddr`. There is no address where `net.ParseIP` reads none.
pub record TcpAddr : Type 0 where
  pub ip : Option (List ℕ)
  pub port : ℤ

-- What the loops call. `is_done` says whether the tunnel's context is done. `copy_both` starts the
-- goroutine that copies between two connections and closes them.
pub record Net (W : Type 0) : Type 0 where
  pub ssh_dial : Text → Exec W Handle
  pub listen : Text → Exec W Handle
  pub ssh_listen : Handle → Text → Exec W Handle
  pub accept : Handle → Exec W Handle
  pub dial : Text → Exec W Handle
  pub dial_tcp : Handle → TcpAddr → TcpAddr → Exec W Handle
  pub close : Handle → W → W
  pub copy_both : Handle → Handle → W → W
  pub is_done : W → Bool × W

unfoldable pub to_tcp_addr : (Text → Option (List ℕ)) → Text → Bool → Result TcpAddr
to_tcp_addr parse_ipv6 addr port_any = bind_result (split_host_port addr) λ (ip, port).
    if port_any
    then ok (record { ip = parse_ip parse_ipv6 ip ip; port = pos 0 })
    else bind_result (atoi port)
        λ int_port. ok (record { ip = parse_ip parse_ipv6 ip ip; port = int_port })

module _ {W : Type 0} (net : Net W) where
  -- The outcome of a call that may still be running: `none`, or the error that it returned.
  abbrev pub Running : Type 0
  Running = Option (Result (Unit {0})) × W

  -- One round of `Forward` that finds the context open: the connections are joined, or the call
  -- ends with an error.
  pub serve_local : Handle → TcpAddr → TcpAddr → Result Handle × W → Result (Unit {0}) × W
  serve_local cli laddr raddr (err e, w) = (err e, w)
  serve_local cli laddr raddr (ok l_con, w) = elim (net.dial_tcp cli laddr raddr w).0 [
    | ok r_con ↦ (ok tt, net.copy_both l_con r_con (net.dial_tcp cli laddr raddr w).1)
    | err e ↦ (err e, net.close l_con (net.dial_tcp cli laddr raddr w).1)
  ]

  -- The `for` loop of `Forward`, for a number of rounds. `break` leaves the `select` and not the
  -- loop, so a round that finds the context done goes on to the next.
  unfoldable pub forward_loop : ℕ → Handle → Handle → TcpAddr → TcpAddr → W → Running
  unfolding serve_local
  forward_loop zero cli lnr laddr raddr w = (none, w)
  forward_loop (suc rounds) cli lnr laddr raddr w =
      let (done, w₁) = net.is_done w in
      let spin = forward_loop rounds cli lnr laddr raddr w₁ in
      let (served, w₂) = serve_local cli laddr raddr (net.accept lnr w₁) in
      let next = forward_loop rounds cli lnr laddr raddr w₂ in
      if done then spin else elim served [ ok _ ↦ next | err e ↦ (some (err e), w₂) ]

  -- A deferred `Close()` runs when the call returns.
  abbrev pub defer_close : Handle → Running → Running
  defer_close h (none, w) = (none, w)
  defer_close h (some r, w) = (some r, net.close h w)

  pub serve_remote : Tunnel → Result Handle × W → Result (Unit {0}) × W
  serve_remote t (err e, w) = (err e, w)
  serve_remote t (ok r_con, w) = elim (net.dial t.local_endpoint w).0 [
    | ok l_con ↦ (ok tt, net.copy_both r_con l_con (net.dial t.local_endpoint w).1)
    | err e ↦ (err e, net.close r_con (net.dial t.local_endpoint w).1)
  ]

  unfoldable pub remote_forward_loop : ℕ → Tunnel → Handle → W → Running
  unfolding serve_remote
  remote_forward_loop zero t lnr w = (none, w)
  remote_forward_loop (suc rounds) t lnr w =
      let (done, w₁) = net.is_done w in
      let spin = remote_forward_loop rounds t lnr w₁ in
      let (served, w₂) = serve_remote t (net.accept lnr w₁) in
      let next = remote_forward_loop rounds t lnr w₂ in
      if done then spin else elim served [ ok _ ↦ next | err e ↦ (some (err e), w₂) ]

  remote_forward_listen : ℕ → Tunnel → Result Handle × W → Running
  unfolding remote_forward_loop
  remote_forward_listen rounds t (err e, w) = (some (err e), w)
  remote_forward_listen rounds t (ok lnr, w) = defer_close lnr (remote_forward_loop rounds t lnr w)

  remote_forward_dialed : ℕ → Tunnel → Result Handle × W → Running
  unfolding remote_forward_listen
  remote_forward_dialed rounds t (err e, w) = (some (err e), w)
  remote_forward_dialed rounds t (ok cli, w) =
      defer_close cli (remote_forward_listen rounds t (net.ssh_listen cli t.remote_endpoint w))

  unfoldable pub remote_forward : ℕ → Tunnel → W → Running
  unfolding remote_forward_dialed
  remote_forward rounds t w = remote_forward_dialed rounds t (net.ssh_dial t.server_endpoint w)

module _ {W : Type 0} (net : Net W) (parse_ipv6 : Text → Option (List ℕ)) where
  unfoldable pub forward_addrs : ℕ → Tunnel → Handle → Handle → W → Running net
  unfolding forward_loop
  forward_addrs rounds t cli lnr w = elim (to_tcp_addr parse_ipv6 t.server_endpoint true) [
    | err e ↦ (some (err e), w)
    | ok laddr ↦ elim (to_tcp_addr parse_ipv6 t.remote_endpoint false) [
      | err e ↦ (some (err e), w)
      | ok raddr ↦ forward_loop net rounds cli lnr laddr raddr w
    ]
  ]

  forward_listen : ℕ → Tunnel → Handle → Result Handle × W → Running net
  unfolding forward_addrs
  forward_listen rounds t cli (err e, w) = (some (err e), w)
  forward_listen rounds t cli (ok lnr, w) = defer_close net lnr (forward_addrs rounds t cli lnr w)

  forward_dialed : ℕ → Tunnel → Result Handle × W → Running net
  unfolding forward_listen
  forward_dialed rounds t (err e, w) = (some (err e), w)
  forward_dialed rounds t (ok cli, w) =
      defer_close net cli (forward_listen rounds t cli (net.listen t.local_endpoint w))

  unfoldable pub forward : ℕ → Tunnel → W → Running net
  unfolding forward_dialed
  forward rounds t w = forward_dialed rounds t (net.ssh_dial t.server_endpoint w)

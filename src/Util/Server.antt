-- ===== src/Util/Server.antt =====
-- The ssh server of pkg/util/ssh.go: its settings, its handler of direct-tcpip channels, and
-- `IsPortOpen`. The ssh library and the network answer by a state `E`, and what is done to
-- connections and channels is listed.
pub mod Direct
use k8s_ext_connector.Prelude.{
  Text, codes, ℕ, Bool, true, false, Option, none, some, List, [], ◌∷◌, if◌then◌else◌,
}
use k8s_ext_connector.Prelude.Int.{pos}
use k8s_ext_connector.Prelude.Dict.{Dict}
use k8s_ext_connector.Exec.{Error, Result, ok, err}
use k8s_ext_connector.Util.Decimal.{itoa}
use k8s_ext_connector.Util.HostPort.{join_host_port}
use k8s_ext_connector.Util.Ssh.{Handle, TcpAddr, to_tcp_addr}

-- The handlers that the server is given, by name.
pub data ChannelHandler : Type 0 where
  default_session_handler direct_tcpip_handler : ChannelHandler

pub data RequestHandler : Type 0 where
  handle_ssh_request : RequestHandler

-- `Server` of gliderlabs/ssh, with the fields that are set. A callback is nil or a function of the
-- host and the port.
pub record Server : Type 0 where
  pub addr : Text
  pub local_port_forwarding_callback : Option (Text → ℕ → Bool)
  pub reverse_port_forwarding_callback : Option (Text → ℕ → Bool)
  pub channel_handlers : Dict ChannelHandler
  pub request_handlers : Dict RequestHandler

-- Every forwarding is granted.
unfoldable pub new_ssh_server : Text → Server
new_ssh_server addr = record {
  addr = addr;
  local_port_forwarding_callback = some (λ dhost dport. true);
  reverse_port_forwarding_callback = some (λ host port. true);
  channel_handlers =
      (codes "session", default_session_handler)
      ∷ (codes "direct-tcpip", direct_tcpip_handler)
      ∷ [];
  request_handlers =
      (codes "tcpip-forward", handle_ssh_request)
      ∷ (codes "cancel-tcpip-forward", handle_ssh_request)
      ∷ [];
}

-- `localForwardChannelData`; the ports are of 32 bits.
pub record LocalForwardChannelData : Type 0 where
  pub dest_addr : Text
  pub dest_port : ℕ
  pub origin_addr : Text
  pub origin_port : ℕ

pub data RejectionReason : Type 0 where
  prohibited connection_failed : RejectionReason

-- What the handler does to the new channel, to a connection and in goroutines. `copy_both` starts
-- the two copies between a channel and a connection, which close both.
pub data Event : Type 0 where
  reject : RejectionReason → Event
  dial : TcpAddr → Text → Result Handle → Event
  accept : Result Handle → Event
  close : Handle → Event
  discard_requests : Event
  copy_both : Handle → Handle → Event

-- `ssh.Unmarshal(newChan.ExtraData())`, `DialContext` of a dialer with a local address, and
-- `newChan.Accept()`.
pub record Host (E : Type 0) : Type 0 where
  pub extra_data : Result LocalForwardChannelData
  pub dial_context : TcpAddr → Text → E → Result Handle × E
  pub accept_channel : E → Result Handle × E

-- `srv.LocalPortForwardingCallback == nil || !srv.LocalPortForwardingCallback(…)`, negated.
pub is_allowed : Option (Text → ℕ → Bool) → LocalForwardChannelData → Bool
is_allowed none d = false
is_allowed (some callback) d = callback d.dest_addr d.dest_port

module _ {E : Type 0} (host : Host E) (parse_ipv6 : Text → Option (List ℕ)) where
  -- The channel is accepted or the connection is closed.
  pub accept_direct : Handle → Result Handle × E → List Event × E
  accept_direct dconn (err x, e) = (accept (err x) ∷ close dconn ∷ [], e)
  accept_direct dconn (ok ch, e) = (accept (ok ch) ∷ discard_requests ∷ copy_both ch dconn ∷ [], e)

  -- The answer of the dial.
  pub dialed_direct : TcpAddr → Text → Result Handle × E → List Event × E
  unfolding accept_direct
  dialed_direct laddr dest (err x, e) = (dial laddr dest (err x) ∷ reject connection_failed ∷ [], e)
  dialed_direct laddr dest (ok dconn, e) =
      let (events, e₁) = accept_direct dconn (host.accept_channel e) in
      (dial laddr dest (ok dconn) ∷ events, e₁)

  pub from_origin : Text → Result TcpAddr → E → List Event × E
  unfolding dialed_direct
  from_origin dest (err x) e = (reject prohibited ∷ [], e)
  from_origin dest (ok laddr) e = dialed_direct laddr dest (host.dial_context laddr dest e)

  pub handle_data : Server → Result LocalForwardChannelData → E → List Event × E
  unfolding from_origin is_allowed
  handle_data srv (err x) e = (reject connection_failed ∷ [], e)
  handle_data srv (ok d) e =
      if is_allowed srv.local_port_forwarding_callback d
      then from_origin (join_host_port d.dest_addr (itoa (pos d.dest_port)))
          (to_tcp_addr parse_ipv6 (join_host_port d.origin_addr (itoa (pos d.origin_port))) false) e
      else (reject prohibited ∷ [], e)

  -- `DirectTCPIPHandler`
  unfoldable pub handle_direct_tcpip : Server → E → List Event × E
  unfolding handle_data
  handle_direct_tcpip srv e = handle_data srv host.extra_data e

-- `net.DialTimeout` answers with an error, or with a connection that may be nil.
pub opened : {W : Type 0} → (Handle → W → W) → Result (Option Handle) × W → Bool × W
opened hang_up (err x, w) = (false, w)
opened hang_up (ok none, w) = (false, w)
opened hang_up (ok (some conn), w) = (true, hang_up conn w)

unfoldable pub is_port_open :
    {W : Type 0}
    → (Text → W → Result (Option Handle) × W)
    → (Handle → W → W)
    → Text
    → Text
    → W
    → Bool × W
unfolding opened
is_port_open dial_timeout hang_up ip port w =
    opened hang_up (dial_timeout (join_host_port ip port) w)

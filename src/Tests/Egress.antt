-- ===== src/Tests/Egress.antt =====
-- The tunnel of an egress rule, over a network on which every call succeeds.
use k8s_ext_connector.Prelude.{codes, ℕ, ◌+◌, [], ◌≡◌, refl, arith, In, All, false}
use k8s_ext_connector.Prelude.Int.{pos}
use k8s_ext_connector.Exec.{ok}
use k8s_ext_connector.Api.{ForwarderRule}
use k8s_ext_connector.Util.Decimal.{itoa}
use k8s_ext_connector.Util.HostPort.{contains}
use k8s_ext_connector.Forwarder.Rules.{egress_key, ssh_port}
use k8s_ext_connector.Forwarder.Tunnels.{Tunnel, endpoint, to_tunnel, split}
use k8s_ext_connector.Util.Ssh.{Net, forward}
use k8s_ext_connector.Util.Ssh.Egress.{
  logged, meant_calls, IsPlainHost, Lacks-LacksColon, forward-egress_key,
}
use k8s_ext_connector.Tests.Syncs.{no_ipv6}
use k8s_ext_connector.Tests.Ports.{rule}

-- A call answers with a new handle.
abbrev working : Net ℕ
working = record {
  ssh_dial = λ s w. (ok w, w + 1);
  listen = λ s w. (ok w, w + 1);
  ssh_listen = λ cli s w. (ok w, w + 1);
  accept = λ lnr w. (ok w, w + 1);
  dial = λ s w. (ok w, w + 1);
  dial_tcp = λ cli l r w. (ok w, w + 1);
  close = λ h w. w;
  copy_both = λ a b w. w;
  is_done = λ w. (false, w);
}

abbrev egress : ForwarderRule
egress = record rule {
  destination_ip = codes "192.168.122.139";
  destination_port = itoa (pos 8000);
  gateway_ip = codes "192.168.122.200";
  relay_port = codes "2049";
}

abbrev tunnel : Tunnel
tunnel = record {
  local_endpoint = endpoint (codes "10.0.0.9") (codes "2049");
  server_endpoint = endpoint (codes "192.168.122.200") ssh_port;
  remote_endpoint = endpoint (codes "192.168.122.139") (itoa (pos 8000));
}

tunnel_read : to_tunnel (egress_key (codes "10.0.0.9") egress) ≡ ok tunnel
unfolding to_tunnel egress_key split ssh_port itoa
tunnel_read = refl

gateway-IsPlainHost : IsPlainHost egress.gateway_ip
unfolding contains
gateway-IsPlainHost = (Lacks-LacksColon egress.gateway_ip refl, refl, refl)

destination-IsPlainHost : IsPlainHost egress.destination_ip
unfolding contains
destination-IsPlainHost = (Lacks-LacksColon egress.destination_ip refl, refl, refl)

forward-egress_key_example :
    All
      (λ c. In c (meant_calls no_ipv6 (codes "10.0.0.9") egress 8000))
      (forward (logged working) no_ipv6 5 tunnel (1, [])).1.1
unfolding contains
forward-egress_key_example =
    forward-egress_key working no_ipv6 5 (codes "10.0.0.9") egress 8000 tunnel 1
      (Lacks-LacksColon (codes "10.0.0.9") refl) (Lacks-LacksColon egress.relay_port refl)
      gateway-IsPlainHost destination-IsPlainHost (refl, omega arith) tunnel_read

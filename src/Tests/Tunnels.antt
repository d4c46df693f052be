-- ===== src/Tests/Tunnels.antt =====
-- Tunnels at concrete maps.
use k8s_ext_connector.Prelude.{codes, Bool, true, ◌≡◌, refl, List, [], ◌∷◌, ◌==◌, arith}
use k8s_ext_connector.Prelude.Dict.{Dict, lookup, insert, remove}
use k8s_ext_connector.Exec.{ok}
use k8s_ext_connector.Forwarder.Rules.{
  tunnel_key, get_expected_ssh_tunnel, get_expected_remote_ssh_tunnel,
}
use k8s_ext_connector.Forwarder.Rules.Total.{update_tunnels-get_expected}
use k8s_ext_connector.Forwarder.Tunnels.{
  Tunnel, TunnelEvent, cancel, forward_nb, endpoint, to_tunnel, update_tunnels, all_running,
}
use k8s_ext_connector.Forwarder.Tunnels.Split.{to_tunnel-tunnel_key}
use k8s_ext_connector.Forwarder.Tunnels.Update.{
  tunnel_of, lookup-update_tunnels, all_running-update_tunnels,
}
use k8s_ext_connector.Tests.Ports.{forwarder}

to_tunnel-tunnel_key_example :
    to_tunnel (
      tunnel_key
        (codes "10.0.0.2")
        (codes "2049")
        (codes "192.168.122.201")
        (codes "2022")
        (codes "192.168.122.140")
        (codes "8000"))
    ≡ ok (record {
      local_endpoint = endpoint (codes "10.0.0.2") (codes "2049");
      server_endpoint = endpoint (codes "192.168.122.201") (codes "2022");
      remote_endpoint = endpoint (codes "192.168.122.140") (codes "8000");
    })
to_tunnel-tunnel_key_example =
    to_tunnel-tunnel_key (codes "10.0.0.2") (codes "2049") (codes "192.168.122.201") (codes "2022")
      (codes "192.168.122.140") (codes "8000") (omega arith) (omega arith) (omega arith)
      (omega arith) (omega arith) (omega arith)

abbrev pub tunnel : Tunnel
tunnel = record {
  local_endpoint = codes "a:1";
  server_endpoint = codes "b:2";
  remote_endpoint = codes "c:3";
}

abbrev wanted : Dict Bool
wanted = (codes "a:1:b:2:c:3", true) ∷ []

abbrev old_tunnels : Dict Tunnel
old_tunnels = (codes "old", tunnel) ∷ []

abbrev new_tunnels : Dict Tunnel
new_tunnels = (codes "a:1:b:2:c:3", tunnel) ∷ []

replaced :
    update_tunnels forward_nb wanted old_tunnels
    ≡ ok (new_tunnels, cancel tunnel ∷ forward_nb tunnel ∷ [])
unfolding update_tunnels to_tunnel lookup insert remove ◌==◌
replaced = refl

lookup-update_tunnels_example :
    lookup (codes "a:1:b:2:c:3") new_tunnels ≡ tunnel_of (codes "a:1:b:2:c:3")
unfolding lookup ◌==◌
lookup-update_tunnels_example =
    lookup-update_tunnels forward_nb wanted old_tunnels new_tunnels
      (cancel tunnel ∷ forward_nb tunnel ∷ []) replaced (codes "a:1:b:2:c:3")

all_running-update_tunnels_example : all_running new_tunnels wanted ≡ true
all_running-update_tunnels_example =
    all_running-update_tunnels forward_nb wanted old_tunnels new_tunnels
      (cancel tunnel ∷ forward_nb tunnel ∷ []) replaced

update_tunnels-get_expected_example :
    ((r : Dict Tunnel × List TunnelEvent) × (update_tunnels forward_nb
          (get_expected_ssh_tunnel forwarder)
          old_tunnels
        ≡ ok r))
    × ((r : Dict Tunnel × List TunnelEvent) × (update_tunnels forward_nb
            (get_expected_remote_ssh_tunnel forwarder)
            old_tunnels
          ≡ ok r))
update_tunnels-get_expected_example = update_tunnels-get_expected forwarder forward_nb old_tunnels

-- ===== src/Tests/Loops.antt =====
-- A network in which the context is done from the start.
use k8s_ext_connector.Prelude.{Text, ℕ, Option, List, true, ◌≡◌, refl, none}
use k8s_ext_connector.Prelude.Int.{pos}
use k8s_ext_connector.Exec.{ok, err, not_found}
use k8s_ext_connector.Util.Ssh.{TcpAddr, Net, forward_loop, remote_forward_loop}
use k8s_ext_connector.Util.Ssh.Loop.{forward_loop_cancelled}
use k8s_ext_connector.Tests.Tunnels.{tunnel}

abbrev cancelled : Net (Unit {0})
cancelled = record {
  ssh_dial = λ s w. (ok 1, w);
  listen = λ s w. (ok 2, w);
  ssh_listen = λ cli s w. (ok 2, w);
  accept = λ lnr w. (err not_found, w);
  dial = λ s w. (ok 3, w);
  dial_tcp = λ cli l r w. (ok 4, w);
  close = λ h w. w;
  copy_both = λ a b w. w;
  is_done = λ w. (true, w);
}

abbrev no_ipv6 : Text → Option (List ℕ)
no_ipv6 _ = none

abbrev addr : TcpAddr
addr = record { ip = none; port = pos 0 }

forward_loop_cancelled_example :
    ((forward_loop cancelled 9 1 2 addr addr tt).0 ≡ none)
    × ((remote_forward_loop cancelled 9 tunnel 2 tt).0 ≡ none)
forward_loop_cancelled_example =
    forward_loop_cancelled cancelled (λ w. Unit {0}) (λ w h. (refl, tt)) 9 tunnel 1 2 addr addr tt
      tt

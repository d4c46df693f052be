-- ===== src/Tests/Server.antt =====
-- Addresses, a direct-tcpip channel, and tunnels over a network that counts.
use k8s_ext_connector.Prelude.{
  Text, codes, ℕ, zero, suc, ◌+◌, Option, none, List, false, ◌≡◌, refl, arith,
}
use k8s_ext_connector.Prelude.Int.{pos}
use k8s_ext_connector.Exec.{Result, ok, err, not_found}
use k8s_ext_connector.Util.Decimal.{itoa}
use k8s_ext_connector.Util.HostPort.{contains, join_host_port}
use k8s_ext_connector.Util.Ip.{parse_ip}
use k8s_ext_connector.Util.Ssh.{Net, to_tcp_addr, forward, remote_forward}
use k8s_ext_connector.Util.Ssh.Addr.{to_tcp_addr-join_host_port}
use k8s_ext_connector.Util.Ssh.Held.{is_given, IsCounted, IsReleased}
use k8s_ext_connector.Util.Ssh.Held.Calls.{forward-IsReleased}
use k8s_ext_connector.Util.Server.{Host, new_ssh_server, handle_direct_tcpip}
use k8s_ext_connector.Util.Server.Direct.{IsOrderly, handle_direct_tcpip-IsOrderly}
use k8s_ext_connector.Tests.Tunnels.{tunnel}

abbrev no_ipv6 : Text → Option (List ℕ)
no_ipv6 _ = none

-- A host name is no IP address, and still no error.
to_tcp_addr-join_host_port_example :
    to_tcp_addr no_ipv6 (join_host_port (codes "node1") (itoa (pos 8000))) false
    ≡ ok (record { ip = parse_ip no_ipv6 (codes "node1") (codes "node1"); port = pos 8000 })
unfolding contains
to_tcp_addr-join_host_port_example =
    to_tcp_addr-join_host_port no_ipv6 (codes "node1") 8000 false refl refl (omega arith)

-- A client that asks for a destination, from a host that opens it and accepts the channel.
abbrev host : Host ℕ
host = record {
  extra_data = ok (record {
    dest_addr = codes "192.168.122.139";
    dest_port = 8000;
    origin_addr = codes "192.168.122.200";
    origin_port = 0;
  });
  dial_context = λ laddr dest e. (ok e, e + 1);
  accept_channel = λ e. (ok e, e + 1);
}

handle_direct_tcpip-IsOrderly_example :
    IsOrderly host no_ipv6
      (new_ssh_server (codes "192.168.122.200:2022"))
      (handle_direct_tcpip host no_ipv6 (new_ssh_server (codes "192.168.122.200:2022")) 5).0
handle_direct_tcpip-IsOrderly_example =
    handle_direct_tcpip-IsOrderly host no_ipv6 (new_ssh_server (codes "192.168.122.200:2022")) 5

-- A network that counts the openings and the releases of the connection 4. Two connections are
-- accepted before it fails.
record Counted : Type 0 where
  opened : ℕ
  released : ℕ
  waiting : ℕ

abbrev give : ℕ → Counted → Result ℕ × Counted
give h w = (ok h, record w { opened = w.opened + is_given 4 (ok h) })

abbrev release : ℕ → Counted → Counted
release h w = record w { released = w.released + is_given 4 (ok h) }

accept_next : ℕ → Counted → Result ℕ × Counted
accept_next zero w = (err not_found, w)
accept_next (suc n) w = give 4 (record w { waiting = n })

abbrev counting : Net Counted
counting = record {
  ssh_dial = λ addr. give 1;
  listen = λ addr. give 2;
  ssh_listen = λ cli addr. give 2;
  accept = λ lnr w. accept_next w.waiting w;
  dial = λ addr. give 3;
  dial_tcp = λ cli laddr raddr. give 3;
  close = release;
  copy_both = λ a b w. release b (release a w);
  is_done = λ w. (false, w);
}

accept_next-counts :
    (n : ℕ) (w : Counted)
    → ((accept_next n w).1.opened ≡ w.opened + is_given 4 (accept_next n w).0)
      × ((accept_next n w).1.released ≡ w.released)
unfolding accept_next
accept_next-counts zero w = (omega arith, refl)
accept_next-counts (suc n) w = (refl, refl)

counting-IsCounted : IsCounted counting 4 (λ w. w.opened) (λ w. w.released)
counting-IsCounted = record {
  dials = λ addr w. (refl, refl);
  listens = λ addr w. (refl, refl);
  listens_there = λ cli addr w. (refl, refl);
  accepts = λ lnr w. accept_next-counts w.waiting w;
  connects = λ addr w. (refl, refl);
  connects_there = λ cli laddr raddr w. (refl, refl);
  closes = λ g w. (refl, refl);
  copies = λ a b w. (refl, refl);
  looks = λ w. (refl, refl);
}

abbrev started : Counted
started = record { opened = 0; released = 0; waiting = 2 }

forward-IsReleased_example :
    IsReleased counting 4
      (λ w. w.opened)
      (λ w. w.released)
      started
      (forward counting no_ipv6 9 tunnel started)
    × IsReleased counting 4
        (λ w. w.opened)
        (λ w. w.released)
        started
        (remote_forward counting 9 tunnel started)
forward-IsReleased_example =
    forward-IsReleased counting 4 (λ w. w.opened) (λ w. w.released) counting-IsCounted no_ipv6 9
      tunnel started

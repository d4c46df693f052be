-- ===== src/Util/Ssh/Addr.antt =====
-- Which addresses `toTCPAddr` of pkg/util/ssh.go reads.
use k8s_ext_connector.Prelude.{Text, ℕ, ◌^◌, ◌<◌, Bool, Option, List, ◌≡◌, arith, if◌then◌else◌}
use k8s_ext_connector.Prelude.Int.{pos}
use k8s_ext_connector.Exec.{ok}
use k8s_ext_connector.Util.Decimal.{itoa, itoa-IsDigit}
use k8s_ext_connector.Util.Ip.{parse_ip}
use k8s_ext_connector.Util.HostPort.{join_host_port}
use k8s_ext_connector.Util.HostPort.Laws.{
  Lacks, digits-Lacks, split_host_port-join_host_port, atoi-itoa,
}
use k8s_ext_connector.Util.Ssh.{to_tcp_addr}

-- An address that `net.JoinHostPort` makes of a host without brackets and of a port number is read
-- by `toTCPAddr`, with the port, or 0 if any port will do. The host is whatever `net.ParseIP` makes
-- of it: that it is no IP address is no error.
pub to_tcp_addr-join_host_port :
    (parse_ipv6 : Text → Option (List ℕ)) (host : Text) (n : ℕ) (port_any : Bool)
    → Lacks b'[' host
    → Lacks b']' host
    → n < 2 ^ 63
    → to_tcp_addr parse_ipv6 (join_host_port host (itoa (pos n))) port_any
      ≡ ok (record { ip = parse_ip parse_ipv6 host host; port = pos (if port_any then 0 else n) })
unfolding to_tcp_addr
to_tcp_addr-join_host_port parse_ipv6 host n port_any left right small =
    let port = itoa (pos n) in
    let d = itoa-IsDigit n in
    let parts =
      split_host_port-join_host_port host port left right
        (digits-Lacks b'[' port (λ h. omega arith) d) (digits-Lacks b']' port (λ h. omega arith) d)
        (digits-Lacks b':' port (λ h. omega arith) d) in
    rw (parts, atoi-itoa n small) (ground arith)

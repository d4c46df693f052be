-- ===== src/Util/Ssh/Egress.antt =====
-- What `Forward` of pkg/util/ssh.go calls for the tunnel of an egress rule, whose key
-- `getExpectedSSHTunnel` of pkg/forwarder/reconciler.go makes.
use k8s_ext_connector.Prelude.{
  Text, ℕ, zero, suc, ◌^◌, ◌<◌, Bool, true, false, Option, none, some, List, [], ◌∷◌, ◌≡◌, refl,
  sym, ap, ◌∙◌, inl, inr, arith, In, All, if◌then◌else◌, Bool-cases, subst,
}
use k8s_ext_connector.Prelude.Int.{pos}
use k8s_ext_connector.Exec.{Result, ok, err, Result-cases, ok-injective}
use k8s_ext_connector.Api.{ForwarderRule}
use k8s_ext_connector.Util.Decimal.{itoa, itoa-IsDigit}
use k8s_ext_connector.Util.Ip.{parse_ip}
use k8s_ext_connector.Util.HostPort.{contains, join_host_port}
use k8s_ext_connector.Util.HostPort.Laws.{Lacks, digits-Lacks}
use k8s_ext_connector.Operator.Ports.Reuse.{LacksColon}
use k8s_ext_connector.Forwarder.Rules.{egress_key, ssh_port}
use k8s_ext_connector.Forwarder.Tunnels.{Tunnel, endpoint, to_tunnel}
use k8s_ext_connector.Forwarder.Tunnels.Split.{to_tunnel-tunnel_key}
use k8s_ext_connector.Util.Ssh.{
  Handle, TcpAddr, Net, Running, defer_close, serve_local, forward_loop, forward, forward_addrs,
  forward_listen, forward_dialed, to_tcp_addr,
}
use k8s_ext_connector.Util.Ssh.Addr.{to_tcp_addr-join_host_port}

-- The calls that name an address.
pub data Call : Type 0 where
  ssh_dialed listened dialed : Text → Call
  ssh_listened : Text → Call
  tcp_dialed : TcpAddr → TcpAddr → Call

-- The network, with the calls so far, the last one first.
abbrev pub logged : {W : Type 0} → Net W → Net (W × List Call)
logged net = record {
  ssh_dial = λ s (w, log). let (r, v) = net.ssh_dial s w in (r, (v, ssh_dialed s ∷ log));
  listen = λ s (w, log). let (r, v) = net.listen s w in (r, (v, listened s ∷ log));
  ssh_listen = λ h s (w, log). let (r, v) = net.ssh_listen h s w in (r, (v, ssh_listened s ∷ log));
  accept = λ h (w, log). let (r, v) = net.accept h w in (r, (v, log));
  dial = λ s (w, log). let (r, v) = net.dial s w in (r, (v, dialed s ∷ log));
  dial_tcp = λ h l r (w, log).
      let (answer, v) = net.dial_tcp h l r w in (answer, (v, tcp_dialed l r ∷ log));
  close = λ h (w, log). (net.close h w, log);
  copy_both = λ a b (w, log). (net.copy_both a b w, log);
  is_done = λ (w, log). let (d, v) = net.is_done w in (d, (v, log));
}

module _ {W : Type 0} (net : Net W) (P : Call → Type 0) where
  abbrev AllCalls : W × List Call → Type 0
  AllCalls (w, log) = All P log

  serve_local-AllCalls :
      (cli : Handle) (laddr raddr : TcpAddr) (r : Result Handle × (W × List Call))
      → P (tcp_dialed laddr raddr)
      → AllCalls r.1
      → AllCalls (serve_local (logged net) cli laddr raddr r).1
  unfolding serve_local
  serve_local-AllCalls cli laddr raddr (err e, v) p h = h
  serve_local-AllCalls cli laddr raddr (ok l_con, (w, log)) p h =
      elim (Result-cases (net.dial_tcp cli laddr raddr w).0) [
        | inl (r_con, e) ↦ rw (serve_local, e) (p, h)
        | inr (refused, e) ↦ rw (serve_local, e) (p, h)
      ]

  -- A round that found the context open, and the rounds behind it.
  served-AllCalls :
      (cli : Handle) (laddr raddr : TcpAddr) (r : Result Handle × (W × List Call))
      (next : Running (logged net))
      → P (tcp_dialed laddr raddr)
      → AllCalls r.1
      → AllCalls next.1
      → AllCalls
          (elim (serve_local (logged net) cli laddr raddr r).0 as (λ _. Running (logged net)) [
            | ok _ ↦ next
            | err e ↦ (some (err e), (serve_local (logged net) cli laddr raddr r).1)
          ]).1
  unfolding serve_local
  served-AllCalls cli laddr raddr (err e, v) next p h h' = h
  served-AllCalls cli laddr raddr (ok l_con, (w, log)) next p h h' =
      elim (Result-cases (net.dial_tcp cli laddr raddr w).0) [
        | inl (r_con, e) ↦ rw (serve_local, e) h'
        | inr (refused, e) ↦
            rw (serve_local, e) (serve_local-AllCalls cli laddr raddr (ok l_con, (w, log)) p h)
      ]

  forward_loop-AllCalls :
      (rounds : ℕ) (cli lnr : Handle) (laddr raddr : TcpAddr) (v : W × List Call)
      → P (tcp_dialed laddr raddr)
      → AllCalls v
      → AllCalls (forward_loop (logged net) rounds cli lnr laddr raddr v).1
  unfolding forward_loop
  forward_loop-AllCalls zero cli lnr laddr raddr v p h = h
  forward_loop-AllCalls (suc rounds) cli lnr laddr raddr (w, log) p h =
      let v : W × List Call = ((net.is_done w).1, log) in
      let got = (logged net).accept lnr v in
      elim (Bool-cases (net.is_done w).0) [
        | inl done ↦ rw done (forward_loop-AllCalls rounds cli lnr laddr raddr v p h)
        | inr going ↦ rw going (
            served-AllCalls cli laddr raddr got _ p h (
              forward_loop-AllCalls rounds cli lnr laddr raddr _ p
                (serve_local-AllCalls cli laddr raddr got p h)))
      ]

  defer_close-AllCalls :
      (h : Handle) (r : Running (logged net))
      → AllCalls r.1
      → AllCalls (defer_close (logged net) h r).1
  defer_close-AllCalls h (none, v) a = a
  defer_close-AllCalls h (some r, (w, log)) a = a

  -- What `Forward` calls, for a tunnel of which the addresses are read.
  module _ (parse_ipv6 : Text → Option (List ℕ)) (rounds : ℕ) (t : Tunnel) (laddr raddr : TcpAddr)
      (el : to_tcp_addr parse_ipv6 t.server_endpoint true ≡ ok laddr)
      (er : to_tcp_addr parse_ipv6 t.remote_endpoint false ≡ ok raddr)
      (ps : P (ssh_dialed t.server_endpoint)) (pl : P (listened t.local_endpoint))
      (pt : P (tcp_dialed laddr raddr)) where
    forward_addrs-AllCalls :
        (cli lnr : Handle) (v : W × List Call)
        → AllCalls v
        → AllCalls (forward_addrs (logged net) parse_ipv6 rounds t cli lnr v).1
    unfolding forward_addrs
    forward_addrs-AllCalls cli lnr v h =
        rw (forward_addrs, el, er) (forward_loop-AllCalls rounds cli lnr laddr raddr v pt h)

    forward_listen-AllCalls :
        (cli : Handle) (r : Result Handle × (W × List Call))
        → AllCalls r.1
        → AllCalls (forward_listen (logged net) parse_ipv6 rounds t cli r).1
    unfolding forward_listen
    forward_listen-AllCalls cli (err e, v) h = h
    forward_listen-AllCalls cli (ok lnr, v) h =
        defer_close-AllCalls lnr _ (forward_addrs-AllCalls cli lnr v h)

    forward_dialed-AllCalls :
        (r : Result Handle × (W × List Call))
        → AllCalls r.1
        → AllCalls (forward_dialed (logged net) parse_ipv6 rounds t r).1
    unfolding forward_dialed
    forward_dialed-AllCalls (err e, v) h = h
    forward_dialed-AllCalls (ok cli, (w, log)) h =
        defer_close-AllCalls cli _
          (forward_listen-AllCalls cli ((logged net).listen t.local_endpoint (w, log)) (pl, h))

    forward-AllCalls :
        (v : W × List Call) → AllCalls v → AllCalls (forward (logged net) parse_ipv6 rounds t v).1
    unfolding forward
    forward-AllCalls (w, log) h =
        forward_dialed-AllCalls ((logged net).ssh_dial t.server_endpoint (w, log)) (ps, h)

LacksColon-Lacks : (s : Text) → LacksColon s → Lacks b':' s
unfolding contains
LacksColon-Lacks [] h = refl
LacksColon-Lacks (c ∷ s) h = ground (arith, h.0, LacksColon-Lacks s h.1)

pub Lacks-LacksColon : (s : Text) → Lacks b':' s → LacksColon s
unfolding contains
Lacks-LacksColon [] h = tt
Lacks-LacksColon (c ∷ s) h = (ground (arith, h), Lacks-LacksColon s (ground (arith, h)))

-- A host that is written without colon and brackets, as a dotted decimal address is.
abbrev pub IsPlainHost : Text → Type 0
IsPlainHost s = LacksColon s × Lacks b'[' s × Lacks b']' s

to_tcp_addr-endpoint :
    (parse_ipv6 : Text → Option (List ℕ)) (host : Text) (n : ℕ) (port_any : Bool)
    → IsPlainHost host
    → n < 2 ^ 63
    → to_tcp_addr parse_ipv6 (endpoint host (itoa (pos n))) port_any
      ≡ ok (record { ip = parse_ip parse_ipv6 host host; port = pos (if port_any then 0 else n) })
unfolding join_host_port
to_tcp_addr-endpoint parse_ipv6 host n port_any (colon, left, right) small =
    let same : join_host_port host (itoa (pos n)) ≡ endpoint host (itoa (pos n)) =
      rw (LacksColon-Lacks host colon) refl in
    ap (λ a. to_tcp_addr parse_ipv6 a port_any) (sym same)
    ∙ to_tcp_addr-join_host_port parse_ipv6 host n port_any left right small

-- The calls that are meant for the rule: to the ssh server of its gateway, on the forwarder's
-- address and the relay port, and from the gateway's address to the destination.
abbrev pub meant_calls : (Text → Option (List ℕ)) → Text → ForwarderRule → ℕ → List Call
meant_calls parse_ipv6 forwarder_ip rule port =
    ssh_dialed (endpoint rule.gateway_ip ssh_port)
    ∷ listened (endpoint forwarder_ip rule.relay_port)
    ∷ tcp_dialed (record { ip = parse_ip parse_ipv6 rule.gateway_ip rule.gateway_ip; port = pos 0 })
        (record {
          ip = parse_ip parse_ipv6 rule.destination_ip rule.destination_ip;
          port = pos port;
        })
    ∷ []

-- Let the forwarder's address, the relay port, the gateway's address and the destination of an
-- egress rule hold no colon, the last two no bracket either, and let the destination port be a
-- number below 2^63 in decimal. Whatever the network answers, and for any number of rounds,
-- Forward names addresses in three calls only, on the tunnel that toTunnel makes of the rule's
-- key: it dials the ssh server on the gateway's address, it listens on the forwarder's address and
-- the relay port, and it dials the destination from the gateway's address with any port.
pub forward-egress_key :
    {W : Type 0} (net : Net W) (parse_ipv6 : Text → Option (List ℕ)) (rounds : ℕ)
    (forwarder_ip : Text) (rule : ForwarderRule) (port : ℕ) (t : Tunnel) (w : W)
    → LacksColon forwarder_ip
    → LacksColon rule.relay_port
    → IsPlainHost rule.gateway_ip
    → IsPlainHost rule.destination_ip
    → (rule.destination_port ≡ itoa (pos port)) × (port < 2 ^ 63)
    → to_tunnel (egress_key forwarder_ip rule) ≡ ok t
    → All
        (λ c. In c (meant_calls parse_ipv6 forwarder_ip rule port))
        (forward (logged net) parse_ipv6 rounds t (w, [])).1.1
unfolding egress_key ssh_port contains itoa
forward-egress_key net parse_ipv6 rounds forwarder_ip rule port t w hf hr hg hd (spelt, small) e =
    let made =
      to_tunnel-tunnel_key forwarder_ip rule.relay_port rule.gateway_ip ssh_port rule.destination_ip
        rule.destination_port hf hr hg.0 (Lacks-LacksColon ssh_port refl) hd.0
        (subst LacksColon (sym spelt) (
          Lacks-LacksColon (itoa (pos port))
            (digits-Lacks b':' (itoa (pos port)) (λ h. omega arith) (itoa-IsDigit port)))) in
    let same = ok-injective (sym made ∙ e) in
    let server = to_tcp_addr-endpoint parse_ipv6 rule.gateway_ip 2022 true hg (omega arith) in
    let remote = to_tcp_addr-endpoint parse_ipv6 rule.destination_ip port false hd small in
    subst
      (λ x.
        All (λ c. In c (meant_calls parse_ipv6 forwarder_ip rule port))
          (forward (logged net) parse_ipv6 rounds x (w, [])).1.1)
      same
      (forward-AllCalls net (λ c. In c (meant_calls parse_ipv6 forwarder_ip rule port)) parse_ipv6
        rounds _ _ _ server
        (ap (λ p. to_tcp_addr parse_ipv6 (endpoint rule.destination_ip p) false) spelt ∙ remote)
        (inl refl) (inr (inl refl)) (inr (inr (inl refl))) (w, []) tt)

-- ===== src/Gateway/Reconcile/Routes.antt =====
-- Where a connection from an external server goes at the gateway: the rules that the operator
-- writes, the iptables rule that pkg/gateway/reconciler.go makes of them, and the remote tunnel that
-- pkg/forwarder/reconciler.go is asked to keep open where it arrives.
use k8s_ext_connector.Prelude.{
  Text, ℕ, Bool, true, Option, some, List, [], ◌++◌, ◌≡◌, refl, sym, ap, ◌∙◌, In,
}
use k8s_ext_connector.Prelude.Dict.{has}
use k8s_ext_connector.Exec.{ok}
use k8s_ext_connector.Util.Ip.{get_hex_ip}
use k8s_ext_connector.Api.{ForwarderRule, Forwarder, GatewayRule, Gateway}
use k8s_ext_connector.Api.Conditions.{Conditions}
use k8s_ext_connector.Api.Client.{Client}
use k8s_ext_connector.Iptables.{RuleSpec, IptInterface, table_nat}
use k8s_ext_connector.Iptables.Chains.{IptLaws, add_each}
use k8s_ext_connector.Iptables.Match.{
  Packet, Redirects, first_match, first_match-add_each_nil, dnat_each, first_match-dnat_each,
}
use k8s_ext_connector.Operator.Rules.{gateway_rule, gen_gateway_ingress_rules}
use k8s_ext_connector.Operator.Rules.Gateways.{Names, gen_gateway_rules-In}
use k8s_ext_connector.Operator.Update.{set_gateway_rules}
use k8s_ext_connector.Forwarder.Rules.{ingress_key, get_expected_remote_ssh_tunnel}
use k8s_ext_connector.Forwarder.Rules.Keys.{
  PlainRule, ingress_tunnel, to_tunnel-ingress_key, get_expected_remote_ssh_tunnel_complete,
}
use k8s_ext_connector.Forwarder.Tunnels.{to_tunnel}
use k8s_ext_connector.Gateway.Rules.{prechain_prefix}
use k8s_ext_connector.Gateway.Rules.Chains.{lookup-own_chains_own, lookup-jump_chains_pre}
use k8s_ext_connector.Gateway.Reconcile.{apply_iptables_rules}
use k8s_ext_connector.Gateway.Reconcile.Sync.{apply_iptables_rules-rules}

-- The packets of the rule's flow that reach the gateway are redirected to where the tunnel of a rule
-- of the same flow, which some forwarder of the list is asked to keep open, listens remotely.
pub record IsServed {C : Type 0} (redirect : RuleSpec → Packet → Option Text)
    (chain : List RuleSpec) (gw_ip : Text) (fwds : List (Forwarder C)) (rule : ForwarderRule)
    : Type 0 where
  pub forwarder : Forwarder C
  pub listed : In forwarder fwds
  pub serving : ForwarderRule
  pub ingress : In serving forwarder.spec.ingress_rules
  pub same_source : serving.source_ip ≡ rule.source_ip
  pub same_port : serving.target_port ≡ rule.target_port
  pub expected : has (ingress_key serving) (get_expected_remote_ssh_tunnel forwarder) ≡ true
  pub tunnel : to_tunnel (ingress_key serving) ≡ ok (ingress_tunnel serving)
  pub redirected :
      first_match redirect
        (record { src = rule.source_ip; dst = gw_ip; dport = rule.target_port })
        chain
      ≡ some (ingress_tunnel serving).remote_endpoint

module _ {C W V : Type 0} (K : Conditions C) (no_conditions : C) (cl : Client C W)
    (hosts : Client C V) (ipt : IptInterface V) (parse_ipv6 : Text → Option (List ℕ))
    (is_port_open : Text → Text → V → Bool × V) (L : IptLaws ipt table_nat)
    (redirect : RuleSpec → Packet → Option Text) (R : Redirects redirect)
    (fwds : List (Forwarder C)) (g : Gateway C) (gw_ip hex_ip : Text) (v : V) where
  abbrev written : Gateway C
  written = set_gateway_rules K no_conditions cl fwds gw_ip g

  -- The gateway's own chain, after a successful `applyIptablesRules` for the rules written.
  own_chain :
      get_hex_ip parse_ipv6 gw_ip ≡ ok hex_ip
      → (apply_iptables_rules K hosts ipt parse_ipv6 is_port_open written v).0 ≡ ok tt
      → L.rules
          (apply_iptables_rules K hosts ipt parse_ipv6 is_port_open written v).1
          (prechain_prefix ++ hex_ip)
        ≡ add_each [] (
            dnat_each
              (λ rule. rule.source_ip)
              (λ rule. rule.target_port)
              (λ rule. rule.relay_port)
              gw_ip
              (gen_gateway_ingress_rules fwds g))
  unfolding set_gateway_rules
  own_chain e h =
      rw (lookup-jump_chains_pre hex_ip hex_ip, lookup-own_chains_own hex_ip written) at
        (apply_iptables_rules-rules K hosts ipt parse_ipv6 is_port_open L written hex_ip v e h
          (prechain_prefix ++ hex_ip))

  -- Let `applyIptablesRules` succeed for the rules that `updateRulesForOneGateway` writes for the
  -- listed forwarders, where the ingress rules that name the gateway have its address and hold no
  -- colons. Then for each of them: a packet that the rule's source sends to the gateway's address and
  -- the rule's target port is redirected, by the first rule that matches in the gateway's chain, to
  -- the remote endpoint of the tunnel that `toTunnel` makes of an ingress rule with that source and
  -- target port, which a listed forwarder is expected to keep open.
  pub apply_iptables_rules-IsServed :
      get_hex_ip parse_ipv6 gw_ip ≡ ok hex_ip
      → ((fwd : Forwarder C) (s : ForwarderRule)
          → In fwd fwds
          → In s fwd.spec.ingress_rules
          → Names s g
          → (s.gateway_ip ≡ gw_ip) × PlainRule s)
      → (apply_iptables_rules K hosts ipt parse_ipv6 is_port_open
          (set_gateway_rules K no_conditions cl fwds gw_ip g)
          v).0
        ≡ ok tt
      → (fwd : Forwarder C) (rule : ForwarderRule) → In fwd fwds
      → In rule fwd.spec.ingress_rules
      → Names rule g
      → IsServed redirect
          (L.rules
            (apply_iptables_rules K hosts ipt parse_ipv6 is_port_open
              (set_gateway_rules K no_conditions cl fwds gw_ip g)
              v).1
            (prechain_prefix ++ hex_ip))
          gw_ip
          fwds
          rule
  unfolding gateway_rule
  apply_iptables_rules-IsServed e agree h fwd rule i m n =
      let gen =
        (gen_gateway_rules-In (gateway_rule fwd rule) fwds g).1.1 (fwd, rule, i, m, n, refl) in
      let (r, j, src, dport, first) =
        first_match-dnat_each (λ x. x.source_ip) (λ x. x.target_port) (λ x. x.relay_port) redirect R
          gw_ip (gen_gateway_ingress_rules fwds g) (gateway_rule fwd rule) gen in
      let (f, s, listed, ingress, names, made) = (gen_gateway_rules-In r fwds g).1.0 j in
      let port : r.relay_port ≡ s.relay_port = ap (λ (x : GatewayRule). x.relay_port) made in
      let (same_ip, plain) = agree f s listed ingress names in
      record {
        forwarder = f;
        listed = listed;
        serving = s;
        ingress = ingress;
        same_source = sym (ap (λ (x : GatewayRule). x.source_ip) made) ∙ src;
        same_port = sym (ap (λ (x : GatewayRule). x.target_port) made) ∙ dport;
        expected = get_expected_remote_ssh_tunnel_complete f s ingress;
        tunnel = to_tunnel-ingress_key s plain;
        redirected =
            ap (first_match redirect _) (own_chain e h)
            ∙ first_match-add_each_nil redirect _ _
            ∙ first
            ∙ ap some (cc (same_ip, port));
      }

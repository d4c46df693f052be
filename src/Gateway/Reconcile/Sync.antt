-- ===== src/Gateway/Reconcile/Sync.antt =====
-- What `applyIptablesRules` of pkg/gateway/reconciler.go leaves in the chains.
use k8s_ext_connector.Prelude.{
  Text, ℕ, Bool, Option, none, some, List, [], ◌++◌, ◌≡◌, ◌≢◌, sym, ap, ◌∙◌,
}
use k8s_ext_connector.Prelude.Dict.{lookup}
use k8s_ext_connector.Exec.{ok, >>=_ran}
use k8s_ext_connector.Util.Ip.{get_hex_ip}
use k8s_ext_connector.Api.{Gateway}
use k8s_ext_connector.Api.Conditions.{Conditions}
use k8s_ext_connector.Api.Client.{Client}
use k8s_ext_connector.Iptables.{IptInterface, table_nat, replace_chains, add_chains}
use k8s_ext_connector.Iptables.Chains.{
  IptLaws, add_each, appended, replace_chains-rules, add_chains-rules,
}
use k8s_ext_connector.Gateway.Rules.{
  prechain_prefix, postchain_prefix, jump_chains, own_chains, get_expected_iptables_rule,
}
use k8s_ext_connector.Gateway.Rules.Chains.{
  jump_chains-Distinct, own_chains-Distinct, lookup-own_chains_pre, lookup-own_chains_post,
  lookup-jump_chains_pre, lookup-jump_chains_post,
}
use k8s_ext_connector.Gateway.Reconcile.{apply_iptables_rules}

module _ {C W : Type 0} (K : Conditions C) (cl : Client C W) (ipt : IptInterface W)
    (parse_ipv6 : Text → Option (List ℕ)) (is_port_open : Text → Text → W → Bool × W)
    (L : IptLaws ipt table_nat) (gw : Gateway C) (hex_ip : Text) (w : W)
    (e : get_hex_ip parse_ipv6 gw.spec.gateway_ip ≡ ok hex_ip)
    (h : (apply_iptables_rules K cl ipt parse_ipv6 is_port_open gw w).0 ≡ ok tt) where
  pub apply_iptables_rules-rules :
      (c : Text)
      → L.rules (apply_iptables_rules K cl ipt parse_ipv6 is_port_open gw w).1 c
        ≡ appended ipt table_nat L
            (lookup c (jump_chains hex_ip))
            (elim (lookup c (own_chains hex_ip gw)) [
              | none ↦ L.rules w c
              | some rs ↦ add_each [] rs
            ])
  unfolding apply_iptables_rules get_expected_iptables_rule
  apply_iptables_rules-rules c =
      let went = (rw e at h) in
      let own = own_chains hex_ip gw in
      let jumps = jump_chains hex_ip in
      let (_, replaced, same) =
        >>=_ran (replace_chains ipt table_nat own) (λ _. add_chains ipt table_nat jumps) w went in
      let w₁ = (replace_chains ipt table_nat own w).1 in
      let added = ap (λ r. r.0) (sym same) ∙ went in
      rw (e, ap (λ r. L.rules r.1 c) same)
        (add_chains-rules ipt table_nat L jumps c w₁ (jump_chains-Distinct hex_ip) added
          ∙ ap (appended ipt table_nat L (lookup c jumps)) (
              replace_chains-rules ipt table_nat L own c w (own_chains-Distinct hex_ip gw)
                replaced))

  -- When `applyIptablesRules` succeeds, the chains of a gateway with another address in hexadecimal
  -- hold what they held.
  pub apply_iptables_rules-others :
      (other : Text)
      → hex_ip ≢ other
      → (L.rules
            (apply_iptables_rules K cl ipt parse_ipv6 is_port_open gw w).1
            (prechain_prefix ++ other)
          ≡ L.rules w (prechain_prefix ++ other))
        × (L.rules
              (apply_iptables_rules K cl ipt parse_ipv6 is_port_open gw w).1
              (postchain_prefix ++ other)
            ≡ L.rules w (postchain_prefix ++ other))
  apply_iptables_rules-others other d =
      let pre = apply_iptables_rules-rules (prechain_prefix ++ other) in
      let post = apply_iptables_rules-rules (postchain_prefix ++ other) in
      (
        rw (lookup-own_chains_pre hex_ip other gw d, lookup-jump_chains_pre hex_ip other) at pre,
        rw (lookup-own_chains_post hex_ip other gw d, lookup-jump_chains_post hex_ip other) at post,
      )

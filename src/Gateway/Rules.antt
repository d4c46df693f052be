-- ===== src/Gateway/Rules.antt =====
-- The iptables rules that a gateway asks for (pkg/gateway/reconciler.go).
pub mod Chains
use k8s_ext_connector.Prelude.{Text, codes, ℕ, Option, List, [], ◌∷◌, ◌++◌}
use k8s_ext_connector.Exec.{Result, ok, bind_result}
use k8s_ext_connector.Util.Ip.{get_hex_ip}
use k8s_ext_connector.Api.{GatewayRule, Gateway}
use k8s_ext_connector.Iptables.{
  RuleSpec, ChainMap, chain_prerouting, chain_postrouting, dnat_rule_spec, snat_rule_spec,
}

abbrev pub prechain_prefix : Text
prechain_prefix = codes "pre"

abbrev pub postchain_prefix : Text
postchain_prefix = codes "pst"

pub prerouting : Text → List GatewayRule → List RuleSpec
prerouting gateway_ip [] = []
prerouting gateway_ip (rule ∷ rules) =
    dnat_rule_spec gateway_ip rule.source_ip rule.target_port gateway_ip rule.relay_port
    ∷ prerouting gateway_ip rules

pub postrouting : Text → List GatewayRule → List RuleSpec
postrouting gateway_ip [] = []
postrouting gateway_ip (rule ∷ rules) =
    snat_rule_spec rule.destination_ip gateway_ip rule.relay_port ∷ postrouting gateway_ip rules

-- `-j chain`
abbrev pub jump_to : Text → RuleSpec
jump_to chain = codes "-j" ∷ chain ∷ []

unfoldable pub jump_chains : Text → ChainMap
jump_chains hex_ip =
    (chain_prerouting, jump_to (prechain_prefix ++ hex_ip) ∷ [])
    ∷ (chain_postrouting, jump_to (postchain_prefix ++ hex_ip) ∷ [])
    ∷ []

unfoldable pub own_chains : {C : Type 0} → Text → Gateway C → ChainMap
unfolding prerouting postrouting
own_chains hex_ip gw =
    (prechain_prefix ++ hex_ip, prerouting gw.spec.gateway_ip gw.spec.ingress_rules)
    ∷ (postchain_prefix ++ hex_ip, postrouting gw.spec.gateway_ip gw.spec.ingress_rules)
    ∷ []

unfoldable pub get_expected_iptables_rule :
    {C : Type 0} → (Text → Option (List ℕ)) → Gateway C → Result (ChainMap × ChainMap)
get_expected_iptables_rule parse_ipv6 gw =
    bind_result (get_hex_ip parse_ipv6 gw.spec.gateway_ip)
      λ hex_ip. ok (jump_chains hex_ip, own_chains hex_ip gw)

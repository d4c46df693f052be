-- ===== src/Forwarder/Rules.antt =====
-- What a forwarder's rules ask for: tunnels and iptables rules (pkg/forwarder/reconciler.go).
pub mod Total
pub mod Keys
use k8s_ext_connector.Prelude.{Text, codes, Bool, true, List, [], ◌∷◌, ◌++◌}
use k8s_ext_connector.Prelude.Dict.{Dict, insert}
use k8s_ext_connector.Api.{ForwarderRule, Forwarder}
use k8s_ext_connector.Iptables.{
  RuleSpec, ChainMap, chain_prerouting, chain_postrouting, dnat_rule_spec, snat_rule_spec,
}

-- pkg/util/ssh.go
unfoldable pub ssh_port : Text
ssh_port = codes "2022"

-- `"%s:%s:%s:%s:%s:%s"`
abbrev pub tunnel_key : Text → Text → Text → Text → Text → Text → Text
tunnel_key a b c d e f = a ++ b':' ∷ (b ++ b':' ∷ (c ++ b':' ∷ (d ++ b':' ∷ (e ++ b':' ∷ f))))

unfoldable pub egress_key : Text → ForwarderRule → Text
egress_key forwarder_ip rule =
    tunnel_key forwarder_ip rule.relay_port rule.gateway_ip ssh_port rule.destination_ip
      rule.destination_port

pub ingress_key : ForwarderRule → Text
ingress_key rule =
    tunnel_key rule.destination_ip rule.destination_port rule.gateway_ip ssh_port rule.gateway_ip
      rule.relay_port

-- `st[…] = true` for each rule
egress_keys : Text → List ForwarderRule → Dict Bool → Dict Bool
egress_keys forwarder_ip [] st = st
egress_keys forwarder_ip (rule ∷ rules) st =
    egress_keys forwarder_ip rules (insert (egress_key forwarder_ip rule) true st)

ingress_keys : List ForwarderRule → Dict Bool → Dict Bool
ingress_keys [] rt = rt
ingress_keys (rule ∷ rules) rt = ingress_keys rules (insert (ingress_key rule) true rt)

unfoldable pub get_expected_ssh_tunnel : {C : Type 0} → Forwarder C → Dict Bool
unfolding egress_keys egress_key
get_expected_ssh_tunnel fwd = egress_keys fwd.spec.forwarder_ip fwd.spec.egress_rules []

unfoldable pub get_expected_remote_ssh_tunnel : {C : Type 0} → Forwarder C → Dict Bool
unfolding ingress_keys ingress_key
get_expected_remote_ssh_tunnel fwd = ingress_keys fwd.spec.ingress_rules []

-- The two chains; each round of the loop appends a rule to both.
pub prerouting : Text → List ForwarderRule → List RuleSpec
prerouting forwarder_ip [] = []
prerouting forwarder_ip (rule ∷ rules) =
    dnat_rule_spec forwarder_ip rule.source_ip rule.target_port forwarder_ip rule.relay_port
    ∷ prerouting forwarder_ip rules

pub postrouting : Text → List ForwarderRule → List RuleSpec
postrouting forwarder_ip [] = []
postrouting forwarder_ip (rule ∷ rules) =
    snat_rule_spec rule.destination_ip forwarder_ip rule.relay_port ∷ postrouting forwarder_ip rules

unfoldable pub get_expected_iptables_rule : {C : Type 0} → Forwarder C → ChainMap
unfolding prerouting postrouting
get_expected_iptables_rule fwd =
    (chain_prerouting, prerouting fwd.spec.forwarder_ip fwd.spec.egress_rules)
    ∷ (chain_postrouting, postrouting fwd.spec.forwarder_ip fwd.spec.egress_rules)
    ∷ []

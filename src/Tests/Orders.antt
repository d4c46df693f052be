-- ===== src/Tests/Orders.antt =====
-- Tables of used relay ports in two orders, and those rebuilt from a gateway.
use k8s_ext_connector.Prelude.{
  Text, codes, ◌≡◌, ◌≢◌, refl, sym, ap, [], ◌∷◌, ◌==◌, eq_iff, arith, ◌∙◌, inl, inr,
}
use k8s_ext_connector.Prelude.Dict.{Dict, lookup}
use k8s_ext_connector.Exec.{ok}
use k8s_ext_connector.Api.{GatewayRule, Gateway}
use k8s_ext_connector.Operator.Ports.{
  table_of, gen_relay_port_for_egress, gen_used_ports_for_ingress, gen_relay_port_for_ingress,
}
use k8s_ext_connector.Operator.Ports.Assign.{Distinct}
use k8s_ext_connector.Operator.Ports.Order.{
  SameMap, OnePortEach, EndAlike, gen_relay_port_for_egress-EndAlike,
}
use k8s_ext_connector.Operator.Ports.Ingress.{
  Matched, flow_of, rules_named, gen_used_ports_for_ingress_reuses,
}
use k8s_ext_connector.Tests.World.{Pair, fresh_gateway}
use k8s_ext_connector.Tests.Ports.{two_used}

abbrev other_order : Dict Text
other_order = (codes "2050", codes "10.0.0.2:80") ∷ (codes "2049", codes "10.0.0.1:80") ∷ []

one_order-Distinct : Distinct two_used
unfolding lookup ◌==◌
one_order-Distinct = (refl, (refl, tt))

other_order-Distinct : Distinct other_order
unfolding lookup ◌==◌
other_order-Distinct = (refl, (refl, tt))

ports_differ : codes "2049" ≢ codes "2050"
unfolding ◌==◌
ports_differ h = let same = (eq_iff (codes "2049") (codes "2050")).1 h in absurd cc

flows_differ : codes "10.0.0.1:80" ≢ codes "10.0.0.2:80"
unfolding ◌==◌
flows_differ h = let same = (eq_iff (codes "10.0.0.1:80") (codes "10.0.0.2:80")).1 h in absurd cc

orders-SameMap : SameMap two_used other_order
unfolding lookup
orders-SameMap key =
    ground (arith, eq_iff (codes "2049") key, eq_iff (codes "2050") key, ports_differ)

two_used-OnePortEach : OnePortEach two_used
unfolding lookup
two_used-OnePortEach p q v hp hq = ground (
  arith,
  eq_iff (codes "2049") p,
  eq_iff (codes "2050") p,
  eq_iff (codes "2049") q,
  eq_iff (codes "2050") q,
  flows_differ,
)

gen_relay_port_for_egress-EndAlike_example :
    EndAlike
      (gen_relay_port_for_egress (codes "10.0.0.2") (codes "80") two_used)
      (gen_relay_port_for_egress (codes "10.0.0.2") (codes "80") other_order)
gen_relay_port_for_egress-EndAlike_example =
    gen_relay_port_for_egress-EndAlike (codes "10.0.0.2") (codes "80") two_used other_order
      one_order-Distinct other_order-Distinct orders-SameMap two_used-OnePortEach

-- Two ingress rules of one gateway.
abbrev rule_one : GatewayRule
rule_one = record {
  protocol = codes "TCP";
  source_ip = codes "192.168.122.139";
  target_port = codes "80";
  destination_ip = codes "10.0.0.2";
  destination_port = codes "8080";
  forwarder = record { namespace = codes "external-services"; name = codes "my-externalservice" };
  forwarder_ip = codes "10.0.0.9";
  relay_port = codes "2049";
}

abbrev rule_two : GatewayRule
rule_two = record rule_one { target_port = codes "443"; relay_port = codes "2050" }

abbrev gateway : Gateway Pair
gateway = record fresh_gateway {
  spec = record fresh_gateway.spec { ingress_rules = rule_one ∷ rule_two ∷ [] };
}

ingress_flows_differ : flow_of rule_one ≢ flow_of rule_two
unfolding ◌==◌
ingress_flows_differ h = let same = (eq_iff (flow_of rule_one) (flow_of rule_two)).1 h in absurd cc

abbrev relay_port_of : GatewayRule → Text
relay_port_of rule = rule.relay_port

two_rules-Matched : Matched (rule_one ∷ rule_two ∷ [])
two_rules-Matched r s (inl e) (inl f) =
    let same : r ≡ s = e ∙ sym f in (λ _. ap flow_of same, λ _. ap relay_port_of same)
two_rules-Matched r s (inl e) (inr (inl f)) = (
  λ h. absurd (ports_differ (sym (ap relay_port_of e) ∙ h ∙ ap relay_port_of f)),
  λ h. absurd (ingress_flows_differ (sym (ap flow_of e) ∙ h ∙ ap flow_of f)),
)
two_rules-Matched r s (inr (inl e)) (inl f) = (
  λ h. absurd (ports_differ (sym (ap relay_port_of f) ∙ sym h ∙ ap relay_port_of e)),
  λ h. absurd (ingress_flows_differ (sym (ap flow_of f) ∙ sym h ∙ ap flow_of e)),
)
two_rules-Matched r s (inr (inl e)) (inr (inl f)) =
    let same : r ≡ s = e ∙ sym f in (λ _. ap flow_of same, λ _. ap relay_port_of same)
two_rules-Matched r s (inl e) (inr (inr z)) = absurd z
two_rules-Matched r s (inr (inl e)) (inr (inr z)) = absurd z
two_rules-Matched r s (inr (inr z)) n = absurd z

gen_used_ports_for_ingress_reuses_example :
    (tables : Dict (Dict Text)) × (gen_relay_port_for_ingress
        (codes "192.168.122.139")
        (codes "443")
        (codes "gwrulec0a87ac8")
        (gen_used_ports_for_ingress (gateway ∷ []))
      ≡ ok (codes "2050", tables))
    × ((other : Text)
        → table_of other tables ≡ table_of other (gen_used_ports_for_ingress (gateway ∷ [])))
unfolding rules_named ◌==◌
gen_used_ports_for_ingress_reuses_example =
    gen_used_ports_for_ingress_reuses (gateway ∷ []) (codes "gwrulec0a87ac8") rule_two
      two_rules-Matched (inr (inl refl))

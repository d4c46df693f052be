-- ===== src/Tests/Operator.antt =====
-- The operator's rules and requests at concrete resources.
use k8s_ext_connector.Prelude.{
  Text, codes, ℕ, Option, none, List, [], ◌∷◌, ◌==◌, ◌≡◌, ◌↔◌, refl, inl, inr, In,
}
use k8s_ext_connector.Prelude.Int.{pos}
use k8s_ext_connector.Prelude.Dict.{Dict, lookup, insert}
use k8s_ext_connector.Exec.{ok, pure}
use k8s_ext_connector.Util.Decimal.{itoa}
use k8s_ext_connector.Util.Ip.{get_rule_name, get_hex_ip}
use k8s_ext_connector.Api.{Source, ServicePort, ExternalService, Endpoints, Gateway, ForwarderRule}
use k8s_ext_connector.Api.Client.{Client}
use k8s_ext_connector.Operator.Ports.{
  flow, gen_relay_port_for_egress, assign, enter, find_port, first_free,
}
use k8s_ext_connector.Operator.Resource.{gen_forward_pod_spec, gen_forward_service_spec}
use k8s_ext_connector.Operator.Rules.{
  gateway_ref, egress_rule, gateway_rule, gen_gateway_egress_rules, gen_gateway_ingress_rules,
  gen_forwarder_egress_rules, egress_sources, egress_ports, egress_addrs, get_endpoint_addrs,
  all_addrs,
}
use k8s_ext_connector.Operator.Rules.Relay.{gen_forwarder_egress_rules-relay}
use k8s_ext_connector.Operator.Rules.Gateways.{FromForwarders, gen_gateway_rules-In}
use k8s_ext_connector.Operator.Watch.{
  requests_for_pod, requests_for_service, requests_for_endpoints,
}
use k8s_ext_connector.Operator.Watch.Requests.{
  request_for, Affected, requests_for_pod-gen_forward_pod_spec, requests_for_endpoints-In,
}
use k8s_ext_connector.Tests.World.{empty_client, meta}
use k8s_ext_connector.Tests.Ports.{rule, forwarder}

abbrev gateway : Gateway (Unit {0})
gateway = record {
  meta = meta (codes "gwrulec0a87ac8");
  spec = record { egress_rules = []; ingress_rules = []; gateway_ip = codes "192.168.122.200" };
  status = record { conditions = tt; rule_generation = 0; sync_generation = 0 };
}

gen_gateway_rules-In_example :
    (In (gateway_rule forwarder rule) (gen_gateway_egress_rules (forwarder ∷ []) gateway)
      ↔ FromForwarders
          (λ fwd. fwd.spec.egress_rules)
          (gateway_rule forwarder rule)
          (forwarder ∷ [])
          gateway)
    × (In (gateway_rule forwarder rule) (gen_gateway_ingress_rules (forwarder ∷ []) gateway)
        ↔ FromForwarders
            (λ fwd. fwd.spec.ingress_rules)
            (gateway_rule forwarder rule)
            (forwarder ∷ [])
            gateway)
gen_gateway_rules-In_example =
    gen_gateway_rules-In (gateway_rule forwarder rule) (forwarder ∷ []) gateway

-- Two source addresses for one service, each with a gateway of its own.
abbrev source : Text → Source
source ip = record {
  service = record { namespace = codes "ns1"; name = codes "my-service1" };
  source_ip = ip;
}

abbrev port_80 : ServicePort
port_80 = record { protocol = codes "TCP"; port = pos 8000; target_port = codes "80" }

abbrev external_service : ExternalService
external_service = record {
  meta = meta (codes "my-externalservice");
  spec = record {
    target_ip = codes "192.168.122.139";
    sources = source (codes "192.168.122.200") ∷ source (codes "192.168.122.201") ∷ [];
    ports = port_80 ∷ [];
  };
}

abbrev endpoints : Endpoints
endpoints = record {
  meta = record (meta (codes "my-service1")) { namespace = codes "ns1" };
  subsets = (codes "10.0.0.2" ∷ []) ∷ [];
}

abbrev serving : Client (Unit {0}) (Unit {0})
serving = record empty_client { get_endpoints = λ _. pure endpoints }

requests_for_pod-gen_forward_pod_spec_example :
    (requests_for_pod (gen_forward_pod_spec external_service) ≡ request_for external_service ∷ [])
    × (requests_for_service (gen_forward_service_spec external_service)
        ≡ request_for external_service ∷ [])
requests_for_pod-gen_forward_pod_spec_example =
    requests_for_pod-gen_forward_pod_spec external_service

requests_for_endpoints-In_example :
    In
      (request_for external_service)
      (requests_for_endpoints endpoints (ok (external_service ∷ [])))
    ↔ Affected (request_for external_service) endpoints (external_service ∷ [])
requests_for_endpoints-In_example =
    requests_for_endpoints-In (request_for external_service) endpoints (external_service ∷ [])

abbrev no_ipv6 : Text → Option (List ℕ)
no_ipv6 _ = none

-- The rule for one gateway, by the gateway's name and address.
abbrev rule_by : Text → Text → ForwarderRule
rule_by name ip =
    egress_rule (codes "192.168.122.139") (source ip) (gateway_ref name) port_80 (codes "10.0.0.2")
      (codes "2049")

abbrev both : List ForwarderRule
both =
    rule_by (codes "gwrulec0a87ac8") (codes "192.168.122.200")
    ∷ rule_by (codes "gwrulec0a87ac9") (codes "192.168.122.201")
    ∷ []

abbrev table : Dict Text
table = (codes "2049", codes "10.0.0.2:80") ∷ []

generated :
    (gen_forwarder_egress_rules serving no_ipv6 external_service table tt).0 ≡ ok (both, table)
unfolding gen_forwarder_egress_rules egress_sources egress_ports egress_addrs get_endpoint_addrs
    all_addrs get_rule_name get_hex_ip gen_relay_port_for_egress assign enter find_port first_free
    lookup insert ◌==◌ itoa egress_rule
generated = refl

gen_forwarder_egress_rules-relay_example :
    flow (codes "10.0.0.2") (codes "80") ≡ flow (codes "10.0.0.2") (codes "80")
unfolding egress_rule lookup
gen_forwarder_egress_rules-relay_example =
    gen_forwarder_egress_rules-relay serving no_ipv6 external_service table tt both table (refl, tt)
      generated (rule_by (codes "gwrulec0a87ac8") (codes "192.168.122.200"))
      (rule_by (codes "gwrulec0a87ac9") (codes "192.168.122.201")) (inl refl) (inr (inl refl)) refl

-- ===== src/Operator/Rules.antt =====
-- The rules that the operator generates (pkg/controller/externalservice/reconciler.go).
pub mod Relay
pub mod Gateways
pub mod Unique
use k8s_ext_connector.Prelude.{
  Text, ℕ, Bool, false, Option, List, [], ◌∷◌, ◌++◌, ◌==◌, ◌||◌, not, if◌then◌else◌,
}
use k8s_ext_connector.Prelude.Dict.{Dict, insert, has}
use k8s_ext_connector.Exec.{
  Result, ok, err, bind_result, Exec, pure, fail, lift, attempt, is_not_found, ◌>>=◌,
}
use k8s_ext_connector.Util.Decimal.{itoa}
use k8s_ext_connector.Util.Ip.{get_rule_name}
use k8s_ext_connector.Api.{
  NamespacedName, ServicePort, Source, ExternalService, GatewayRef, ForwarderRule, Forwarder,
  GatewayRule, Gateway, Service,
}
use k8s_ext_connector.Api.Client.{Client}
use k8s_ext_connector.Operator.Names.{connector_namespace}
use k8s_ext_connector.Operator.Ports.{gen_relay_port_for_egress, gen_relay_port_for_ingress}

unfoldable pub egress_rule : Text → Source → GatewayRef → ServicePort → Text → Text → ForwarderRule
egress_rule target_ip src gw port source_ip relay_port = record {
  protocol = port.protocol;
  source_ip = source_ip;
  target_port = port.target_port;
  destination_ip = target_ip;
  destination_port = itoa port.port;
  gateway = gw;
  gateway_ip = src.source_ip;
  relay_port = relay_port;
}

-- The inner loop of `genForwarderEgressRules`, over the addresses.
unfoldable pub egress_addrs :
    Text
    → Source
    → GatewayRef
    → ServicePort
    → List Text
    → Dict Text
    → Result (List ForwarderRule × Dict Text)
unfolding egress_rule
egress_addrs target_ip src gw port [] used = ok ([], used)
egress_addrs target_ip src gw port (addr ∷ addrs) used =
    bind_result (gen_relay_port_for_egress addr port.target_port used) λ (relay, used₁).
      bind_result (egress_addrs target_ip src gw port addrs used₁)
        λ (rules, used₂). ok (egress_rule target_ip src gw port addr relay ∷ rules, used₂)

-- The loop over the ports.
unfoldable pub egress_ports :
    Text
    → Source
    → GatewayRef
    → List Text
    → List ServicePort
    → Dict Text
    → Result (List ForwarderRule × Dict Text)
egress_ports target_ip src gw addrs [] used = ok ([], used)
egress_ports target_ip src gw addrs (port ∷ ports) used =
    bind_result (egress_addrs target_ip src gw port addrs used) λ (rules, used₁).
      bind_result (egress_ports target_ip src gw addrs ports used₁)
        λ (more, used₂). ok (rules ++ more, used₂)

unfoldable pub ingress_rule :
    Text → Source → GatewayRef → Service → ServicePort → Text → ForwarderRule
ingress_rule target_ip src gw svc port relay_port = record {
  protocol = port.protocol;
  source_ip = target_ip;
  target_port = itoa port.port;
  destination_ip = svc.spec.cluster_ip;
  destination_port = itoa port.port;
  gateway = gw;
  gateway_ip = src.source_ip;
  relay_port = relay_port;
}

-- The inner loop of `genForwarderIngressRules`, over the ports of the service.
unfoldable pub ingress_ports :
    Text
    → Source
    → GatewayRef
    → Service
    → List ServicePort
    → Dict (Dict Text)
    → Result (List ForwarderRule × Dict (Dict Text))
unfolding ingress_rule
ingress_ports target_ip src gw svc [] used = ok ([], used)
ingress_ports target_ip src gw svc (port ∷ ports) used =
    bind_result (gen_relay_port_for_ingress target_ip (itoa port.port) gw.name used)
      λ (relay, used₁).
        bind_result (ingress_ports target_ip src gw svc ports used₁)
          λ (rules, used₂). ok (ingress_rule target_ip src gw svc port relay ∷ rules, used₂)

abbrev pub gateway_ref : Text → GatewayRef
gateway_ref name = record { namespace = connector_namespace; name = name }

abbrev pub empty_service : Service
empty_service = record {
  meta = record {
    namespace = [];
    name = [];
    resource_version = [];
    labels = [];
    finalizers = [];
    deleted = false;
  };
  spec = record { ports = []; selector = []; cluster_ip = [] };
}

-- The loops over the subsets and their addresses.
unfoldable pub all_addrs : List (List Text) → List Text
all_addrs [] = []
all_addrs (addrs ∷ subsets) = addrs ++ all_addrs subsets

module _ {C W : Type 0} (cl : Client C W) (parse_ipv6 : Text → Option (List ℕ)) where
  unfoldable pub get_endpoint_addrs : Text → Text → Exec W (List Text)
  unfolding all_addrs
  get_endpoint_addrs ns name = do
    found ← attempt (cl.get_endpoints (record { namespace = ns; name = name }))
    elim found [
      | ok ep ↦ pure (all_addrs ep.subsets)
      | err e ↦ if is_not_found e then pure [] else fail e
    ]

  -- The ports and the cluster IP of the service; those of the empty one where there is none.
  unfoldable pub get_source_service : Source → Exec W Service
  get_source_service src = do
    found ←
        attempt
          (cl.get_service (record { namespace = src.service.namespace; name = src.service.name }))
    elim found [ ok svc ↦ pure svc | err e ↦ if is_not_found e then pure empty_service else fail e ]

  unfoldable pub egress_sources :
      Text → List ServicePort → List Source → Dict Text → Exec W (List ForwarderRule × Dict Text)
  egress_sources target_ip ports [] used = pure ([], used)
  egress_sources target_ip ports (src ∷ sources) used = do
    name ← lift (get_rule_name parse_ipv6 src.source_ip)
    addrs ← get_endpoint_addrs src.service.namespace src.service.name
    (rules, used₁) ← lift (egress_ports target_ip src (gateway_ref name) addrs ports used)
    (more, used₂) ← egress_sources target_ip ports sources used₁
    pure (rules ++ more, used₂)

  unfoldable pub gen_forwarder_egress_rules :
      ExternalService → Dict Text → Exec W (List ForwarderRule × Dict Text)
  gen_forwarder_egress_rules cr used =
      egress_sources cr.spec.target_ip cr.spec.ports cr.spec.sources used

  unfoldable pub ingress_sources :
      Text → List Source → Dict (Dict Text) → Exec W (List ForwarderRule × Dict (Dict Text))
  ingress_sources target_ip [] used = pure ([], used)
  ingress_sources target_ip (src ∷ sources) used = do
    name ← lift (get_rule_name parse_ipv6 src.source_ip)
    svc ← get_source_service src
    (rules, used₁) ← lift (ingress_ports target_ip src (gateway_ref name) svc svc.spec.ports used)
    (more, used₂) ← ingress_sources target_ip sources used₁
    pure (rules ++ more, used₂)

  unfoldable pub gen_forwarder_ingress_rules :
      ExternalService → Dict (Dict Text) → Exec W (List ForwarderRule × Dict (Dict Text))
  gen_forwarder_ingress_rules cr used = ingress_sources cr.spec.target_ip cr.spec.sources used

unfoldable pub gateway_rule : {C : Type 0} → Forwarder C → ForwarderRule → GatewayRule
gateway_rule fwd rule = record {
  protocol = rule.protocol;
  source_ip = rule.source_ip;
  target_port = rule.target_port;
  destination_port = rule.destination_port;
  destination_ip = rule.destination_ip;
  forwarder = record { namespace = fwd.meta.namespace; name = fwd.meta.name };
  forwarder_ip = fwd.spec.forwarder_ip;
  relay_port = rule.relay_port;
}

-- `rule.Gateway.Namespace != gw.Namespace || rule.Gateway.Name != gw.Name`
pub is_unrelated : {C : Type 0} → ForwarderRule → Gateway C → Bool
is_unrelated rule gw =
    not (rule.gateway.namespace == gw.meta.namespace) || not (rule.gateway.name == gw.meta.name)

-- The inner loop of `genGatewayEgressRules` and `genGatewayIngressRules`.
pub rules_for_gateway :
    {C : Type 0} → Forwarder C → Gateway C → List ForwarderRule → List GatewayRule
unfolding gateway_rule is_unrelated
rules_for_gateway fwd gw [] = []
rules_for_gateway fwd gw (rule ∷ rules) =
    let rest = rules_for_gateway fwd gw rules in
    if is_unrelated rule gw then rest else gateway_rule fwd rule ∷ rest

unfoldable pub gen_gateway_egress_rules :
    {C : Type 0} → List (Forwarder C) → Gateway C → List GatewayRule
unfolding rules_for_gateway
gen_gateway_egress_rules [] gw = []
gen_gateway_egress_rules (fwd ∷ fwds) gw =
    rules_for_gateway fwd gw fwd.spec.egress_rules ++ gen_gateway_egress_rules fwds gw

unfoldable pub gen_gateway_ingress_rules :
    {C : Type 0} → List (Forwarder C) → Gateway C → List GatewayRule
unfolding rules_for_gateway
gen_gateway_ingress_rules [] gw = []
gen_gateway_ingress_rules (fwd ∷ fwds) gw =
    rules_for_gateway fwd gw fwd.spec.ingress_rules ++ gen_gateway_ingress_rules fwds gw

unfoldable pub unique_gateways : List ForwarderRule → Dict NamespacedName → Dict NamespacedName
unique_gateways [] found = found
unique_gateways (rule ∷ rules) found = unique_gateways rules (
    if has rule.gateway_ip found
    then found
    else insert rule.gateway_ip
        (record { namespace = rule.gateway.namespace; name = rule.gateway.name }) found)

unfoldable pub get_unique_gateway : List ForwarderRule → Dict NamespacedName
unfolding unique_gateways
get_unique_gateway rules = unique_gateways rules []

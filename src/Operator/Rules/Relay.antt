-- ===== src/Operator/Rules/Relay.antt =====
-- Relay ports of the generated rules.
use k8s_ext_connector.Prelude.{
  Text, ℕ, Option, some, List, [], ◌∷◌, ◌++◌, ◌≡◌, refl, ap, All, All-append, In, All-In, subst,
}
use k8s_ext_connector.Prelude.Dict.{Dict, lookup}
use k8s_ext_connector.Exec.{Result, ok, lift, >>=_step, bind_result-eq-ok}
use k8s_ext_connector.Util.Ip.{get_rule_name}
use k8s_ext_connector.Api.{ServicePort, Source, ExternalService, GatewayRef, ForwarderRule}
use k8s_ext_connector.Api.Client.{Client}
use k8s_ext_connector.Operator.Ports.{flow, gen_relay_port_for_egress}
use k8s_ext_connector.Operator.Ports.Assign.{
  Distinct, IsAssigned, IsAssigned-carries, IsAssigned-keeps, gen_relay_port_for_egress-IsAssigned,
}
use k8s_ext_connector.Operator.Rules.{
  egress_rule, egress_addrs, egress_ports, egress_sources, gateway_ref, get_endpoint_addrs,
  gen_forwarder_egress_rules,
}

-- The table gives each rule's relay port the rule's flow.
abbrev pub Carried : Dict Text → List ForwarderRule → Type 0
Carried table =
    All (λ rule. lookup rule.relay_port table ≡ some (flow rule.source_ip rule.target_port))

-- What the first table says, the second says too.
abbrev Keeps : Dict Text → Dict Text → Type 0
Keeps before after = (q v : Text) → lookup q before ≡ some v → lookup q after ≡ some v

Carried-Keeps :
    (before after : Dict Text) (rules : List ForwarderRule)
    → Keeps before after
    → Carried before rules
    → Carried after rules
Carried-Keeps before after [] k h = tt
Carried-Keeps before after (rule ∷ rules) k h =
    (k rule.relay_port _ h.0, Carried-Keeps before after rules k h.1)

-- What a stage of the generation does to the table.
record Stage (used : Dict Text) (rules : List ForwarderRule) (after : Dict Text) : Type 0 where
  carried : Carried after rules
  keeps : Keeps used after
  distinct : Distinct after

-- Two stages in a row.
Stage-append :
    (used mid after : Dict Text) (xs ys : List ForwarderRule)
    → Stage used xs mid
    → Stage mid ys after
    → Stage used (xs ++ ys) after
Stage-append used mid after xs ys s t = record {
  carried = All-append _ xs ys (Carried-Keeps mid after xs t.keeps s.carried) t.carried;
  keeps = λ q v e. t.keeps q v (s.keeps q v e);
  distinct = t.distinct;
}

Stage-equal :
    (used mid after : Dict Text) (xs rules : List ForwarderRule)
    → Stage used xs mid
    → ◌≡◌ {A = Result (List ForwarderRule × Dict Text)} (ok (xs, mid)) (ok (rules, after))
    → Stage used rules after
Stage-equal used mid after xs rules s h =
    subst (λ x. Stage used x after) (cc h) (subst (λ t. Stage used xs t) (cc h) s)

Stage-nil : (used : Dict Text) → Distinct used → Stage used [] used
Stage-nil used d = record { carried = tt; keeps = λ q v e. e; distinct = d }

-- The call's port goes into one rule of its flow.
Stage-cons :
    (used after : Dict Text) (rule : ForwarderRule) (port : Text)
    → rule.relay_port ≡ port
    → IsAssigned (flow rule.source_ip rule.target_port) used port after
    → Stage used (rule ∷ []) after
Stage-cons used after rule port e a = record {
  carried = (rw e (IsAssigned-carries a), tt);
  keeps = IsAssigned-keeps a;
  distinct = a.distinct;
}

egress_addrs-Stage :
    (target_ip : Text) (src : Source) (gw : GatewayRef) (port : ServicePort) (addrs : List Text)
    (used : Dict Text) (rules : List ForwarderRule) (after : Dict Text)
    → Distinct used
    → egress_addrs target_ip src gw port addrs used ≡ ok (rules, after)
    → Stage used rules after
unfolding egress_addrs egress_rule
egress_addrs-Stage target_ip src gw port [] used rules after d h =
    Stage-equal used used after [] rules (Stage-nil used d) h
egress_addrs-Stage target_ip src gw port (addr ∷ addrs) used rules after d h =
    let (got, e, h₁) =
      bind_result-eq-ok (gen_relay_port_for_egress addr port.target_port used) _ h in
    let (more, e', h₂) = bind_result-eq-ok (egress_addrs target_ip src gw port addrs got.1) _ h₁ in
    let rule = egress_rule target_ip src gw port addr got.0 in
    let a = gen_relay_port_for_egress-IsAssigned addr port.target_port used d e in
    Stage-equal used more.1 after (rule ∷ more.0) rules
      (Stage-append used got.1 more.1 (rule ∷ []) more.0 (Stage-cons used got.1 rule got.0 refl a)
        (egress_addrs-Stage target_ip src gw port addrs got.1 more.0 more.1 a.distinct e'))
      h₂

egress_ports-Stage :
    (target_ip : Text) (src : Source) (gw : GatewayRef) (addrs : List Text)
    (ports : List ServicePort) (used : Dict Text) (rules : List ForwarderRule) (after : Dict Text)
    → Distinct used
    → egress_ports target_ip src gw addrs ports used ≡ ok (rules, after)
    → Stage used rules after
unfolding egress_ports
egress_ports-Stage target_ip src gw addrs [] used rules after d h =
    Stage-equal used used after [] rules (Stage-nil used d) h
egress_ports-Stage target_ip src gw addrs (port ∷ ports) used rules after d h =
    let (got, e, h₁) = bind_result-eq-ok (egress_addrs target_ip src gw port addrs used) _ h in
    let (more, e', h₂) = bind_result-eq-ok (egress_ports target_ip src gw addrs ports got.1) _ h₁ in
    let s = egress_addrs-Stage target_ip src gw port addrs used got.0 got.1 d e in
    Stage-equal used more.1 after (got.0 ++ more.0) rules
      (Stage-append used got.1 more.1 got.0 more.0 s
        (egress_ports-Stage target_ip src gw addrs ports got.1 more.0 more.1 s.distinct e'))
      h₂

module _ {C W : Type 0} (cl : Client C W) (parse_ipv6 : Text → Option (List ℕ)) where
  egress_sources-Stage :
      (target_ip : Text) (ports : List ServicePort) (sources : List Source) (used : Dict Text)
      (rules : List ForwarderRule) (after : Dict Text) (w : W)
      → Distinct used
      → (egress_sources cl parse_ipv6 target_ip ports sources used w).0 ≡ ok (rules, after)
      → Stage used rules after
  unfolding egress_sources
  egress_sources-Stage target_ip ports [] used rules after w d h =
      Stage-equal used used after [] rules (Stage-nil used d) h
  egress_sources-Stage target_ip ports (src ∷ sources) used rules after w d h =
      let (name, e, h₁) = >>=_step (lift (get_rule_name parse_ipv6 src.source_ip)) _ w h in
      let addrs_of = get_endpoint_addrs cl parse_ipv6 src.service.namespace src.service.name in
      let (addrs, e₁, h₂) = >>=_step addrs_of _ w h₁ in
      let w₁ = (addrs_of w).1 in
      let (got, e₂, h₃) =
        >>=_step (lift (egress_ports target_ip src (gateway_ref name) addrs ports used)) _ w₁ h₂ in
      let (more, e₃, h₄) =
        >>=_step (egress_sources cl parse_ipv6 target_ip ports sources got.1) _ w₁ h₃ in
      let s =
        egress_ports-Stage target_ip src (gateway_ref name) addrs ports used got.0 got.1 d e₂ in
      Stage-equal used more.1 after (got.0 ++ more.0) rules
        (Stage-append used got.1 more.1 got.0 more.0 s
          (egress_sources-Stage target_ip ports sources got.1 more.0 more.1 w₁ s.distinct e₃))
        h₄

  module _ (cr : ExternalService) (used : Dict Text) (w : W) (rules : List ForwarderRule)
      (after : Dict Text) (d : Distinct used)
      (h : (gen_forwarder_egress_rules cl parse_ipv6 cr used w).0 ≡ ok (rules, after)) where
    stage : Stage used rules after
    unfolding gen_forwarder_egress_rules
    stage =
        egress_sources-Stage cr.spec.target_ip cr.spec.ports cr.spec.sources used rules after w d h

    -- Of the rules that `genForwarderEgressRules` returns for a Go map of used ports, two that share
    -- a relay port carry the same `sourceIP:targetPort`.
    pub gen_forwarder_egress_rules-relay :
        (r s : ForwarderRule)
        → In r rules
        → In s rules
        → r.relay_port ≡ s.relay_port
        → flow r.source_ip r.target_port ≡ flow s.source_ip s.target_port
    gen_forwarder_egress_rules-relay r s m m' e =
        let c = All-In _ r rules stage.carried m in
        let c' = All-In _ s rules stage.carried m' in cc (c, c', ap (λ p. lookup p after) e)

    -- When `genForwarderEgressRules` succeeds for a Go map of used ports, a relay port that the map
    -- gave to a flow is given to rules of that flow only.
    pub gen_forwarder_egress_rules-used :
        (r : ForwarderRule) (v : Text)
        → In r rules
        → lookup r.relay_port used ≡ some v
        → v ≡ flow r.source_ip r.target_port
    gen_forwarder_egress_rules-used r v m e =
        cc (All-In _ r rules stage.carried m, stage.keeps r.relay_port v e)

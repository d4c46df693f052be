-- ===== src/Operator/Update/Paired.antt =====
-- The gateways of generated ingress rules (`genForwarderIngressRules` of
-- pkg/controller/externalservice/reconciler.go).
use k8s_ext_connector.Prelude.{
  Text, ℕ, Option, List, [], ◌∷◌, ◌≡◌, ◌≢◌, ◌⊎◌, refl, subst, sym, ap, ◌∙◌, inl, inr, In, All,
  All-In, All-append, All-pointwise,
}
use k8s_ext_connector.Prelude.Dict.{Dict}
use k8s_ext_connector.Exec.{ok, ok-injective, lift, >>=_step, bind_result-eq-ok}
use k8s_ext_connector.Util.Decimal.{itoa}
use k8s_ext_connector.Util.Ip.{get_rule_name}
use k8s_ext_connector.Util.Ip.Names.{ipv4_address, ReadsBytes, get_rule_name-injective}
use k8s_ext_connector.Api.{
  NamespacedName, ServicePort, Source, ExternalService, ForwarderRule, Service,
}
use k8s_ext_connector.Api.Client.{Client}
use k8s_ext_connector.Operator.Names.{connector_namespace}
use k8s_ext_connector.Operator.Ports.{gen_relay_port_for_ingress}
use k8s_ext_connector.Operator.Rules.{
  gateway_ref, ingress_rule, ingress_ports, ingress_sources, get_source_service,
  gen_forwarder_ingress_rules,
}
use k8s_ext_connector.Operator.Update.Apart.{IsPaired}

module _ (parse_ipv6 : Text → Option (List ℕ)) where
  -- Sources that stand for one IPv4 address write it alike.
  abbrev pub IsWrittenAlike : List Source → Type 0
  IsWrittenAlike sources =
      All
        (λ s.
          All
            (λ t.
              (ipv4_address parse_ipv6 s.source_ip ≢ ipv4_address parse_ipv6 t.source_ip)
              ⊎ (s.source_ip ≡ t.source_ip))
            sources)
        sources

  -- The rule's gateway has the name of the rule's address, which is that of a source.
  abbrev IsNamed : List Source → ForwarderRule → Type 0
  IsNamed sources r =
      (r.gateway.namespace ≡ connector_namespace)
      × (get_rule_name parse_ipv6 r.gateway_ip ≡ ok r.gateway.name)
      × ((src : Source) × In src sources × (r.gateway_ip ≡ src.source_ip))

  ingress_ports-IsNamed :
      (all : List Source) (target_ip name : Text) (src : Source) (svc : Service)
      (ports : List ServicePort) (used after : Dict (Dict Text)) (rules : List ForwarderRule)
      → In src all
      → get_rule_name parse_ipv6 src.source_ip ≡ ok name
      → ingress_ports target_ip src (gateway_ref name) svc ports used ≡ ok (rules, after)
      → All (IsNamed all) rules
  unfolding ingress_ports ingress_rule
  ingress_ports-IsNamed all target_ip name src svc [] used after rules i e h =
      subst (All (IsNamed all)) (ap (λ r. r.0) (ok-injective h)) tt
  ingress_ports-IsNamed all target_ip name src svc (port ∷ ports) used after rules i e h =
      let (got, _, h') =
        bind_result-eq-ok
          (gen_relay_port_for_ingress target_ip (itoa port.port) (gateway_ref name).name used) _
          h in
      let (more, rest, h'') =
        bind_result-eq-ok (ingress_ports target_ip src (gateway_ref name) svc ports got.1) _ h' in
      subst (All (IsNamed all)) (ap (λ r. r.0) (ok-injective h'')) (
        (refl, e, (src, i, refl)),
        ingress_ports-IsNamed all target_ip name src svc ports got.1 more.1 more.0 i e rest,
      )

  module _ {C W : Type 0} (cl : Client C W) where
    ingress_sources-IsNamed :
        (all : List Source) (target_ip : Text) (sources : List Source)
        (used after : Dict (Dict Text)) (rules : List ForwarderRule) (w : W)
        → All (λ src. In src all) sources
        → (ingress_sources cl parse_ipv6 target_ip sources used w).0 ≡ ok (rules, after)
        → All (IsNamed all) rules
    unfolding ingress_sources
    ingress_sources-IsNamed all target_ip [] used after rules w i h =
        subst (All (IsNamed all)) (ap (λ r. r.0) (ok-injective h)) tt
    ingress_sources-IsNamed all target_ip (src ∷ sources) used after rules w i h =
        let (name, e, h₁) = >>=_step (lift (get_rule_name parse_ipv6 src.source_ip)) _ w h in
        let (svc, _, h₂) = >>=_step (get_source_service cl parse_ipv6 src) _ w h₁ in
        let w₁ = (get_source_service cl parse_ipv6 src w).1 in
        let (got, e₂, h₃) =
          >>=_step (lift (ingress_ports target_ip src (gateway_ref name) svc svc.spec.ports used)) _
            w₁ h₂ in
        let (more, e₃, h₄) =
          >>=_step (ingress_sources cl parse_ipv6 target_ip sources got.1) _ w₁ h₃ in
        subst (All (IsNamed all)) (ap (λ r. r.0) (ok-injective h₄)) (
          All-append (IsNamed all) got.0 more.0
            (ingress_ports-IsNamed all target_ip name src svc svc.spec.ports used got.1 got.0 i.0 e
              e₂)
            (ingress_sources-IsNamed all target_ip sources got.1 more.1 more.0 w₁ i.1 e₃))

    pub gen_forwarder_ingress_rules-IsPaired :
        (cr : ExternalService) (used after : Dict (Dict Text)) (rules : List ForwarderRule) (w : W)
        → ReadsBytes parse_ipv6
        → IsWrittenAlike cr.spec.sources
        → (gen_forwarder_ingress_rules cl parse_ipv6 cr used w).0 ≡ ok (rules, after)
        → IsPaired rules
    unfolding gen_forwarder_ingress_rules
    gen_forwarder_ingress_rules-IsPaired cr used after rules w reads alike h =
        let sources = cr.spec.sources in
        let named =
          ingress_sources-IsNamed sources cr.spec.target_ip sources used after rules w
            (All-pointwise (λ src. In src sources) sources (λ src i. i)) h in
        All-pointwise _ rules λ r i. All-pointwise _ rules λ s j.
          let (ns, name, (src, m, ip)) = All-In _ r rules named i in
          let (ns', name', (src', m', ip')) = All-In _ s rules named j in
          (
            λ e.
                let same : r.gateway.name ≡ s.gateway.name =
                  ok-injective (sym name ∙ ap (get_rule_name parse_ipv6) e ∙ name') in
                ap (λ x. record { namespace = x; name = r.gateway.name }) (ns ∙ sym ns')
                ∙ ap (λ x. record { namespace = s.gateway.namespace; name = x }) same,
            λ e.
                let same = ap (λ (n : NamespacedName). n.name) e in
                let (b, read, read') =
                  get_rule_name-injective parse_ipv6 r.gateway_ip s.gateway_ip s.gateway.name reads
                    (name ∙ ap ok same) name' in
                let f = ipv4_address parse_ipv6 in
                elim (All-In _ src' sources (All-In _ src sources alike m) m') [
                  | inl differ ↦ absurd (differ (sym (ap f ip) ∙ read ∙ sym read' ∙ ap f ip'))
                  | inr written ↦ ip ∙ written ∙ sym ip'
                ],
          )

-- ===== src/Operator/Update/Generated.antt =====
-- The generation of a forwarder's rules reads, and stores nothing
-- (pkg/controller/externalservice/reconciler.go).
use k8s_ext_connector.Prelude.{
  Text, ℕ, Bool, true, false, Option, List, [], ◌∷◌, refl, ◌∙◌, if◌then◌else◌,
}
use k8s_ext_connector.Prelude.Dict.{Dict}
use k8s_ext_connector.Exec.{
  Error, Result, ok, err, pure, fail, lift, is_not_found, Leaves, >>=_leaves,
}
use k8s_ext_connector.Util.Ip.{get_rule_name}
use k8s_ext_connector.Api.{NamespacedName, ServicePort, Source, ExternalService}
use k8s_ext_connector.Api.Client.{Client}
use k8s_ext_connector.Operator.Rules.{
  gateway_ref, all_addrs, empty_service, egress_ports, ingress_ports, get_endpoint_addrs,
  get_source_service, egress_sources, ingress_sources, gen_forwarder_egress_rules,
  gen_forwarder_ingress_rules,
}

module _ {C W X : Type 0} (cl : Client C W) (parse_ipv6 : Text → Option (List ℕ)) (f : W → X)
    (endpoints : (n : NamespacedName) → Leaves f (cl.get_endpoints n))
    (service : (n : NamespacedName) → Leaves f (cl.get_service n)) where
  or_default_leaves :
      {B : Type 0} (missing : Bool) (e : Error) (d : B)
      → Leaves f (if missing then pure d else fail e)
  or_default_leaves true e d = λ w. refl
  or_default_leaves false e d = λ w. refl

  found_leaves :
      {A B : Type 0} (r : Result A) (good : A → B) (d : B)
      → Leaves f
          (elim r [ ok a ↦ pure (good a) | err e ↦ if is_not_found e then pure d else fail e ])
  found_leaves (ok a) good d = λ w. refl
  found_leaves (err e) good d = or_default_leaves (is_not_found e) e d

  get_endpoint_addrs_leaves : (ns name : Text) → Leaves f (get_endpoint_addrs cl parse_ipv6 ns name)
  unfolding get_endpoint_addrs
  get_endpoint_addrs_leaves ns name w =
      let n : NamespacedName = record { namespace = ns; name = name } in
      found_leaves (cl.get_endpoints n w).0 (λ ep. all_addrs ep.subsets) [] (cl.get_endpoints n w).1
      ∙ endpoints n w

  get_source_service_leaves : (src : Source) → Leaves f (get_source_service cl parse_ipv6 src)
  unfolding get_source_service
  get_source_service_leaves src w =
      let n : NamespacedName = record {
        namespace = src.service.namespace;
        name = src.service.name;
      } in
      found_leaves (cl.get_service n w).0 (λ svc. svc) empty_service (cl.get_service n w).1
      ∙ service n w

  egress_sources_leaves :
      (target_ip : Text) (ports : List ServicePort) (sources : List Source) (used : Dict Text)
      → Leaves f (egress_sources cl parse_ipv6 target_ip ports sources used)
  unfolding egress_sources
  egress_sources_leaves target_ip ports [] used = λ w. refl
  egress_sources_leaves target_ip ports (src ∷ sources) used =
      >>=_leaves f (lift (get_rule_name parse_ipv6 src.source_ip)) _ (λ w. refl)
        λ name.
          >>=_leaves f (get_endpoint_addrs cl parse_ipv6 src.service.namespace src.service.name) _
            (get_endpoint_addrs_leaves src.service.namespace src.service.name)
            λ addrs.
              >>=_leaves f (lift (egress_ports target_ip src (gateway_ref name) addrs ports used)) _
                (λ w. refl)
                λ got.
                  >>=_leaves f (egress_sources cl parse_ipv6 target_ip ports sources got.1) _
                    (egress_sources_leaves target_ip ports sources got.1) λ more. λ w. refl

  ingress_sources_leaves :
      (target_ip : Text) (sources : List Source) (used : Dict (Dict Text))
      → Leaves f (ingress_sources cl parse_ipv6 target_ip sources used)
  unfolding ingress_sources
  ingress_sources_leaves target_ip [] used = λ w. refl
  ingress_sources_leaves target_ip (src ∷ sources) used =
      >>=_leaves f (lift (get_rule_name parse_ipv6 src.source_ip)) _ (λ w. refl)
        λ name.
          >>=_leaves f (get_source_service cl parse_ipv6 src) _ (get_source_service_leaves src)
            λ svc.
              >>=_leaves f
                (lift (ingress_ports target_ip src (gateway_ref name) svc svc.spec.ports used)) _
                (λ w. refl)
                λ got.
                  >>=_leaves f (ingress_sources cl parse_ipv6 target_ip sources got.1) _
                    (ingress_sources_leaves target_ip sources got.1) λ more. λ w. refl

  pub gen_forwarder_egress_rules_leaves :
      (cr : ExternalService) (used : Dict Text)
      → Leaves f (gen_forwarder_egress_rules cl parse_ipv6 cr used)
  unfolding gen_forwarder_egress_rules
  gen_forwarder_egress_rules_leaves cr used =
      egress_sources_leaves cr.spec.target_ip cr.spec.ports cr.spec.sources used

  pub gen_forwarder_ingress_rules_leaves :
      (cr : ExternalService) (used : Dict (Dict Text))
      → Leaves f (gen_forwarder_ingress_rules cl parse_ipv6 cr used)
  unfolding gen_forwarder_ingress_rules
  gen_forwarder_ingress_rules_leaves cr used =
      ingress_sources_leaves cr.spec.target_ip cr.spec.sources used

-- ===== src/Operator/Update/Forwarders.antt =====
-- What `updateForwarderRules` of pkg/controller/externalservice/reconciler.go leaves stored.
use k8s_ext_connector.Prelude.{
  Text, ℕ, Option, true, some, none, List, ◌==◌, eq_iff, ◌≡◌, ◌≢◌, ◌⊎◌, refl, sym, ap, ◌∙◌, subst,
  arith, inl, inr, Bool-cases, nat_eq, nat_eq_iff, All, All-pointwise,
}
use k8s_ext_connector.Prelude.Dict.{Dict}
use k8s_ext_connector.Exec.{ok, >>=_ran}
use k8s_ext_connector.Api.{ExternalService, ForwarderRule, ForwarderSpec, Forwarder}
use k8s_ext_connector.Api.Client.{Client}
use k8s_ext_connector.Api.Conditions.{Conditions, ConditionLaws, rule_updating}
use k8s_ext_connector.Operator.Names.{connector_namespace}
use k8s_ext_connector.Operator.Ports.{flow, gen_used_ports_for_egress}
use k8s_ext_connector.Operator.Ports.Assign.{Distinct}
use k8s_ext_connector.Operator.Ports.Reuse.{
  gen_used_ports_for_egress-Distinct, gen_used_ports_for_egress_same,
}
use k8s_ext_connector.Operator.Rules.{gen_forwarder_egress_rules}
use k8s_ext_connector.Operator.Rules.Relay.{gen_forwarder_egress_rules-relay}
use k8s_ext_connector.Operator.Update.Store.{forwarder_kind, Store}
use k8s_ext_connector.Operator.Update.Found.{Reads, get_or_create-Got}
use k8s_ext_connector.Operator.Update.Begin.{IsHandedOver, begin-Begun}
use k8s_ext_connector.Operator.Update.Written.{
  forwarder_laws, OthersRead, Generated, write_pod, write_pod-IsHandedOver,
}
use k8s_ext_connector.Operator.Update.{
  next_generation, owner_name, new_forwarder, get_or_create_forwarder, begin_forwarder,
  update_forwarder_rules,
}
use k8s_ext_connector.Forwarder.Status.{need_sync}

-- Two rules that share a relay port carry one `sourceIP:targetPort`.
abbrev pub IsOneFlow : List ForwarderRule → Type 0
IsOneFlow rules =
    All
      (λ r.
        All
          (λ s.
            (r.relay_port ≢ s.relay_port)
            ⊎ (flow r.source_ip r.target_port ≡ flow s.source_ip s.target_port))
          rules)
      rules

module _ {C W : Type 0} (K : Conditions C) (L : ConditionLaws K) (no_conditions : C)
    (cl : Client C W) (parse_ipv6 : Text → Option (List ℕ))
    (S : Store forwarder_kind cl.update_forwarder cl.update_forwarder_status) where
  handed-need_sync :
      (fwd s : Forwarder C) (spec : ForwarderSpec)
      → IsHandedOver K L forwarder_kind forwarder_laws S fwd spec s
      → (fwd.status.sync_generation ≡ next_generation fwd.status.rule_generation)
        ⊎ (need_sync K s ≡ true)
  unfolding need_sync
  handed-need_sync fwd s spec d =
      elim (Bool-cases (nat_eq s.status.rule_generation s.status.sync_generation)) [
        | inl same ↦
            let equal = (nat_eq_iff s.status.rule_generation s.status.sync_generation).0 same in
            inl (sym d.sync_generation ∙ sym equal ∙ d.rule_generation)
        | inr other ↦
            inr (ground (arith, other, d.updating, L.false_lem rule_updating s.status.conditions))
      ]

  gen_forwarder_egress_rules-IsOneFlow :
      (cr : ExternalService) (used after : Dict Text) (w : W) (rules : List ForwarderRule)
      → Distinct used
      → (gen_forwarder_egress_rules cl parse_ipv6 cr used w).0 ≡ ok (rules, after)
      → IsOneFlow rules
  gen_forwarder_egress_rules-IsOneFlow cr used after w rules d h = All-pointwise _ rules λ r i.
      All-pointwise _ rules λ s j. elim (Bool-cases (r.relay_port == s.relay_port)) [
        | inl same ↦ inr (
            gen_forwarder_egress_rules-relay cl parse_ipv6 cr used w rules after d h r s i j
              ((eq_iff r.relay_port s.relay_port).0 same))
        | inr other ↦ inl (λ e. absurd (let b = (eq_iff r.relay_port s.relay_port).1 e in cc))
      ]

  -- The forwarder of the resource was handed over, from what `start` stores under its name or from
  -- a new one, with the pod's address and the rules generated beside the relay ports that it used.
  pub record IsHandedForwarder (cr : ExternalService) (start w : W) : Type 0 where
    pub before : Forwarder C
    pub namespace : before.meta.namespace ≡ connector_namespace
    pub name : before.meta.name ≡ cr.meta.name
    pub existed :
        (S.stored connector_namespace cr.meta.name start ≡ some before)
        ⊎ (S.stored connector_namespace cr.meta.name start ≡ none)
    pub spec : ForwarderSpec
    pub generated :
        Generated K L no_conditions cl parse_ipv6 S cr
          (gen_used_ports_for_egress before)
          spec
          (begin_forwarder K no_conditions cl before
            (get_or_create_forwarder K no_conditions cl (owner_name cr) start).1).1
    pub one_flow : IsOneFlow spec.egress_rules
    pub after : Forwarder C
    pub here : S.stored connector_namespace cr.meta.name w ≡ some after
    pub handed : IsHandedOver K L forwarder_kind forwarder_laws S before spec after
    pub synchronised :
        (before.status.sync_generation ≡ next_generation before.status.rule_generation)
        ⊎ (need_sync K after ≡ true)

  -- When updateForwarderRules succeeds, the pod of the resource has an address, and the forwarder
  -- of the resource is stored with that address, the egress rules generated beside the relay ports
  -- that it used, the ingress rules generated beside those that the gateways listed use,
  -- RuleUpdating false, RuleSyncing unknown and the rule generation after the one that it had, or
  -- that the one created had where there was none; unless that is its sync generation, the
  -- forwarder program synchronises it. Two of its egress rules that share a relay port carry the
  -- same sourceIP:targetPort.
  pub update_forwarder_rules-IsHanded :
      (R : Reads forwarder_kind S cl.get_forwarder cl.create_forwarder)
      (E : OthersRead K L no_conditions cl parse_ipv6 S) (cr : ExternalService) (w : W)
      → (update_forwarder_rules K no_conditions cl parse_ipv6 cr w).0 ≡ ok tt
      → IsHandedForwarder cr w (update_forwarder_rules K no_conditions cl parse_ipv6 cr w).1
  unfolding update_forwarder_rules get_or_create_forwarder begin_forwarder
  update_forwarder_rules-IsHanded R E cr w h =
      let n = owner_name cr in
      let (o, got, same) = >>=_ran (get_or_create_forwarder K no_conditions cl n) _ w h in
      let w₁ = (get_or_create_forwarder K no_conditions cl n w).1 in
      let (current, ns, nm, existed, _) =
        get_or_create-Got forwarder_kind S cl.get_forwarder cl.create_forwarder n
          (new_forwarder K no_conditions cl n.namespace n.name) w o R refl refl got in
      let (g, began, same') =
        >>=_ran (begin_forwarder K no_conditions cl o)
          (write_pod K L no_conditions cl parse_ipv6 S cr) w₁ (ap (λ r. r.0) (sym same) ∙ h) in
      let w₂ = (begin_forwarder K no_conditions cl o w₁).1 in
      let own =
        λ (v : W). ap (λ x. S.stored x o.meta.name v) ns ∙ ap (λ x. S.stored n.namespace x v) nm in
      let (s, b) = begin-Begun K L forwarder_kind forwarder_laws S o g w₁ current began in
      let ran = same ∙ same' in
      let (spec, generated, (s₃, here, d, was)) =
        write_pod-IsHandedOver K L no_conditions cl parse_ipv6 S E cr o g s w₁ w₂ b
          (ap (λ r. r.0) (sym ran) ∙ h) in
      let used = gen_used_ports_for_egress_same g o b.spec in
      let made =
        subst (λ u. Generated K L no_conditions cl parse_ipv6 S cr u spec w₂) used generated in
      let end = (write_pod K L no_conditions cl parse_ipv6 S cr g w₂).1 in
      record {
        before = o;
        namespace = ns;
        name = nm;
        existed = existed (sym (own w₁) ∙ was);
        spec = spec;
        generated = made;
        one_flow =
            gen_forwarder_egress_rules-IsOneFlow cr (gen_used_ports_for_egress o)
              made.rules.egress_used (cl.get_pod n w₂).1 spec.egress_rules
              (gen_used_ports_for_egress-Distinct o) made.rules.egress;
        after = s₃;
        here = ap (λ r. S.stored connector_namespace cr.meta.name r.1) ran ∙ sym (own end) ∙ here;
        handed = d;
        synchronised = handed-need_sync o s₃ spec d;
      }

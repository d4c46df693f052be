-- ===== src/Operator/Update/Handover.antt =====
-- What `updateRulesForOneGateway` of pkg/controller/externalservice/reconciler.go leaves stored.
use k8s_ext_connector.Prelude.{
  Text, true, some, List, ◌≡◌, ◌⊎◌, refl, sym, ap, ◌∙◌, subst, arith, inl, inr, Bool-cases, nat_eq,
  nat_eq_iff,
}
use k8s_ext_connector.Exec.{ok, >>=_ran}
use k8s_ext_connector.Api.{Forwarder, Gateway, GatewaySpec}
use k8s_ext_connector.Api.Client.{Client}
use k8s_ext_connector.Api.Conditions.{Conditions, ConditionLaws, rule_updating}
use k8s_ext_connector.Operator.Rules.{gen_gateway_egress_rules, gen_gateway_ingress_rules}
use k8s_ext_connector.Operator.Rules.Gateways.{
  gen_gateway_egress_rules-named, gen_gateway_ingress_rules-named,
}
use k8s_ext_connector.Operator.Update.Store.{KindLaws, gateway_kind, Store, IsCurrent}
use k8s_ext_connector.Operator.Update.Begin.{IsHandedOver, begin-Begun, written-IsHandedOver}
use k8s_ext_connector.Operator.Update.{
  next_generation, begin_gateway, set_gateway_rules, finish_gateway, update_rules_for_one_gateway,
}
use k8s_ext_connector.Gateway.Status.{need_sync}

pub gateway_laws : {C : Type 0} → KindLaws {C = C} gateway_kind
gateway_laws = record {
  namespace_lem = λ c n o. refl;
  name_lem = λ c n o. refl;
  spec_lem = λ c n o. refl;
  conditions_lem = λ c n o. refl;
  rule_generation_lem = λ c n o. refl;
  sync_generation_lem = λ c n o. refl;
  version_lem = λ c n o. refl;
}

-- The spec that is to be written.
abbrev pub wanted : {C : Type 0} → List (Forwarder C) → Gateway C → Text → GatewaySpec
wanted fwds gw gw_ip = record {
  egress_rules = gen_gateway_egress_rules fwds gw;
  ingress_rules = gen_gateway_ingress_rules fwds gw;
  gateway_ip = gw_ip;
}

pub wanted-named :
    {C : Type 0} (fwds : List (Forwarder C)) (g gw : Gateway C) (gw_ip : Text)
    → g.meta.namespace ≡ gw.meta.namespace
    → g.meta.name ≡ gw.meta.name
    → wanted fwds g gw_ip ≡ wanted fwds gw gw_ip
wanted-named fwds g gw gw_ip en em =
    rw
      (
        gen_gateway_egress_rules-named g gw en em fwds,
        gen_gateway_ingress_rules-named g gw en em fwds,
      )
      refl

module _ {C W : Type 0} (K : Conditions C) (L : ConditionLaws K) (no_conditions : C)
    (cl : Client C W) (S : Store gateway_kind cl.update_gateway cl.update_gateway_status) where
  -- The gateway is handed over with these rules, and is one that the gateway program synchronises
  -- unless the sync generation is already the one that the rules got.
  abbrev pub IsHandedGateway : Gateway C → GatewaySpec → Gateway C → Type 0
  IsHandedGateway gw spec s =
      IsHandedOver K L gateway_kind gateway_laws S gw spec s
      × ((gw.status.sync_generation ≡ next_generation gw.status.rule_generation)
          ⊎ (need_sync K s ≡ true))

  handed-need_sync :
      (gw s : Gateway C) (spec : GatewaySpec)
      → IsHandedOver K L gateway_kind gateway_laws S gw spec s
      → (gw.status.sync_generation ≡ next_generation gw.status.rule_generation)
        ⊎ (need_sync K s ≡ true)
  unfolding need_sync
  handed-need_sync gw s spec d =
      elim (Bool-cases (nat_eq s.status.rule_generation s.status.sync_generation)) [
        | inl same ↦
            let equal = (nat_eq_iff s.status.rule_generation s.status.sync_generation).0 same in
            inl (sym d.sync_generation ∙ sym equal ∙ d.rule_generation)
        | inr other ↦
            inr (ground (arith, other, d.updating, L.false_lem rule_updating s.status.conditions))
      ]

  -- When `updateRulesForOneGateway` succeeds for a gateway that was read, perhaps from a cache, that
  -- gateway was the stored one, and it is then stored with the rules generated for it and the
  -- address given, RuleUpdating false, RuleSyncing unknown, the next rule generation and the sync
  -- generation that it had; and unless that is the rule generation that it got, it is one that the
  -- gateway program synchronises.
  pub update_rules_for_one_gateway-IsHandedOver :
      (fwds : List (Forwarder C)) (gw : Gateway C) (gw_ip : Text) (w : W)
      → IsCurrent gateway_kind S gw w
      → (update_rules_for_one_gateway K no_conditions cl fwds gw gw_ip w).0 ≡ ok tt
      → (s : Gateway C) × (S.stored gw.meta.namespace gw.meta.name
            (update_rules_for_one_gateway K no_conditions cl fwds gw gw_ip w).1
          ≡ some s)
        × IsHandedGateway gw (wanted fwds gw gw_ip) s
        × (S.stored gw.meta.namespace gw.meta.name w ≡ some gw)
  unfolding update_rules_for_one_gateway set_gateway_rules begin_gateway finish_gateway
  update_rules_for_one_gateway-IsHandedOver fwds gw gw_ip w e h =
      let (g, began, same) = >>=_ran (begin_gateway K no_conditions cl gw) _ w h in
      let (s, b) = begin-Begun K L gateway_kind gateway_laws S gw g w e began in
      let w₁ = (begin_gateway K no_conditions cl gw w).1 in
      let given = set_gateway_rules K no_conditions cl fwds gw_ip g in
      let (g₂, updated, same') =
        >>=_ran (cl.update_gateway given) (finish_gateway K no_conditions cl) w₁
          (ap (λ r. r.0) (sym same) ∙ h) in
      let ran = ap (λ r. r.0) (sym same') ∙ ap (λ r. r.0) (sym same) ∙ h in
      let (s₃, at, d, was) =
        written-IsHandedOver K L gateway_kind gateway_laws S gw g s g₂ given w w₁ b (refl, refl)
          refl updated ran in
      let spec = wanted-named fwds g gw gw_ip b.names.0 b.names.1 in
      let handed = subst (λ x. IsHandedOver K L gateway_kind gateway_laws S gw x s₃) spec d in
      (
        s₃,
        ap (λ r. S.stored gw.meta.namespace gw.meta.name r.1) (same ∙ same') ∙ at,
        (handed, handed-need_sync gw s₃ (wanted fwds gw gw_ip) handed),
        was,
      )

-- ===== src/Operator/Update/Ingress.antt =====
-- What `updateGatewayRules` of pkg/controller/externalservice/reconciler.go leaves stored.
use k8s_ext_connector.Prelude.{List, ◌≡◌, ◌⊎◌, sym, ap, ◌∙◌, inl, inr, In}
use k8s_ext_connector.Exec.{ok, ok-injective, >>=_ran}
use k8s_ext_connector.Api.{NamespacedName, ExternalService, ForwarderRule, Forwarder}
use k8s_ext_connector.Api.Client.{Client}
use k8s_ext_connector.Api.Conditions.{Conditions, ConditionLaws}
use k8s_ext_connector.Operator.Rules.{get_unique_gateway}
use k8s_ext_connector.Operator.Rules.Unique.{gateway_of}
use k8s_ext_connector.Operator.Update.Store.{gateway_kind, Store}
use k8s_ext_connector.Operator.Update.Found.{Reads}
use k8s_ext_connector.Operator.Update.Apart.{
  IsPaired, get_unique_gateway-AllApart, get_unique_gateway-In, get_unique_gateway-cases,
}
use k8s_ext_connector.Operator.Update.Gateways.{
  at_, IsHanded, IsHanded-at, update_each_gateway-IsHanded,
}
use k8s_ext_connector.Operator.Update.{owner_name, update_each_gateway, update_gateway_rules}

module _ {C W : Type 0} (K : Conditions C) (L : ConditionLaws K) (no_conditions : C)
    (cl : Client C W) (S : Store gateway_kind cl.update_gateway cl.update_gateway_status)
    (R : Reads gateway_kind S cl.get_gateway cl.create_gateway)
    (get_keeps : (n m : NamespacedName) (w : W)
      → S.stored m.namespace m.name (cl.get_forwarder n w).1 ≡ S.stored m.namespace m.name w)
    (list_keeps : (m : NamespacedName) (w : W)
      → S.stored m.namespace m.name (cl.list_forwarders w).1 ≡ S.stored m.namespace m.name w) where
  -- When updateGatewayRules succeeds, and the ingress rules of the forwarder that it reads have
  -- one address where they have one gateway, each gateway that one of these rules names is stored
  -- with the rules generated for it from the forwarders listed, that rule's address, RuleUpdating
  -- false, RuleSyncing unknown and the rule generation after the one that it had, or that the one
  -- created had where there was none; unless that is its sync generation, the gateway program
  -- synchronises it. A gateway that no ingress rule of the forwarder names stays as it was stored.
  pub update_gateway_rules-IsHanded :
      (cr : ExternalService) (fwd : Forwarder C) (fwds : List (Forwarder C)) (rule : ForwarderRule)
      (m : NamespacedName) (w : W)
      → (cl.get_forwarder (owner_name cr) w).0 ≡ ok fwd
      → (cl.list_forwarders (cl.get_forwarder (owner_name cr) w).1).0 ≡ ok fwds
      → IsPaired fwd.spec.ingress_rules
      → In rule fwd.spec.ingress_rules
      → (update_gateway_rules K no_conditions cl cr w).0 ≡ ok tt
      → IsHanded K L no_conditions cl S fwds rule.gateway_ip
          (gateway_of rule)
          w
          (update_gateway_rules K no_conditions cl cr w).1
        × ((S.stored m.namespace m.name (update_gateway_rules K no_conditions cl cr w).1
              ≡ S.stored m.namespace m.name w)
            ⊎ ((r : ForwarderRule) × In r fwd.spec.ingress_rules × (gateway_of r ≡ m)))
  unfolding update_gateway_rules
  update_gateway_rules-IsHanded cr fwd fwds rule m w e e' paired i h =
      let rules = fwd.spec.ingress_rules in
      let (f, got, same) = >>=_ran (cl.get_forwarder (owner_name cr)) _ w h in
      let w₁ = (cl.get_forwarder (owner_name cr) w).1 in
      let known = ok-injective (sym got ∙ e) in
      let (fs, listed, same') =
        >>=_ran cl.list_forwarders
          (λ fs.
            update_each_gateway K no_conditions cl fs (get_unique_gateway f.spec.ingress_rules))
          w₁ (ap (λ r. r.0) (sym same) ∙ h) in
      let w₂ = (cl.list_forwarders w₁).1 in
      let known' = ok-injective (sym listed ∙ e') in
      let each =
        λ (v : W). update_each_gateway K no_conditions cl fwds (get_unique_gateway rules) v in
      let ran =
        same
        ∙ same'
        ∙ ap
            (λ (x : List (Forwarder C)).
              update_each_gateway K no_conditions cl x (get_unique_gateway f.spec.ingress_rules) w₂)
            known'
        ∙ ap
            (λ (x : Forwarder C).
              update_each_gateway K no_conditions cl fwds (get_unique_gateway x.spec.ingress_rules)
                w₂)
            known in
      let end = ap (λ r. r.1) ran in
      let start = λ (n : NamespacedName). list_keeps n w₁ ∙ get_keeps (owner_name cr) n w in
      let (handed, others) =
        update_each_gateway-IsHanded K L no_conditions cl S R fwds (get_unique_gateway rules) w₂
          (get_unique_gateway-AllApart rules paired) (ap (λ r. r.0) (sym ran) ∙ h) in
      let n = gateway_of rule in
      (
        IsHanded-at K L no_conditions cl S R fwds rule.gateway_ip n w₂ w (each w₂).1 _
            (sym (start n)) (ap (at_ K L no_conditions cl S n) end)
            (handed rule.gateway_ip n (get_unique_gateway-In rules rule paired i)),
        elim (get_unique_gateway-cases rules m) [
          | inr named ↦ inr named
          | inl apart ↦ inl (ap (at_ K L no_conditions cl S m) end ∙ others m apart ∙ start m)
        ],
      )

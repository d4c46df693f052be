-- ===== src/Operator/Update/Gateways.antt =====
-- What the loop of `updateGatewayRules` of pkg/controller/externalservice/reconciler.go leaves
-- stored.
use k8s_ext_connector.Prelude.{
  Text, Option, none, some, List, [], ◌∷◌, ◌≡◌, ◌⊎◌, refl, sym, ap, ◌∙◌, inl, inr, In, All, All-In,
  subst,
}
use k8s_ext_connector.Prelude.Dict.{Dict}
use k8s_ext_connector.Exec.{ok, >>=_ran}
use k8s_ext_connector.Api.{NamespacedName, Forwarder, Gateway}
use k8s_ext_connector.Api.Client.{Client}
use k8s_ext_connector.Api.Conditions.{Conditions, ConditionLaws}
use k8s_ext_connector.Operator.Update.Store.{gateway_kind, Store, IsCurrent}
use k8s_ext_connector.Operator.Update.Found.{Apart, Reads, get_or_create-Got}
use k8s_ext_connector.Operator.Update.Apart.{AllApart, Apart-sym}
use k8s_ext_connector.Operator.Update.Begin.{begin-Begun}
use k8s_ext_connector.Operator.Update.Others.{IsOther, begin-others, written-others}
use k8s_ext_connector.Operator.Update.Handover.{
  gateway_laws, wanted, IsHandedGateway, update_rules_for_one_gateway-IsHandedOver,
}
use k8s_ext_connector.Operator.Update.{
  begin_gateway, set_gateway_rules, finish_gateway, update_rules_for_one_gateway, new_gateway,
  get_or_create_gateway, update_each_gateway,
}

module _ {C W : Type 0} (K : Conditions C) (L : ConditionLaws K) (no_conditions : C)
    (cl : Client C W) (S : Store gateway_kind cl.update_gateway cl.update_gateway_status) where
  abbrev pub at_ : NamespacedName → W → Option (Gateway C)
  at_ n w = S.stored n.namespace n.name w

  -- The gateway of the name was handed over with the rules and the address, from what `start`
  -- stores under the name or from a new one.
  pub record IsHanded (fwds : List (Forwarder C)) (gw_ip : Text) (n : NamespacedName) (start w : W)
      : Type 0 where
    pub before : Gateway C
    pub namespace : before.meta.namespace ≡ n.namespace
    pub name : before.meta.name ≡ n.name
    pub existed : (at_ n start ≡ some before) ⊎ (at_ n start ≡ none)
    pub after : Gateway C
    pub here : S.stored n.namespace n.name w ≡ some after
    pub handed : IsHandedGateway K L no_conditions cl S before (wanted fwds before gw_ip) after

  update_rules_for_one_gateway-others :
      (fwds : List (Forwarder C)) (gw : Gateway C) (gw_ip : Text) (m : NamespacedName) (w : W)
      → IsCurrent gateway_kind S gw w
      → (update_rules_for_one_gateway K no_conditions cl fwds gw gw_ip w).0 ≡ ok tt
      → IsOther K L gateway_kind gateway_laws S gw m.namespace m.name
      → at_ m (update_rules_for_one_gateway K no_conditions cl fwds gw gw_ip w).1 ≡ at_ m w
  unfolding update_rules_for_one_gateway set_gateway_rules begin_gateway finish_gateway
  update_rules_for_one_gateway-others fwds gw gw_ip m w e h other =
      let (g, began, same) = >>=_ran (begin_gateway K no_conditions cl gw) _ w h in
      let (s, b) = begin-Begun K L gateway_kind gateway_laws S gw g w e began in
      let w₁ = (begin_gateway K no_conditions cl gw w).1 in
      let given = set_gateway_rules K no_conditions cl fwds gw_ip g in
      let (g₂, updated, same') =
        >>=_ran (cl.update_gateway given) (finish_gateway K no_conditions cl) w₁
          (ap (λ r. r.0) (sym same) ∙ h) in
      ap (λ r. at_ m r.1) (same ∙ same')
      ∙ written-others K L gateway_kind gateway_laws S gw g s g₂ given m.namespace m.name w w₁ b
          (refl, refl) refl updated other
      ∙ begin-others K L gateway_kind gateway_laws S gw m.namespace m.name w other

  module _ (R : Reads gateway_kind S cl.get_gateway cl.create_gateway) where
    -- One round of the loop hands over its gateway, and leaves the others.
    round-IsHanded :
        (fwds : List (Forwarder C)) (gw_ip : Text) (n : NamespacedName) (w : W) (gw : Gateway C)
        → (get_or_create_gateway K no_conditions cl n w).0 ≡ ok gw
        → (update_rules_for_one_gateway K no_conditions cl fwds gw gw_ip
            (get_or_create_gateway K no_conditions cl n w).1).0
          ≡ ok tt
        → IsHanded fwds gw_ip n w
            (update_rules_for_one_gateway K no_conditions cl fwds gw gw_ip
              (get_or_create_gateway K no_conditions cl n w).1).1
          × ((m : NamespacedName)
              → Apart n m
              → at_ m
                  (update_rules_for_one_gateway K no_conditions cl fwds gw gw_ip
                    (get_or_create_gateway K no_conditions cl n w).1).1
                ≡ at_ m w)
    unfolding get_or_create_gateway
    round-IsHanded fwds gw_ip n w gw got h =
        let w₁ = (get_or_create_gateway K no_conditions cl n w).1 in
        let (current, ns, nm, existed, others) =
          get_or_create-Got gateway_kind S cl.get_gateway cl.create_gateway n
            (new_gateway K no_conditions cl n.namespace n.name) w gw R refl refl got in
        let own =
          ap (λ x. S.stored x gw.meta.name w₁) ns ∙ ap (λ x. S.stored n.namespace x w₁) nm in
        let (s, here, handed, was) =
          update_rules_for_one_gateway-IsHandedOver K L no_conditions cl S fwds gw gw_ip w₁ current
            h in
        let w₂ = (update_rules_for_one_gateway K no_conditions cl fwds gw gw_ip w₁).1 in
        (
          record {
            before = gw;
            namespace = ns;
            name = nm;
            existed = existed (sym own ∙ was);
            after = s;
            here =
                sym
                  (ap (λ x. S.stored x gw.meta.name w₂) ns ∙ ap (λ x. S.stored n.namespace x w₂) nm)
                ∙ here;
            handed = handed;
          },
          λ m apart.
              update_rules_for_one_gateway-others fwds gw gw_ip m w₁ current h (elim apart [
                | inl d ↦ inl (λ x. d (sym ns ∙ x))
                | inr d ↦ inr (λ x. d (sym nm ∙ x))
              ])
              ∙ others m apart,
        )

    pub IsHanded-at :
        (fwds : List (Forwarder C)) (gw_ip : Text) (n : NamespacedName) (start start' w v : W)
        → at_ n start' ≡ at_ n start
        → at_ n v ≡ at_ n w
        → IsHanded fwds gw_ip n start w
        → IsHanded fwds gw_ip n start' v
    IsHanded-at fwds gw_ip n start start' w v e₀ e d = record {
      before = d.before;
      namespace = d.namespace;
      name = d.name;
      existed = elim d.existed [ inl h ↦ inl (e₀ ∙ h) | inr h ↦ inr (e₀ ∙ h) ];
      after = d.after;
      here = e ∙ d.here;
      handed = d.handed;
    }

    -- Every gateway of the loop is handed over, and no other is touched.
    pub update_each_gateway-IsHanded :
        (fwds : List (Forwarder C)) (gws : Dict NamespacedName) (w : W)
        → AllApart gws
        → (update_each_gateway K no_conditions cl fwds gws w).0 ≡ ok tt
        → ((gw_ip : Text) (n : NamespacedName)
            → In (gw_ip, n) gws
            → IsHanded fwds gw_ip n w (update_each_gateway K no_conditions cl fwds gws w).1)
          × ((m : NamespacedName)
              → All (λ e. Apart e.1 m) gws
              → at_ m (update_each_gateway K no_conditions cl fwds gws w).1 ≡ at_ m w)
    unfolding update_each_gateway
    update_each_gateway-IsHanded fwds [] w apart h = (λ gw_ip n i. absurd i, λ m other. refl)
    update_each_gateway-IsHanded fwds ((ip, n) ∷ gws) w (apart, rest) h =
        let (gw, got, same) = >>=_ran (get_or_create_gateway K no_conditions cl n) _ w h in
        let w₁ = (get_or_create_gateway K no_conditions cl n w).1 in
        let (_, updated, same') =
          >>=_ran (update_rules_for_one_gateway K no_conditions cl fwds gw ip)
            (λ _. update_each_gateway K no_conditions cl fwds gws) w₁
            (ap (λ r. r.0) (sym same) ∙ h) in
        let w₂ = (update_rules_for_one_gateway K no_conditions cl fwds gw ip w₁).1 in
        let ran = same ∙ same' in
        let (handed, others) = round-IsHanded fwds ip n w gw got updated in
        let (more, untouched) =
          update_each_gateway-IsHanded fwds gws w₂ rest (ap (λ r. r.0) (sym ran) ∙ h) in
        let end = (update_each_gateway K no_conditions cl fwds ((ip, n) ∷ gws) w).1 in
        let here =
          IsHanded-at fwds ip n w w w₂ end refl (ap (λ r. at_ n r.1) ran ∙ untouched n apart)
            handed in
        (
          λ jp m i. elim i [
            | inl e ↦
                subst (λ (x : Text × NamespacedName). IsHanded fwds x.0 x.1 w end) (sym e) here
            | inr j ↦
                IsHanded-at fwds jp m w₂ w _ end
                  (sym (others m (Apart-sym m n (All-In (λ e. Apart e.1 n) (jp, m) gws apart j))))
                  (ap (λ r. at_ m r.1) ran) (more jp m j)
          ],
          λ m other. ap (λ r. at_ m r.1) ran ∙ untouched m other.1 ∙ others m other.0,
        )

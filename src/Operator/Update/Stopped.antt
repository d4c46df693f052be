-- ===== src/Operator/Update/Stopped.antt =====
-- What an update of rules that fails leaves stored (`updateRulesForOneGateway` of
-- pkg/controller/externalservice/reconciler.go).
use k8s_ext_connector.Prelude.{
  Text, false, some, List, ◌≡◌, ◌⊎◌, refl, sym, ap, ◌∙◌, inl, inr, arith, Bool-cases, ◌||◌,
}
use k8s_ext_connector.Exec.{Error, err, Exec, pure, ◌>>=◌, >>=_failed}
use k8s_ext_connector.Api.{Forwarder, Gateway}
use k8s_ext_connector.Api.Client.{Client}
use k8s_ext_connector.Api.Conditions.{
  Conditions, ConditionLaws, rule_updating, condition_true, condition_false, condition_unknown,
}
use k8s_ext_connector.Operator.Update.Store.{
  Kind, KindLaws, SameName, Store, begin, finish, gateway_kind,
}
use k8s_ext_connector.Operator.Update.Begin.{begin-Begun, stored-SameName}
use k8s_ext_connector.Operator.Update.Handover.{gateway_laws, wanted, wanted-named}
use k8s_ext_connector.Operator.Update.{
  rule_updating_condition, rule_syncing_condition, next_generation, begin_gateway,
  set_gateway_rules, finish_gateway, update_rules_for_one_gateway,
}
use k8s_ext_connector.Gateway.Status.{need_sync, need_check_sync}

module _ {C Spec O W : Type 0} (K : Conditions C) (L : ConditionLaws K) (k : Kind C Spec O)
    (KL : KindLaws k) {update update_status : O → Exec W O} (S : Store k update update_status) where
  -- A write that is refused stores nothing.
  pub record Refuses : Type 0 where
    pub update_refused :
        (o : O) (namespace name : Text) (e : Error) (w : W)
        → (update o w).0 ≡ err e
        → S.stored namespace name (update o w).1 ≡ S.stored namespace name w
    pub status_refused :
        (o : O) (namespace name : Text) (e : Error) (w : W)
        → (update_status o w).0 ≡ err e
        → S.stored namespace name (update_status o w).1 ≡ S.stored namespace name w

  -- The update is marked as going on, with the old spec or the new, and the old generations.
  pub record IsUnfinished (o : O) (spec : Spec) (s : O) : Type 0 where
    pub updating : L.status rule_updating (k.conditions s) ≡ some condition_true
    pub rules : (k.spec s ≡ k.spec o) ⊎ (k.spec s ≡ spec)
    pub rule_generation : k.rule_generation s ≡ k.rule_generation o
    pub sync_generation : k.sync_generation s ≡ k.sync_generation o

  module _ (R : Refuses) (namespace name : Text) (e : Error) where
    begin_refused :
        (o : O) (w : W)
        → (begin k K update_status o w).0 ≡ err e
        → S.stored namespace name (begin k K update_status o w).1 ≡ S.stored namespace name w
    begin_refused o w h =
        let n = rule_updating_condition condition_true in
        elim (Bool-cases (K.set_condition n (k.conditions o)).1) [
          | inl sent ↦ rw sent (R.status_refused _ namespace name e w (rw sent at h))
          | inr kept ↦ absurd (let bad = (rw kept at h) in cc)
        ]

    finish_refused :
        (o : O) (w : W)
        → (finish k K update_status o w).0 ≡ err e
        → S.stored namespace name (finish k K update_status o w).1 ≡ S.stored namespace name w
    finish_refused o w h =
        let n = rule_updating_condition condition_false in
        let c₁ = (K.set_condition n (k.conditions o)).0 in
        let n' = rule_syncing_condition condition_unknown in
        let o' =
          k.with_status (K.set_condition n' c₁).0 (next_generation (k.rule_generation o)) o in
        elim (Bool-cases ((K.set_condition n (k.conditions o)).1 || (K.set_condition n' c₁).1)) [
          | inl sent ↦ elim (>>=_failed (update_status o') (λ _. pure tt) w (rw sent at h)) [
            | inl (refused, same) ↦
                rw sent (
                  ap (S.stored namespace name) same
                  ∙ R.status_refused o' namespace name e w refused)
            | inr (o'', answered, same) ↦
                absurd (let bad = ap (λ r. r.0) (sym same) ∙ (rw sent at h) in cc)
          ]
          | inr kept ↦ absurd (let bad = (rw kept at h) in cc)
        ]

  -- The calls of an update, of which the second writes the spec.
  abbrev pub run : (O → O) → O → Exec W (Unit {0})
  run given o = begin k K update_status o >>= λ g. update (given g) >>= finish k K update_status

  pub run-IsUnfinished :
      (R : Refuses) (given : O → O) (o : O) (spec : Spec) (e : Error) (w : W)
      → ((g : O) → SameName k g o → SameName k (given g) g × (k.spec (given g) ≡ spec))
      → S.stored (k.namespace o) (k.name o) w ≡ some o
      → (run given o w).0 ≡ err e
      → (s : O) × (S.stored (k.namespace o) (k.name o) (run given o w).1 ≡ some s)
        × ((s ≡ o) ⊎ IsUnfinished o spec s)
  run-IsUnfinished R given o spec e w gives here h =
      let at = S.stored (k.namespace o) (k.name o) in
      elim (>>=_failed (begin k K update_status o) _ w h) [
        | inl (refused, same) ↦ (
          o,
          ap at same ∙ begin_refused R (k.namespace o) (k.name o) e o w refused ∙ here,
          inl refl,
        )
        | inr (g, began, same) ↦
            let w₁ = (begin k K update_status o w).1 in
            let (s, b) = begin-Begun K L k KL S o g w (λ t at _. cc (at, here)) began in
            let (n, given_spec) = gives g b.names in
            elim (>>=_failed (update (given g)) (finish k K update_status) w₁
              (ap (λ r. r.0) (sym same) ∙ h)) [
                | inl (refused, same') ↦ (
                  s,
                  ap (λ r. at r.1) same
                      ∙ ap at same'
                      ∙ R.update_refused (given g) (k.namespace o) (k.name o) e w₁ refused
                      ∙ b.stored_there here,
                  inr (record {
                    updating = b.updating;
                    rules = inl b.stored_spec;
                    rule_generation = b.rule_generation;
                    sync_generation = b.sync_generation;
                  }),
                )
                | inr (g₂, updated, same') ↦
                    let given_names : SameName k (given g) o = (n.0 ∙ b.names.0, n.1 ∙ b.names.1) in
                    let (written, _, spec₂, stat) =
                      S.update_lem (given g) s g₂ w₁
                        (stored-SameName K L k KL S (given g) o w₁ given_names
                          ∙ b.stored_there here)
                        updated in
                    let w₂ = (update (given g) w₁).1 in
                    let ran = same ∙ same' in
                    (
                      g₂,
                      ap (λ r. at r.1) ran
                          ∙ finish_refused R (k.namespace o) (k.name o) e g₂ w₂
                              (ap (λ r. r.0) (sym ran) ∙ h)
                          ∙ sym (stored-SameName K L k KL S (given g) o w₂ given_names)
                          ∙ written,
                      inr (record {
                        updating = ap (L.status rule_updating) stat.0 ∙ b.updating;
                        rules = inr (spec₂ ∙ given_spec);
                        rule_generation = stat.1 ∙ b.rule_generation;
                        sync_generation = stat.2 ∙ b.sync_generation;
                      }),
                    )
              ]
      ]

module _ {C W : Type 0} (K : Conditions C) (L : ConditionLaws K) (no_conditions : C)
    (cl : Client C W) (S : Store gateway_kind cl.update_gateway cl.update_gateway_status) where
  -- When updateRulesForOneGateway fails for a gateway as it is stored, over an API that stores
  -- nothing of a write that it refuses, the gateway is stored as it was, or with RuleUpdating
  -- true, the generations that it had, and the spec that it had or the whole new one; and then the
  -- gateway program neither synchronises it nor checks it.
  pub update_rules_for_one_gateway-IsUnfinished :
      (R : Refuses K L gateway_kind gateway_laws S) (fwds : List (Forwarder C)) (gw : Gateway C)
      (gw_ip : Text) (e : Error) (w : W)
      → S.stored gw.meta.namespace gw.meta.name w ≡ some gw
      → (update_rules_for_one_gateway K no_conditions cl fwds gw gw_ip w).0 ≡ err e
      → (s : Gateway C) × (S.stored gw.meta.namespace gw.meta.name
            (update_rules_for_one_gateway K no_conditions cl fwds gw gw_ip w).1
          ≡ some s)
        × ((s ≡ gw)
            ⊎ (IsUnfinished K L gateway_kind gateway_laws S gw (wanted fwds gw gw_ip) s
                × (need_sync K s ≡ false)
                × (need_check_sync K s ≡ false)))
  unfolding update_rules_for_one_gateway set_gateway_rules begin_gateway finish_gateway need_sync
      need_check_sync
  update_rules_for_one_gateway-IsUnfinished R fwds gw gw_ip e w here h =
      let (s, at, outcome) =
        run-IsUnfinished K L gateway_kind gateway_laws S R
          (set_gateway_rules K no_conditions cl fwds gw_ip) gw (wanted fwds gw gw_ip) e w
          (λ g same. ((refl, refl), wanted-named fwds g gw gw_ip same.0 same.1)) here h in
      (
        s,
        at,
        elim outcome [
          | inl same ↦ inl same
          | inr d ↦
              let marked = L.false_lem rule_updating s.status.conditions in
              inr (d, ground (arith, d.updating, marked), ground (arith, d.updating, marked))
        ],
      )

-- ===== src/Operator/Update/Others.antt =====
-- What an update of rules leaves alone, for both kinds of resource
-- (`updateForwarderRules` and `updateRulesForOneGateway` of
-- pkg/controller/externalservice/reconciler.go).
use k8s_ext_connector.Prelude.{Text, ◌≡◌, ◌≢◌, ◌⊎◌, refl, sym, ◌∙◌, inl, inr, Bool-cases}
use k8s_ext_connector.Exec.{ok, Exec}
use k8s_ext_connector.Api.Conditions.{
  Conditions, ConditionLaws, condition_true, condition_false, condition_unknown,
}
use k8s_ext_connector.Operator.Update.{
  rule_updating_condition, rule_syncing_condition, next_generation,
}
use k8s_ext_connector.Operator.Update.Store.{Kind, KindLaws, SameName, Store, begin, finish}
use k8s_ext_connector.Operator.Update.Begin.{Begun, Begun-stored, stored-SameName}
use k8s_ext_connector.Exec.{sent_world}

module _ {C Spec O W : Type 0} (K : Conditions C) (L : ConditionLaws K) (k : Kind C Spec O)
    (KL : KindLaws k) {update update_status : O → Exec W O} (S : Store k update update_status) where
  -- The object has another name.
  abbrev pub IsOther : O → Text → Text → Type 0
  IsOther o namespace name = (k.namespace o ≢ namespace) ⊎ (k.name o ≢ name)

  pub IsOther-SameName :
      (a b : O) (namespace name : Text)
      → SameName k a b
      → IsOther b namespace name
      → IsOther a namespace name
  IsOther-SameName a b namespace name same (inl h) = inl (λ e. h (sym same.0 ∙ e))
  IsOther-SameName a b namespace name same (inr h) = inr (λ e. h (sym same.1 ∙ e))

  pub begin-others :
      (o : O) (namespace name : Text) (w : W)
      → IsOther o namespace name
      → S.stored namespace name (begin k K update_status o w).1 ≡ S.stored namespace name w
  begin-others o namespace name w other =
      let c' = (K.set_condition (rule_updating_condition condition_true) (k.conditions o)).0 in
      let o' = k.with_status c' (k.rule_generation o) o in
      let apart =
        IsOther-SameName o' o namespace name
          (KL.namespace_lem c' (k.rule_generation o) o, KL.name_lem c' (k.rule_generation o) o)
          other in
      elim (Bool-cases
        (K.set_condition (rule_updating_condition condition_true) (k.conditions o)).1) [
          | inl sent ↦ rw sent (S.status_others o' namespace name w apart)
          | inr kept ↦ rw kept refl
        ]

  pub finish-others :
      (o : O) (namespace name : Text) (w : W)
      → IsOther o namespace name
      → S.stored namespace name (finish k K update_status o w).1 ≡ S.stored namespace name w
  finish-others o namespace name w other =
      let c₁ = (K.set_condition (rule_updating_condition condition_false) (k.conditions o)).0 in
      let c₂ = (K.set_condition (rule_syncing_condition condition_unknown) c₁).0 in
      let m = next_generation (k.rule_generation o) in
      let o' = k.with_status c₂ m o in
      let apart =
        IsOther-SameName o' o namespace name (KL.namespace_lem c₂ m o, KL.name_lem c₂ m o) other in
      sent_world (λ v. S.stored namespace name v ≡ S.stored namespace name w) _ (update_status o')
        tt w (S.status_others o' namespace name w apart) refl

  pub written-others :
      (o g s g₂ given : O) (namespace name : Text) (start w : W)
      → Begun K L k KL S o g s start w
      → SameName k given g
      → k.version given ≡ k.version g
      → (update given w).0 ≡ ok g₂
      → IsOther o namespace name
      → S.stored namespace name (finish k K update_status g₂ (update given w).1).1
        ≡ S.stored namespace name w
  written-others o g s g₂ given namespace name start w b n v updated other =
      let same : SameName k given o = (n.0 ∙ b.names.0, n.1 ∙ b.names.1) in
      let (_, names, _, _) =
        S.update_lem given s g₂ w
          (stored-SameName K L k KL S given o w same
            ∙ Begun-stored K L k KL S o g s g₂ given start w b n v updated)
          updated in
      finish-others g₂ namespace name (update given w).1
        (IsOther-SameName g₂ o namespace name (names.0 ∙ same.0, names.1 ∙ same.1) other)
      ∙ S.update_others given namespace name w (IsOther-SameName given o namespace name same other)

-- ===== src/Gateway/Status/Handshake.antt =====
-- `setSyncing` and `setSynced` of pkg/gateway/status.go, one after the other.
use k8s_ext_connector.Prelude.{
  true, false, ◌≡◌, inl, inr, refl, ap, ◌∙◌, arith, Bool-cases, nat_eq_iff,
}
use k8s_ext_connector.Exec.{ok, sent_or_kept}
use k8s_ext_connector.Api.{Gateway}
use k8s_ext_connector.Api.Conditions.{
  Conditions, ConditionLaws, rule_updating, rule_syncing, condition_true, condition_false,
}
use k8s_ext_connector.Api.Client.{Client}
use k8s_ext_connector.Operator.Update.{rule_syncing_condition}
use k8s_ext_connector.Gateway.Status.{
  need_sync, need_check_sync, mark_syncing, mark_synced, set_syncing, set_synced,
}

module _ {C : Type 0} (K : Conditions C) (L : ConditionLaws K) where
  mark_syncing-need_sync :
      (gw : Gateway C) → need_sync K gw ≡ true → need_sync K (mark_syncing K gw).0 ≡ true
  unfolding mark_syncing need_sync
  mark_syncing-need_sync gw h =
      let c = gw.status.conditions in
      let n = rule_syncing_condition condition_true in
      ground (
        arith,
        L.false_lem rule_updating c,
        L.false_lem rule_updating (K.set_condition n c).0,
        L.true_lem rule_syncing (K.set_condition n c).0,
        L.status-set n rule_updating c,
        L.status-set n rule_syncing c,
      )

  -- An object whose synchronisation is under way is sent, and then needs none.
  mark_synced-done :
      (gw : Gateway C)
      → need_sync K gw ≡ true
      → ((mark_synced K (mark_syncing K gw).0).1 ≡ true)
        × (need_sync K (mark_synced K (mark_syncing K gw).0).0 ≡ false)
        × (need_check_sync K (mark_synced K (mark_syncing K gw).0).0 ≡ true)
  unfolding mark_syncing mark_synced need_sync need_check_sync
  mark_synced-done gw h =
      let c = gw.status.conditions in
      let n = rule_syncing_condition condition_true in
      let c₁ = (K.set_condition n c).0 in
      let n' = rule_syncing_condition condition_false in
      let c₂ = (K.set_condition n' c₁).0 in
      let sent : (K.set_condition n' c₁).1 ≡ true = elim (Bool-cases (K.set_condition n' c₁).1) [
        | inl e ↦ e
        | inr kept ↦ absurd (ground (arith, L.unchanged n' c₁ kept, L.status-set n rule_syncing c))
      ] in
      let updating : K.is_false_for rule_updating c₂ ≡ true = ground (
        arith,
        L.false_lem rule_updating c,
        L.false_lem rule_updating c₂,
        L.status-set n rule_updating c,
        L.status-set n' rule_updating c₁,
      ) in
      let syncing : K.is_false_for rule_syncing c₂ ≡ true =
        ground (arith, L.false_lem rule_syncing c₂, L.status-set n' rule_syncing c₁) in
      let not_syncing : K.is_true_for rule_syncing c₂ ≡ false =
        ground (arith, L.true_lem rule_syncing c₂, L.status-set n' rule_syncing c₁) in
      let same = (nat_eq_iff gw.status.rule_generation gw.status.rule_generation).1 refl in
      (
        sent,
        ground (arith, sent, updating, not_syncing, same),
        ground (arith, sent, updating, syncing, same),
      )

  module _ {W : Type 0} (cl : Client C W) where
    -- The gateway's handshake: an object that needs a synchronisation still needs it after a
    -- `setSyncing` that succeeds, whatever object the server answers with, and after a
    -- `setSynced` that follows it and succeeds it needs none and is one whose rules are checked,
    -- both as the reconciler keeps it in memory. Its rules and its rule generation are those
    -- that were read.
    pub set_synced-set_syncing_gateway :
        (gw : Gateway C) (w w' : W) {gw₁ gw₂ : Gateway C}
        → need_sync K gw ≡ true
        → (set_syncing K cl gw w).0 ≡ ok gw₁
        → (set_synced K cl gw₁ w').0 ≡ ok gw₂
        → (need_sync K gw₁ ≡ true)
          × (need_sync K gw₂ ≡ false)
          × (need_check_sync K gw₂ ≡ true)
          × (gw₂.spec ≡ gw.spec)
          × (gw₂.status.rule_generation ≡ gw.status.rule_generation)
    unfolding set_syncing set_synced mark_syncing mark_synced
    set_synced-set_syncing_gateway gw w w' {gw₁} {gw₂} h h₁ h₂ =
        let e₁ = sent_or_kept (mark_syncing K gw).1 _ (mark_syncing K gw).0 w h₁ in
        let e₂ = sent_or_kept (mark_synced K gw₁).1 _ (mark_synced K gw₁).0 w' h₂ in
        let (_, done, checked) = mark_synced-done gw h in
        let e : gw₂ ≡ (mark_synced K (mark_syncing K gw).0).0 =
          e₂ ∙ ap (λ x. (mark_synced K x).0) e₁ in
        rw e (rw e₁ (mark_syncing-need_sync gw h), done, checked, refl, refl)

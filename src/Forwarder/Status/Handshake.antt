-- ===== src/Forwarder/Status/Handshake.antt =====
-- `setSyncing` and `setSynced` of pkg/forwarder/status.go, one after the other.
use k8s_ext_connector.Prelude.{
  true, false, ◌≡◌, ◌≢◌, inl, inr, refl, sym, ap, ◌∙◌, arith, Bool-cases, nat_eq_iff, Text,
}
use k8s_ext_connector.Exec.{Error, ok, err, sent_or_kept, sent_ran, sent_refused}
use k8s_ext_connector.Api.{Forwarder}
use k8s_ext_connector.Api.Conditions.{
  Conditions, ConditionLaws, rule_updating, rule_syncing, condition_true, condition_false,
}
use k8s_ext_connector.Api.Client.{Client}
use k8s_ext_connector.Operator.Update.{rule_syncing_condition}
use k8s_ext_connector.Forwarder.Status.{
  need_sync, need_check_sync, mark_syncing, mark_synced, set_syncing, set_synced,
}

module _ {C : Type 0} (K : Conditions C) (L : ConditionLaws K) where
  mark_syncing-need_sync :
      (fwd : Forwarder C) → need_sync K fwd ≡ true → need_sync K (mark_syncing K fwd).0 ≡ true
  unfolding mark_syncing need_sync
  mark_syncing-need_sync fwd h =
      let c = fwd.status.conditions in
      let n = rule_syncing_condition condition_true in
      ground (
        arith,
        L.false_lem rule_updating c,
        L.false_lem rule_updating (K.set_condition n c).0,
        L.true_lem rule_syncing (K.set_condition n c).0,
        L.status-set n rule_updating c,
        L.status-set n rule_syncing c,
      )

  -- An object whose synchronisation is under way is sent, and then needs none.
  mark_synced-done :
      (fwd : Forwarder C)
      → need_sync K fwd ≡ true
      → ((mark_synced K (mark_syncing K fwd).0).1 ≡ true)
        × (need_sync K (mark_synced K (mark_syncing K fwd).0).0 ≡ false)
        × (need_check_sync K (mark_synced K (mark_syncing K fwd).0).0 ≡ true)
  unfolding mark_syncing mark_synced need_sync need_check_sync
  mark_synced-done fwd h =
      let c = fwd.status.conditions in
      let n = rule_syncing_condition condition_true in
      let c₁ = (K.set_condition n c).0 in
      let n' = rule_syncing_condition condition_false in
      let c₂ = (K.set_condition n' c₁).0 in
      let sent : (K.set_condition n' c₁).1 ≡ true = elim (Bool-cases (K.set_condition n' c₁).1) [
        | inl e ↦ e
        | inr kept ↦ absurd (ground (arith, L.unchanged n' c₁ kept, L.status-set n rule_syncing c))
      ] in
      let updating : K.is_false_for rule_updating c₂ ≡ true = ground (
        arith,
        L.false_lem rule_updating c,
        L.false_lem rule_updating c₂,
        L.status-set n rule_updating c,
        L.status-set n' rule_updating c₁,
      ) in
      let syncing : K.is_false_for rule_syncing c₂ ≡ true =
        ground (arith, L.false_lem rule_syncing c₂, L.status-set n' rule_syncing c₁) in
      let not_syncing : K.is_true_for rule_syncing c₂ ≡ false =
        ground (arith, L.true_lem rule_syncing c₂, L.status-set n' rule_syncing c₁) in
      let same = (nat_eq_iff fwd.status.rule_generation fwd.status.rule_generation).1 refl in
      (
        sent,
        ground (arith, sent, updating, not_syncing, same),
        ground (arith, sent, updating, syncing, same),
      )

  module _ {W : Type 0} (cl : Client C W) where
    -- The forwarder's handshake: an object that needs a synchronisation still needs it after a
    -- `setSyncing` that succeeds, whatever object the server answers with, and after a
    -- `setSynced` that follows it and succeeds it needs none and is one whose rules are checked,
    -- both as the reconciler keeps it in memory. Its rules and its rule generation are those
    -- that were read.
    pub set_synced-set_syncing :
        (fwd : Forwarder C) (w w' : W) {fwd₁ fwd₂ : Forwarder C}
        → need_sync K fwd ≡ true
        → (set_syncing K cl fwd w).0 ≡ ok fwd₁
        → (set_synced K cl fwd₁ w').0 ≡ ok fwd₂
        → (need_sync K fwd₁ ≡ true)
          × (need_sync K fwd₂ ≡ false)
          × (need_check_sync K fwd₂ ≡ true)
          × (fwd₂.spec ≡ fwd.spec)
          × (fwd₂.status.rule_generation ≡ fwd.status.rule_generation)
    unfolding set_syncing set_synced mark_syncing mark_synced
    set_synced-set_syncing fwd w w' {fwd₁} {fwd₂} h h₁ h₂ =
        let e₁ = sent_or_kept (mark_syncing K fwd).1 _ (mark_syncing K fwd).0 w h₁ in
        let e₂ = sent_or_kept (mark_synced K fwd₁).1 _ (mark_synced K fwd₁).0 w' h₂ in
        let (_, done, checked) = mark_synced-done fwd h in
        let e : fwd₂ ≡ (mark_synced K (mark_syncing K fwd).0).0 =
          e₂ ∙ ap (λ x. (mark_synced K x).0) e₁ in
        rw e (rw e₁ (mark_syncing-need_sync fwd h), done, checked, refl, refl)

    -- `setSyncing` keeps the object that was read, with its resource version. Let the API refuse a
    -- status whose resource version is not the stored one, and store no status under the version
    -- that it was sent with. If the object needs a synchronisation and `setSyncing` has to send it
    -- and succeeds, then the `setSynced` that follows is refused, as long as the stored version
    -- stays.
    pub set_synced_conflicts :
        (version : W → Text) (conflict : Error) (fwd : Forwarder C) (w w' : W) {fwd₁ : Forwarder C}
        → ((f : Forwarder C) (v : W)
            → version v ≢ f.meta.resource_version
            → (cl.update_forwarder_status f v).0 ≡ err conflict)
        → ((f : Forwarder C) (v : W) (f' : Forwarder C)
            → (cl.update_forwarder_status f v).0 ≡ ok f'
            → version (cl.update_forwarder_status f v).1 ≢ f.meta.resource_version)
        → need_sync K fwd ≡ true
        → (mark_syncing K fwd).1 ≡ true
        → (set_syncing K cl fwd w).0 ≡ ok fwd₁
        → version w' ≡ version (set_syncing K cl fwd w).1
        → (set_synced K cl fwd₁ w').0 ≡ err conflict
    unfolding set_syncing set_synced mark_syncing mark_synced
    set_synced_conflicts version conflict fwd w w' {fwd₁} refuses moves h sent h₁ stays =
        let sync = (mark_syncing K fwd).0 in
        let e₁ = sent_or_kept (mark_syncing K fwd).1 _ sync w h₁ in
        let (again, _, _) = mark_synced-done fwd h in
        let answer = sent_ran (cl.update_forwarder_status sync) sync w sent h₁ in
        let synced = (mark_synced K fwd₁).0 in
        let sends : (mark_synced K fwd₁).1 ≡ true = rw e₁ again in
        let newer : version w' ≢ synced.meta.resource_version = λ same.
          moves sync w answer.0 answer.1
            (ap version (sym answer.2) ∙ sym stays ∙ same ∙ ap (λ x. x.meta.resource_version) e₁) in
        sent_refused (cl.update_forwarder_status synced) synced w' sends (refuses synced w' newer)

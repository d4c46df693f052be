-- ===== src/Gateway/Protocol/Quiet.antt =====
-- The calls of the operator and the gateway program that make no object look synchronised.
use k8s_ext_connector.Prelude.{
  Text, true, false, some, ◌≡◌, inl, inr, refl, sym, ap, subst, ◌∙◌, arith, Bool-cases, ◌&&◌,
  nat_eq,
}
use k8s_ext_connector.Exec.{ok, ok-injective, sent_world}
use k8s_ext_connector.Api.{NamespacedName, GatewayStatus, Gateway}
use k8s_ext_connector.Api.Conditions.{
  Conditions, ConditionLaws, ConditionStatus, is_false, rule_updating, rule_syncing, condition_true,
  condition_false, condition_unknown,
}
use k8s_ext_connector.Api.Client.{Client}
use k8s_ext_connector.Operator.Update.{
  rule_updating_condition, rule_syncing_condition, next_generation, begin_gateway, finish_gateway,
}
use k8s_ext_connector.Gateway.Status.{
  need_check_sync, mark_syncing, mark_synced, set_syncing, set_synced,
}
use k8s_ext_connector.Gateway.Protocol.Store.{
  VersionedStore, version, IfStill, IsApplied, Wrote, WritesSpec, WritesStatus, Outcome-Wrote,
  Outcome-ok, IfStill-Wrote, some-injective,
}

module _ {C W : Type 0} (K : Conditions C) (L : ConditionLaws K) (no_conditions : C)
    (cl : Client C W) (name : NamespacedName) (S : VersionedStore cl name) where
  -- Calls that make no object look synchronised: what is known of an old version stays known, and
  -- an object whose rules are only checked was stored before.
  pub record Quiet (w w' : W) : Type 1 where
    pub mono : (v : Text) → S.used w v → S.used w' v
    pub still :
        (v : Text) (P : Gateway C → Type 0)
        → S.used w v
        → IfStill S.stored S.used w v P
        → IfStill S.stored S.used w' v P
    pub old :
        (g : Gateway C) → S.stored w' ≡ some g → need_check_sync K g ≡ true → S.stored w ≡ some g

  pub Quiet-equal : (w : W) → Quiet w w
  Quiet-equal w = record { mono = λ v u. u; still = λ v P u h. h; old = λ g e c. e }

  need_check_sync-status :
      (a b : Gateway C) → a.status ≡ b.status → need_check_sync K a ≡ need_check_sync K b
  unfolding need_check_sync
  need_check_sync-status a b e =
      ap
        (λ (st : GatewayStatus C).
          K.is_false_for rule_updating st.conditions
          && (nat_eq st.rule_generation st.sync_generation
              && K.is_false_for rule_syncing st.conditions))
        e

  -- A write after which the object is not one whose rules are only checked.
  old-Wrote :
      (Parts : Gateway C → Gateway C → Gateway C → Type 0) (sent : Gateway C) (w w' : W)
      → ((before after : Gateway C)
          → IsApplied S.stored S.used w w' sent before after
          → Parts sent before after
          → need_check_sync K after ≡ false)
      → Wrote S.stored S.used Parts sent w w'
      → (g : Gateway C) → S.stored w' ≡ some g
      → need_check_sync K g ≡ true
      → S.stored w ≡ some g
  old-Wrote Parts sent w w' quiet (inl same) g e c = sym same ∙ e
  old-Wrote Parts sent w w' quiet (inr (before, after, a, parts)) g e c =
      let same = some-injective S.stored S.used (sym a.stores ∙ e) in
      let not_checked = quiet before after a parts in absurd (cc (ap (need_check_sync K) same))

  Quiet-status :
      (sent : Gateway C) (w : W)
      → need_check_sync K sent ≡ false
      → Quiet w (cl.update_gateway_status sent w).1
  Quiet-status sent w h =
      let w' = (cl.update_gateway_status sent w).1 in
      let wrote = Outcome-Wrote S.stored S.used WritesStatus sent w _ (S.status_lem sent w) in
      record {
        mono = S.status_used sent w;
        still = λ v P u k. IfStill-Wrote S.stored S.used WritesStatus sent w w' v P u wrote k;
        old =
            old-Wrote WritesStatus sent w w'
              (λ before after a parts. need_check_sync-status after sent parts.1 ∙ h) wrote;
      }

  -- Rules are being updated.
  abbrev pub Updating : Gateway C → Type 0
  Updating g = L.status rule_updating g.status.conditions ≡ some condition_true

  Updating-need_check_sync : (g : Gateway C) → Updating g → need_check_sync K g ≡ false
  unfolding need_check_sync
  Updating-need_check_sync g u = ground (arith, u, L.false_lem rule_updating g.status.conditions)

  -- Whether the rules are synchronised is not known to be so.
  Syncing-need_check_sync :
      (g : Gateway C) (stat : ConditionStatus)
      → is_false (some stat) ≡ false
      → L.status rule_syncing g.status.conditions ≡ some stat
      → need_check_sync K g ≡ false
  unfolding need_check_sync
  Syncing-need_check_sync g stat no_false e =
      ground (arith, e, no_false, L.false_lem rule_syncing g.status.conditions)

  pub Quiet-update :
      (sent : Gateway C) (w : W)
      → IfStill S.stored S.used w (version sent) Updating
      → Quiet w (cl.update_gateway sent w).1
  Quiet-update sent w h =
      let w' = (cl.update_gateway sent w).1 in
      let wrote = Outcome-Wrote S.stored S.used WritesSpec sent w _ (S.update_lem sent w) in
      record {
        mono = S.update_used sent w;
        still = λ v P u k. IfStill-Wrote S.stored S.used WritesSpec sent w w' v P u wrote k;
        old =
            old-Wrote WritesSpec sent w w'
              (λ before after a parts.
                need_check_sync-status after before parts.1
                ∙ Updating-need_check_sync before (h before a.found a.current))
              wrote;
      }

  pub Quiet-get : (w : W) → Quiet w (cl.get_gateway name w).1
  Quiet-get w = record {
    mono = S.get_used w;
    still = λ v P u k g e. k g (sym (S.get_stored w) ∙ e);
    old = λ g e c. sym (S.get_stored w) ∙ e;
  }

  -- `RuleUpdating` is set, and sent if that changes it.
  pub Quiet-begin_gateway :
      (g : Gateway C) (w : W) → Quiet w (begin_gateway K no_conditions cl g w).1
  unfolding begin_gateway need_check_sync
  Quiet-begin_gateway g w =
      let c = g.status.conditions in
      let n = rule_updating_condition condition_true in
      let sent = record g { status = record g.status { conditions = (K.set_condition n c).0 } } in
      elim (Bool-cases (K.set_condition n c).1) [
        | inl changed ↦
            rw changed
              (Quiet-status sent w (Updating-need_check_sync sent (L.status-set n rule_updating c)))
        | inr kept ↦ rw kept (Quiet-equal w)
      ]

  pub Quiet-finish_gateway :
      (g : Gateway C) (w : W) → Quiet w (finish_gateway K no_conditions cl g w).1
  unfolding finish_gateway
  Quiet-finish_gateway g w =
      let c = (K.set_condition (rule_updating_condition condition_false) g.status.conditions).0 in
      let n = rule_syncing_condition condition_unknown in
      let sent = record g {
        status = record g.status {
          conditions = (K.set_condition n c).0;
          rule_generation = next_generation g.status.rule_generation;
        };
      } in
      sent_world (Quiet w) _ (cl.update_gateway_status sent) tt w
        (Quiet-status sent w
          (Syncing-need_check_sync sent condition_unknown refl (L.status-set n rule_syncing c)))
        (Quiet-equal w)

  pub Quiet-set_syncing : (g : Gateway C) (w : W) → Quiet w (set_syncing K cl g w).1
  unfolding set_syncing mark_syncing
  Quiet-set_syncing g w =
      let n = rule_syncing_condition condition_true in
      let sent = (mark_syncing K g).0 in
      sent_world (Quiet w) _ (cl.update_gateway_status sent) sent w
        (Quiet-status sent w (
          Syncing-need_check_sync sent condition_true refl
            (L.status-set n rule_syncing g.status.conditions)))
        (Quiet-equal w)

  -- `setSynced` writes the status that it is given, and keeps the stored spec.
  pub set_synced-Wrote :
      (g : Gateway C) (w : W)
      → Wrote S.stored S.used WritesStatus (mark_synced K g).0 w (set_synced K cl g w).1
  unfolding set_synced
  set_synced-Wrote g w =
      let sent = (mark_synced K g).0 in
      sent_world (Wrote S.stored S.used WritesStatus sent w) _ (cl.update_gateway_status sent) sent
        w (Outcome-Wrote S.stored S.used WritesStatus sent w _ (S.status_lem sent w)) (inl refl)

  pub set_synced-used :
      (g : Gateway C) (w : W) (v : Text) → S.used w v → S.used (set_synced K cl g w).1 v
  unfolding set_synced
  set_synced-used g w v u =
      let sent = (mark_synced K g).0 in
      sent_world (λ w'. S.used w' v) _ (cl.update_gateway_status sent) sent w
        (S.status_used sent w v u) u

  -- What `begin_gateway` returns is known to be updating as long as it is stored.
  pub begin_gateway-Updating :
      (g g₁ : Gateway C) (w : W)
      → S.used w (version g)
      → IfStill S.stored S.used w (version g) (λ x. x ≡ g)
      → (begin_gateway K no_conditions cl g w).0 ≡ ok g₁
      → S.used (begin_gateway K no_conditions cl g w).1 (version g₁)
        × IfStill S.stored S.used (begin_gateway K no_conditions cl g w).1 (version g₁) Updating
  unfolding begin_gateway
  begin_gateway-Updating g g₁ w u still h =
      let c = g.status.conditions in
      let n = rule_updating_condition condition_true in
      let sent = record g { status = record g.status { conditions = (K.set_condition n c).0 } } in
      elim (Bool-cases (K.set_condition n c).1) [
        | inl changed ↦
            let (before, after, a, parts, same) =
              Outcome-ok S.stored S.used WritesStatus sent w _ g₁ (S.status_lem sent w)
                (rw changed at h) in
            let stores = a.stores ∙ ap some same in
            let updates =
              ap (λ x. L.status rule_updating x.status.conditions) (sym same)
              ∙ ap (λ x. L.status rule_updating x.conditions) parts.1
              ∙ L.status-set n rule_updating c in
            rw changed (
              S.stored_used (cl.update_gateway_status sent w).1 g₁ stores,
              λ x e ev.
                  ap (λ y. L.status rule_updating y.status.conditions)
                    (some-injective S.stored S.used (sym e ∙ stores))
                  ∙ updates,
            )
        | inr kept ↦
            let same : sent ≡ g₁ = ok-injective (rw kept at h) in
            rw kept (
              subst (S.used w) (ap version same) u,
              λ x e ev.
                  ap (λ y. L.status rule_updating y.status.conditions)
                    (still x e (ev ∙ sym (ap version same)))
                  ∙ L.unchanged n c kept,
            )
      ]

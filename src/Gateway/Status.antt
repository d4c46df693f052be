-- ===== src/Gateway/Status.antt =====
-- pkg/gateway/status.go: when a gateway's rules are synchronised, and how that is recorded.
pub mod Handshake
use k8s_ext_connector.Prelude.{Bool, ◌&&◌, ◌||◌, not, nat_eq, if◌then◌else◌}
use k8s_ext_connector.Exec.{Exec, pure, ◌>>◌}
use k8s_ext_connector.Api.{Gateway}
use k8s_ext_connector.Api.Conditions.{
  Conditions, rule_updating, rule_syncing, condition_true, condition_false,
}
use k8s_ext_connector.Api.Client.{Client}
use k8s_ext_connector.Operator.Update.{rule_syncing_condition}

module _ {C : Type 0} (K : Conditions C) where
  unfoldable pub need_sync : Gateway C → Bool
  need_sync gw =
      K.is_false_for rule_updating gw.status.conditions
      && (not (nat_eq gw.status.rule_generation gw.status.sync_generation)
          || K.is_true_for rule_syncing gw.status.conditions)

  unfoldable pub need_check_sync : Gateway C → Bool
  need_check_sync gw =
      K.is_false_for rule_updating gw.status.conditions
      && (nat_eq gw.status.rule_generation gw.status.sync_generation
          && K.is_false_for rule_syncing gw.status.conditions)

  -- The gateway as `setSyncing` leaves it in memory, and whether it is sent.
  unfoldable pub mark_syncing : Gateway C → Gateway C × Bool
  mark_syncing gw =
      let (conditions, changed) =
        K.set_condition (rule_syncing_condition condition_true) gw.status.conditions in
      (record gw { status = record gw.status { conditions = conditions } }, changed)

  -- The gateway as `setSynced` leaves it in memory, and whether it is sent.
  unfoldable pub mark_synced : Gateway C → Gateway C × Bool
  mark_synced gw =
      let (conditions, changed) =
        K.set_condition (rule_syncing_condition condition_false) gw.status.conditions in
      let generation = if changed then gw.status.rule_generation else gw.status.sync_generation in
      (
        record gw {
          status = record gw.status { conditions = conditions; sync_generation = generation };
        },
        changed,
      )

-- `gw` is a parameter there: the server's answer goes to the local variable, and the caller keeps
-- the object that was sent, with its conditions changed.
module _ {C W : Type 0} (K : Conditions C) (cl : Client C W) where
  unfoldable pub set_syncing : Gateway C → Exec W (Gateway C)
  unfolding mark_syncing
  set_syncing gw =
      let (gw', changed) = mark_syncing K gw in
      if changed then cl.update_gateway_status gw' >> pure gw' else pure gw'

  unfoldable pub set_synced : Gateway C → Exec W (Gateway C)
  unfolding mark_synced
  set_synced gw =
      let (gw', changed) = mark_synced K gw in
      if changed then cl.update_gateway_status gw' >> pure gw' else pure gw'

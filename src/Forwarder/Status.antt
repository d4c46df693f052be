-- ===== src/Forwarder/Status.antt =====
-- pkg/forwarder/status.go: when a forwarder's rules are synchronised, and how that is recorded.
pub mod Handshake
use k8s_ext_connector.Prelude.{Bool, ◌&&◌, ◌||◌, not, nat_eq, if◌then◌else◌}
use k8s_ext_connector.Exec.{Exec, pure, ◌>>◌}
use k8s_ext_connector.Api.{Forwarder}
use k8s_ext_connector.Api.Conditions.{
  Conditions, rule_updating, rule_syncing, condition_true, condition_false,
}
use k8s_ext_connector.Api.Client.{Client}
use k8s_ext_connector.Operator.Update.{rule_syncing_condition}

module _ {C : Type 0} (K : Conditions C) where
  unfoldable pub need_sync : Forwarder C → Bool
  need_sync fwd =
      K.is_false_for rule_updating fwd.status.conditions
      && (not (nat_eq fwd.status.rule_generation fwd.status.sync_generation)
          || K.is_true_for rule_syncing fwd.status.conditions)

  unfoldable pub need_check_sync : Forwarder C → Bool
  need_check_sync fwd =
      K.is_false_for rule_updating fwd.status.conditions
      && (nat_eq fwd.status.rule_generation fwd.status.sync_generation
          && K.is_false_for rule_syncing fwd.status.conditions)

  -- The forwarder as `setSyncing` leaves it in memory, and whether it is sent.
  unfoldable pub mark_syncing : Forwarder C → Forwarder C × Bool
  mark_syncing fwd =
      let (conditions, changed) =
        K.set_condition (rule_syncing_condition condition_true) fwd.status.conditions in
      (record fwd { status = record fwd.status { conditions = conditions } }, changed)

  -- The forwarder as `setSynced` leaves it in memory, and whether it is sent.
  unfoldable pub mark_synced : Forwarder C → Forwarder C × Bool
  mark_synced fwd =
      let (conditions, changed) =
        K.set_condition (rule_syncing_condition condition_false) fwd.status.conditions in
      let generation = if changed then fwd.status.rule_generation else fwd.status.sync_generation in
      (
        record fwd {
          status = record fwd.status { conditions = conditions; sync_generation = generation };
        },
        changed,
      )

-- `fwd` is a parameter there: the server's answer goes to the local variable, and the caller keeps
-- the object that was sent, with its conditions changed.
module _ {C W : Type 0} (K : Conditions C) (cl : Client C W) where
  unfoldable pub set_syncing : Forwarder C → Exec W (Forwarder C)
  unfolding mark_syncing
  set_syncing fwd =
      let (fwd', changed) = mark_syncing K fwd in
      if changed then cl.update_forwarder_status fwd' >> pure fwd' else pure fwd'

  unfoldable pub set_synced : Forwarder C → Exec W (Forwarder C)
  unfolding mark_synced
  set_synced fwd =
      let (fwd', changed) = mark_synced K fwd in
      if changed then cl.update_forwarder_status fwd' >> pure fwd' else pure fwd'

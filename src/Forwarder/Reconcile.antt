-- ===== src/Forwarder/Reconcile.antt =====
-- `Reconcile` of pkg/forwarder/reconciler.go.
pub mod Sync
pub mod Routes
use k8s_ext_connector.Prelude.{
  Text, Bool, true, false, List, [], ◌++◌, ◌==◌, ◌&&◌, ◌||◌, not, if◌then◌else◌,
}
use k8s_ext_connector.Prelude.Dict.{Dict}
use k8s_ext_connector.Exec.{Result, ok, err, Exec, pure, fail, lift, ◌>>=◌, ◌>>◌}
use k8s_ext_connector.Api.{NamespacedName, Forwarder}
use k8s_ext_connector.Api.Conditions.{Conditions}
use k8s_ext_connector.Api.Client.{Client}
use k8s_ext_connector.Iptables.{IptInterface, table_nat, replace_chains, check_chains_exist}
use k8s_ext_connector.Forwarder.Status.{need_sync, need_check_sync, set_syncing, set_synced}
use k8s_ext_connector.Forwarder.Rules.{
  get_expected_ssh_tunnel, get_expected_remote_ssh_tunnel, get_expected_iptables_rule,
}
use k8s_ext_connector.Forwarder.Tunnels.{
  Tunnel, TunnelEvent, forward_nb, remote_forward_nb, update_tunnels, all_running,
}

pub record Reconciler : Type 0 where
  pub namespace : Text
  pub name : Text
  pub tunnels : Dict Tunnel
  pub remote_tunnels : Dict Tunnel

-- The reconciler's memory, what it has done to tunnels, and the world outside.
pub record Machine (W : Type 0) : Type 0 where
  pub reconciler : Reconciler
  pub events : List TunnelEvent
  pub world : W

unfoldable pub new_reconciler : Text → Text → Reconciler
new_reconciler namespace name = record {
  namespace = namespace;
  name = name;
  tunnels = [];
  remote_tunnels = [];
}

-- A call of the outside world.
abbrev pub outside : {W A : Type 0} → Exec W A → Exec (Machine W) A
outside call m = let (r, w) = call m.world in (r, record m { world = w })

-- A question to the outside world that cannot fail.
abbrev pub ask : {W A : Type 0} → (W → A × W) → Exec (Machine W) A
ask call m = let (a, w) = call m.world in (ok a, record m { world = w })

unfoldable pub update_ssh_tunnel : {W : Type 0} → Dict Bool → Exec (Machine W) (Unit {0})
update_ssh_tunnel expected m = elim (update_tunnels forward_nb expected m.reconciler.tunnels) [
  | err e ↦ (err e, m)
  | ok (tunnels, events) ↦ (
    ok tt,
    record m {
      reconciler = record m.reconciler { tunnels = tunnels };
      events = m.events ++ events;
    },
  )
]

unfoldable pub update_remote_ssh_tunnel : {W : Type 0} → Dict Bool → Exec (Machine W) (Unit {0})
update_remote_ssh_tunnel expected m =
    elim (update_tunnels remote_forward_nb expected m.reconciler.remote_tunnels) [
      | err e ↦ (err e, m)
      | ok (tunnels, events) ↦ (
        ok tt,
        record m {
          reconciler = record m.reconciler { remote_tunnels = tunnels };
          events = m.events ++ events;
        },
      )
    ]

module _ {C W : Type 0} (K : Conditions C) (cl : Client C W) (ipt : IptInterface W) where
  unfoldable pub sync_rule : Forwarder C → Exec (Machine W) (Unit {0})
  sync_rule fwd = do
    update_ssh_tunnel (get_expected_ssh_tunnel fwd)
    update_remote_ssh_tunnel (get_expected_remote_ssh_tunnel fwd)
    outside (replace_chains ipt table_nat (get_expected_iptables_rule fwd))

  unfoldable pub is_tunnel_running : Forwarder C → Reconciler → Bool
  is_tunnel_running fwd f =
      all_running f.tunnels (get_expected_ssh_tunnel fwd)
      && all_running f.remote_tunnels (get_expected_remote_ssh_tunnel fwd)

  -- The chains are read only if the tunnels run.
  unfoldable pub rule_synced : Forwarder C → Exec (Machine W) Bool
  rule_synced fwd m =
      if is_tunnel_running fwd m.reconciler
      then ask (check_chains_exist ipt table_nat (get_expected_iptables_rule fwd)) m
      else (ok false, m)

  unfoldable pub reconcile_found : Forwarder C → Exec (Machine W) (Unit {0})
  reconcile_found fwd =
      if need_sync K fwd
      then (do
        fwd ← outside (set_syncing K cl fwd)
        sync_rule fwd
        outside (set_synced K cl fwd)
        pure tt)
      else if need_check_sync K fwd
      then (do
        synced ← rule_synced fwd
        if synced then pure tt else outside (set_syncing K cl fwd) >> pure tt)
      else pure tt

  unfoldable pub reconcile : Text → Text → Exec (Machine W) (Unit {0})
  unfolding reconcile_found
  reconcile namespace name m =
      if not (m.reconciler.namespace == namespace) || not (m.reconciler.name == name)
      then (ok tt, m)
      else (do
        fwd ← outside (cl.get_forwarder (record { namespace = namespace; name = name }))
        reconcile_found fwd)
          m

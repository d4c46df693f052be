-- ===== src/Gateway/Reconcile.antt =====
-- `Reconcile` of pkg/gateway/reconciler.go, with its ssh servers.
pub mod Sync
pub mod Routes
use k8s_ext_connector.Prelude.{
  Text, ℕ, Bool, true, false, Option, none, some, List, [], ◌∷◌, ◌++◌, ◌==◌, not, if◌then◌else◌,
}
use k8s_ext_connector.Prelude.Dict.{Dict, lookup, insert, remove, has}
use k8s_ext_connector.Exec.{Result, ok, err, Exec, pure, lift, ◌>>=◌, ◌>>◌}
use k8s_ext_connector.Api.{Gateway}
use k8s_ext_connector.Api.Conditions.{Conditions}
use k8s_ext_connector.Api.Client.{Client}
use k8s_ext_connector.Iptables.{
  IptInterface, ChainMap, table_nat, replace_chains, add_chains, check_chains_exist,
}
use k8s_ext_connector.Forwarder.Rules.{ssh_port}
use k8s_ext_connector.Util.Server.{Server, new_ssh_server}
use k8s_ext_connector.Gateway.Status.{need_sync, need_check_sync, set_syncing, set_synced}
use k8s_ext_connector.Gateway.Rules.{get_expected_iptables_rule}

pub record Reconciler : Type 0 where
  pub namespace : Text
  pub ssh : Dict Server

-- The reconciler's memory, the servers that it has begun to serve, and the world outside.
pub record Machine (W : Type 0) : Type 0 where
  pub reconciler : Reconciler
  pub served : List Server
  pub world : W

unfoldable pub new_reconciler : Text → Reconciler
new_reconciler ns = record { namespace = ns; ssh = [] }

abbrev pub outside : {W A : Type 0} → Exec W A → Exec (Machine W) A
outside call m = let (r, w) = call m.world in (r, record m { world = w })

abbrev pub ask : {W A : Type 0} → (W → A × W) → Exec (Machine W) A
ask call m = let (a, w) = call m.world in (ok a, record m { world = w })

unfoldable pub ensure_sshd_running : {W : Type 0} → Text → Exec (Machine W) (Unit {0})
ensure_sshd_running ip m =
    let srv = new_ssh_server (ip ++ b':' ∷ ssh_port) in
    if has ip m.reconciler.ssh then (ok tt, m) else (
      ok tt,
      record m {
        reconciler = record m.reconciler { ssh = insert ip srv m.reconciler.ssh };
        served = m.served ++ srv ∷ [];
      },
    )

-- `close` is the server's `Close()`.
unfoldable pub stop_sshd :
    {W : Type 0} → (Server → Exec W (Unit {0})) → Text → Exec (Machine W) (Unit {0})
stop_sshd close ip m = elim (lookup ip m.reconciler.ssh) [
  | none ↦ (ok tt, m)
  | some srv ↦
      (outside (close srv) >> λ m'. (
        ok tt,
        record m' { reconciler = record m'.reconciler { ssh = remove ip m'.reconciler.ssh } },
      ))
        m
]

-- `is_port_open` is `IsPortOpen` of pkg/util/ssh.go, over the network of the gateway.
module _ {C W : Type 0} (K : Conditions C) (cl : Client C W) (ipt : IptInterface W)
    (parse_ipv6 : Text → Option (List ℕ)) (is_port_open : Text → Text → W → Bool × W) where
  unfoldable pub apply_iptables_rules : Gateway C → Exec W (Unit {0})
  apply_iptables_rules gw = do
    (jumps, chains) ← lift (get_expected_iptables_rule parse_ipv6 gw)
    replace_chains ipt table_nat chains
    add_chains ipt table_nat jumps

  unfoldable pub sync_rule : Gateway C → Exec (Machine W) (Unit {0})
  sync_rule gw = do ensure_sshd_running gw.spec.gateway_ip; outside (apply_iptables_rules gw)

  check_both : ChainMap → ChainMap → W → Bool × W
  check_both chains jumps w =
      let (own, w₁) = check_chains_exist ipt table_nat chains w in
      if own then check_chains_exist ipt table_nat jumps w₁ else (false, w₁)

  unfoldable pub check_iptables_rules_applied : Gateway C → W → Bool × W
  unfolding check_both
  check_iptables_rules_applied gw w = elim (get_expected_iptables_rule parse_ipv6 gw) [
    | err e ↦ (false, w)
    | ok (jumps, chains) ↦ check_both chains jumps w
  ]

  unfoldable pub rule_synced : Gateway C → W → Bool × W
  rule_synced gw w =
      let (open_, w₁) = is_port_open gw.spec.gateway_ip ssh_port w in
      if open_ then check_iptables_rules_applied gw w₁ else (false, w₁)

  unfoldable pub reconcile_found : Gateway C → Exec (Machine W) (Unit {0})
  reconcile_found gw =
      if need_sync K gw
      then (do
        gw ← outside (set_syncing K cl gw)
        sync_rule gw
        outside (set_synced K cl gw)
        pure tt)
      else if need_check_sync K gw
      then (do
        synced ← ask (rule_synced gw)
        if synced then pure tt else outside (set_syncing K cl gw) >> pure tt)
      else pure tt

  unfoldable pub reconcile : Text → Text → Exec (Machine W) (Unit {0})
  unfolding reconcile_found
  reconcile namespace name m =
      if not (m.reconciler.namespace == namespace)
      then (ok tt, m)
      else (do
        gw ← outside (cl.get_gateway (record { namespace = namespace; name = name }))
        reconcile_found gw)
          m

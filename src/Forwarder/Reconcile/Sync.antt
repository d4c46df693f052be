-- ===== src/Forwarder/Reconcile/Sync.antt =====
-- What `syncRule` of pkg/forwarder/reconciler.go brings about, as `ruleSynced` sees it.
use k8s_ext_connector.Prelude.{List, true, ◌++◌, ◌==◌, ◌≡◌, refl, ap, ◌∙◌}
use k8s_ext_connector.Prelude.Dict.{Dict, lookup}
use k8s_ext_connector.Exec.{ok}
use k8s_ext_connector.Api.{Forwarder}
use k8s_ext_connector.Api.Conditions.{Conditions}
use k8s_ext_connector.Api.Client.{Client}
use k8s_ext_connector.Iptables.{
  IptInterface, table_nat, replace_chains, chain_prerouting, chain_postrouting,
}
use k8s_ext_connector.Iptables.Chains.{IptLaws}
use k8s_ext_connector.Iptables.Check.{Answers, check_chains_exist-replace_chains}
use k8s_ext_connector.Operator.Ports.Assign.{Distinct}
use k8s_ext_connector.Forwarder.Rules.{
  get_expected_ssh_tunnel, get_expected_remote_ssh_tunnel, get_expected_iptables_rule,
}
use k8s_ext_connector.Forwarder.Rules.Total.{update_tunnels-get_expected}
use k8s_ext_connector.Forwarder.Tunnels.{
  Tunnel, TunnelEvent, forward_nb, remote_forward_nb, all_running, update_tunnels,
}
use k8s_ext_connector.Forwarder.Tunnels.Update.{all_running-update_tunnels}
use k8s_ext_connector.Forwarder.Reconcile.{
  Machine, update_ssh_tunnel, update_remote_ssh_tunnel, sync_rule, is_tunnel_running, rule_synced,
}

-- The chains that a forwarder expects have different names.
pub get_expected_iptables_rule-Distinct :
    {C : Type 0} (fwd : Forwarder C) → Distinct (get_expected_iptables_rule fwd)
unfolding get_expected_iptables_rule lookup ◌==◌ chain_prerouting chain_postrouting
get_expected_iptables_rule-Distinct fwd = (refl, (refl, tt))

module _ {C W : Type 0} (fwd : Forwarder C) (m : Machine W) where
  -- The tunnels are those that the update of the machine's makes.
  abbrev pub IsUpdated : Dict Tunnel → Type 0
  IsUpdated tunnels =
      (events : List TunnelEvent) × (update_tunnels forward_nb (get_expected_ssh_tunnel fwd)
          m.reconciler.tunnels
        ≡ ok (tunnels, events))

  update_ssh_tunnel_ok :
      (m₁ : Machine W) × (update_ssh_tunnel (get_expected_ssh_tunnel fwd) m ≡ (ok tt, m₁))
      × (m₁.world ≡ m.world)
      × (all_running m₁.reconciler.tunnels (get_expected_ssh_tunnel fwd) ≡ true)
      × IsUpdated m₁.reconciler.tunnels
  unfolding update_ssh_tunnel
  update_ssh_tunnel_ok =
      let ((tunnels, events), e) =
        (update_tunnels-get_expected fwd forward_nb m.reconciler.tunnels).0 in
      (
        record m {
          reconciler = record m.reconciler { tunnels = tunnels };
          events = m.events ++ events;
        },
        rw (update_ssh_tunnel, e) refl,
        refl,
        all_running-update_tunnels forward_nb _ _ tunnels events e,
        (events, e),
      )

  update_remote_ssh_tunnel_ok :
      (m₁ : Machine W) × (update_remote_ssh_tunnel (get_expected_remote_ssh_tunnel fwd) m
        ≡ (ok tt, m₁))
      × (m₁.world ≡ m.world)
      × (m₁.reconciler.tunnels ≡ m.reconciler.tunnels)
      × (all_running m₁.reconciler.remote_tunnels (get_expected_remote_ssh_tunnel fwd) ≡ true)
  unfolding update_remote_ssh_tunnel
  update_remote_ssh_tunnel_ok =
      let ((tunnels, events), e) =
        (update_tunnels-get_expected fwd remote_forward_nb m.reconciler.remote_tunnels).1 in
      (
        record m {
          reconciler = record m.reconciler { remote_tunnels = tunnels };
          events = m.events ++ events;
        },
        rw (update_remote_ssh_tunnel, e) refl,
        refl,
        refl,
        all_running-update_tunnels remote_forward_nb _ _ tunnels events e,
      )

module _ {C W : Type 0} (K : Conditions C) (cl : Client C W) (ipt : IptInterface W)
    (fwd : Forwarder C) (m : Machine W) where
  -- `syncRule` ends as the update of the chains does, with the tunnels running.
  pub sync_rule_ran :
      (m₂ : Machine W) × (m₂.world ≡ m.world)
      × IsUpdated fwd m m₂.reconciler.tunnels
      × (is_tunnel_running K cl ipt fwd m₂.reconciler ≡ true)
      × (sync_rule K cl ipt fwd m ≡ (
        (replace_chains ipt table_nat (get_expected_iptables_rule fwd) m₂.world).0,
        record m₂ {
          world = (replace_chains ipt table_nat (get_expected_iptables_rule fwd) m₂.world).1;
        },
      ))
  unfolding sync_rule is_tunnel_running
  sync_rule_ran =
      let (m₁, e₁, w₁, run₁, updated) = update_ssh_tunnel_ok fwd m in
      let (m₂, e₂, w₂, same, run₂) = update_remote_ssh_tunnel_ok fwd m₁ in
      (m₂, w₂ ∙ w₁, rw same updated, rw (same, run₁, run₂) refl, rw (e₁, e₂) refl)

  -- Where the interface can be made and answers: if `ReplaceChains` succeeds for the chains that the
  -- forwarder expects, then `syncRule` succeeds, and right after it `ruleSynced` says yes.
  pub rule_synced-sync_rule :
      (L : IptLaws ipt table_nat)
      → Answers ipt table_nat L
      → ((v : W) → (ipt.new v).0 ≡ ok tt)
      → (replace_chains ipt table_nat (get_expected_iptables_rule fwd) m.world).0 ≡ ok tt
      → ((sync_rule K cl ipt fwd m).0 ≡ ok tt)
        × ((rule_synced K cl ipt fwd (sync_rule K cl ipt fwd m).1).0 ≡ ok true)
  unfolding rule_synced
  rule_synced-sync_rule L a new h =
      let (m₂, w₂, _, run, e) = sync_rule_ran in
      let went = rw (← w₂) at h in
      let found =
        check_chains_exist-replace_chains ipt table_nat L (get_expected_iptables_rule fwd) m₂.world
          (get_expected_iptables_rule-Distinct fwd) a new went in
      rw e (went, rw run (ap ok found))

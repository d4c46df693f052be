-- ===== src/Forwarder/Reconcile/Routes.antt =====
-- Where a connection from a pod goes once `syncRule` of pkg/forwarder/reconciler.go has succeeded:
-- the iptables rule that redirects it, and the tunnels that listen where it arrives.
use k8s_ext_connector.Prelude.{
  Text, Option, some, List, [], ◌==◌, ◌≡◌, refl, sym, ap, ◌∙◌, arith, All, In, All-In, Bool-cases,
  Option-cases, inl, inr,
}
use mathlib.Core.List.{append_cancel_left}
use k8s_ext_connector.Prelude.Dict.{Dict, lookup, has}
use k8s_ext_connector.Exec.{ok, Result-cases, ok-injective}
use k8s_ext_connector.Api.{ForwarderRule, Forwarder}
use k8s_ext_connector.Api.Conditions.{Conditions}
use k8s_ext_connector.Api.Client.{Client}
use k8s_ext_connector.Iptables.{
  RuleSpec, IptInterface, table_nat, replace_chains, chain_prerouting, chain_postrouting,
}
use k8s_ext_connector.Iptables.Chains.{IptLaws, add_each, replace_chains-rules}
use k8s_ext_connector.Iptables.Match.{Packet, Redirects, first_match, first_match-add_each_nil}
use k8s_ext_connector.Operator.Ports.{flow}
use k8s_ext_connector.Operator.Ports.Reuse.{LacksColon}
use k8s_ext_connector.Forwarder.Rules.{
  egress_key, prerouting, get_expected_ssh_tunnel, get_expected_iptables_rule,
}
use k8s_ext_connector.Forwarder.Rules.Keys.{
  PlainRule, egress_tunnel, to_tunnel-egress_key, get_expected_ssh_tunnel_complete,
  get_expected_ssh_tunnel_sound, first_match-prerouting,
}
use k8s_ext_connector.Forwarder.Tunnels.{Tunnel, endpoint, to_tunnel, forward_nb}
use k8s_ext_connector.Forwarder.Tunnels.Update.{
  tunnel_of, lookup-update_tunnels, has-update_tunnels,
}
use k8s_ext_connector.Forwarder.Reconcile.{Machine, sync_rule}
use k8s_ext_connector.Forwarder.Reconcile.Sync.{
  IsUpdated, sync_rule_ran, get_expected_iptables_rule-Distinct,
}

-- Each tunnel is the one that `toTunnel` makes of its key.
abbrev pub Keyed : Dict Tunnel → Type 0
Keyed tunnels = (k : Text) (t : Tunnel) → lookup k tunnels ≡ some t → to_tunnel k ≡ ok t

-- Rules that share a relay port carry the same flow.
abbrev pub PortsApart : List ForwarderRule → Type 0
PortsApart rules =
    (r s : ForwarderRule)
    → In r rules
    → In s rules
    → r.relay_port ≡ s.relay_port
    → flow r.source_ip r.target_port ≡ flow s.source_ip s.target_port

-- The packet is redirected to an endpoint at which a tunnel listens, and all tunnels that listen
-- there are those of rules of the flow.
pub record IsRouted (redirect : RuleSpec → Packet → Option Text) (ip : Text)
    (egress_rules : List ForwarderRule) (chain : List RuleSpec) (tunnels : Dict Tunnel)
    (rule : ForwarderRule) : Type 0 where
  pub target : Text
  pub redirected :
      first_match redirect
        (record { src = rule.source_ip; dst = ip; dport = rule.target_port })
        chain
      ≡ some target
  pub listening :
      (k : Text) × (t : Tunnel) × (lookup k tunnels ≡ some t) × (t.local_endpoint ≡ target)
  pub delivered :
      (k : Text) (t : Tunnel)
      → lookup k tunnels ≡ some t
      → t.local_endpoint ≡ target
      → (s : ForwarderRule) × In s egress_rules
        × (flow s.source_ip s.target_port ≡ flow rule.source_ip rule.target_port)
        × (t ≡ egress_tunnel ip s)

flow_of : {a b c d : Text} → a ≡ b → c ≡ d → flow a c ≡ flow b d
flow_of e f = cc (e, f)

tunnel_of-some : (k : Text) (t : Tunnel) → tunnel_of k ≡ some t → to_tunnel k ≡ ok t
tunnel_of-some k t h = elim (Result-cases (to_tunnel k)) [
  | inl (u, e) ↦ ground (arith, e, h)
  | inr (x, e) ↦ absurd (ground (arith, e, h))
]

module _ {C W : Type 0} (fwd : Forwarder C) (m : Machine W) (updated : Dict Tunnel)
    (went : IsUpdated fwd m updated) (keyed : Keyed m.reconciler.tunnels) where
  -- The tunnels of the update are again those of their keys.
  updated-Keyed : Keyed updated
  updated-Keyed k t h =
      let (events, e) = went in
      let now =
        lookup-update_tunnels forward_nb (get_expected_ssh_tunnel fwd) m.reconciler.tunnels updated
          events e k in
      elim (Bool-cases (has k (get_expected_ssh_tunnel fwd))) [
        | inr away ↦ absurd (ground (arith, now, away, h))
        | inl there ↦ elim (Bool-cases (has k m.reconciler.tunnels)) [
          | inl old ↦ keyed k t (ground (arith, now, there, old, h))
          | inr new ↦ tunnel_of-some k t (ground (arith, now, there, new, h))
        ]
      ]

  module _ (plain : LacksColon fwd.spec.forwarder_ip)
      (rules : All PlainRule fwd.spec.egress_rules) where
    egress_tunnel_lem :
        (rule : ForwarderRule)
        → In rule fwd.spec.egress_rules
        → to_tunnel (egress_key fwd.spec.forwarder_ip rule)
          ≡ ok (egress_tunnel fwd.spec.forwarder_ip rule)
    egress_tunnel_lem rule i =
        to_tunnel-egress_key fwd.spec.forwarder_ip rule plain
          (All-In PlainRule rule fwd.spec.egress_rules rules i)

    -- A tunnel of the map is that of an egress rule.
    updated_sound :
        (k : Text) (t : Tunnel)
        → lookup k updated ≡ some t
        → (s : ForwarderRule) × In s fwd.spec.egress_rules
          × (t ≡ egress_tunnel fwd.spec.forwarder_ip s)
    updated_sound k t h =
        let (events, e) = went in
        let keys =
          has-update_tunnels forward_nb (get_expected_ssh_tunnel fwd) m.reconciler.tunnels updated
            events e k in
        let (s, i, same) = get_expected_ssh_tunnel_sound fwd k (ground (arith, keys, h)) in
        let read = updated-Keyed k t h in
        (s, i, ok-injective (sym read ∙ ap to_tunnel (sym same) ∙ egress_tunnel_lem s i))

    -- Each egress rule has its tunnel in the map.
    updated_complete :
        (rule : ForwarderRule)
        → In rule fwd.spec.egress_rules
        → lookup (egress_key fwd.spec.forwarder_ip rule) updated
          ≡ some (egress_tunnel fwd.spec.forwarder_ip rule)
    updated_complete rule i =
        let (events, e) = went in
        let key = egress_key fwd.spec.forwarder_ip rule in
        let keys =
          has-update_tunnels forward_nb (get_expected_ssh_tunnel fwd) m.reconciler.tunnels updated
            events e key in
        let there = get_expected_ssh_tunnel_complete fwd rule i in
        elim (Option-cases (lookup key updated)) [
          | inl gone ↦ absurd (ground (arith, keys, there, gone))
          | inr (t, found) ↦
              found
              ∙ ap some (ok-injective (sym (updated-Keyed key t found) ∙ egress_tunnel_lem rule i))
        ]

    -- The tunnels that listen at a rule's relay port are those of rules of its flow.
    updated_delivers :
        PortsApart fwd.spec.egress_rules
        → (rule : ForwarderRule) → In rule fwd.spec.egress_rules
        → (k : Text) (t : Tunnel) → lookup k updated ≡ some t
        → t.local_endpoint ≡ endpoint fwd.spec.forwarder_ip rule.relay_port
        → (s : ForwarderRule) × In s fwd.spec.egress_rules
          × (flow s.source_ip s.target_port ≡ flow rule.source_ip rule.target_port)
          × (t ≡ egress_tunnel fwd.spec.forwarder_ip s)
    updated_delivers apart rule i k t h at =
        let (s, j, same) = updated_sound k t h in
        let ends = sym (ap (λ (x : Tunnel). x.local_endpoint) same) ∙ at in
        let behind = append_cancel_left fwd.spec.forwarder_ip _ _ ends in
        (s, j, apart s rule j i (cc behind), same)

module _ {C W : Type 0} (K : Conditions C) (cl : Client C W) (ipt : IptInterface W)
    (L : IptLaws ipt table_nat) (redirect : RuleSpec → Packet → Option Text)
    (R : Redirects redirect) (fwd : Forwarder C) (m : Machine W) where
  -- The chain that a successful `ReplaceChains` leaves in PREROUTING.
  chain_after :
      (w : W)
      → (replace_chains ipt table_nat (get_expected_iptables_rule fwd) w).0 ≡ ok tt
      → L.rules (replace_chains ipt table_nat (get_expected_iptables_rule fwd) w).1 chain_prerouting
        ≡ add_each [] (prerouting fwd.spec.forwarder_ip fwd.spec.egress_rules)
  unfolding get_expected_iptables_rule lookup ◌==◌ chain_prerouting chain_postrouting
  chain_after w h =
      replace_chains-rules ipt table_nat L (get_expected_iptables_rule fwd) chain_prerouting w
        (get_expected_iptables_rule-Distinct fwd) h

  -- Let `syncRule` succeed, for a forwarder whose egress rules give a relay port to one
  -- `sourceIP:targetPort` only and whose fields hold no colon, with each tunnel in memory that of
  -- its key. Then a packet that a source of an egress rule sends to the forwarder's address and the
  -- rule's target port is redirected, by the first rule that matches in PREROUTING, to an endpoint at
  -- which a tunnel listens, and every tunnel that listens there is that of an egress rule of the
  -- same `sourceIP:targetPort`: it goes to the rule's destination by the rule's gateway. The tunnels
  -- in memory are again those of their keys.
  pub sync_rule-IsRouted :
      Keyed m.reconciler.tunnels
      → LacksColon fwd.spec.forwarder_ip
      → All PlainRule fwd.spec.egress_rules
      → PortsApart fwd.spec.egress_rules
      → (sync_rule K cl ipt fwd m).0 ≡ ok tt
      → Keyed (sync_rule K cl ipt fwd m).1.reconciler.tunnels
        × ((rule : ForwarderRule)
            → In rule fwd.spec.egress_rules
            → IsRouted redirect fwd.spec.forwarder_ip fwd.spec.egress_rules
                (L.rules (sync_rule K cl ipt fwd m).1.world chain_prerouting)
                (sync_rule K cl ipt fwd m).1.reconciler.tunnels
                rule)
  sync_rule-IsRouted keyed plain rules apart h =
      let (m₂, same, updated, _, e) = sync_rule_ran K cl ipt fwd m in
      let w = m₂.world in
      let replaced = (rw e at h) in
      let chain = chain_after w replaced in
      rw e (
        updated-Keyed fwd m m₂.reconciler.tunnels updated keyed,
        λ rule i.
            let (r, j, src, dport, first) =
              first_match-prerouting redirect R fwd.spec.forwarder_ip fwd.spec.egress_rules rule
                i in
            record {
              target = endpoint fwd.spec.forwarder_ip r.relay_port;
              redirected =
                  ap (first_match redirect _) chain ∙ first_match-add_each_nil redirect _ _ ∙ first;
              listening = (
                egress_key fwd.spec.forwarder_ip r,
                egress_tunnel fwd.spec.forwarder_ip r,
                updated_complete fwd m m₂.reconciler.tunnels updated keyed plain rules r j,
                refl,
              );
              delivered = λ k t there at.
                  let (s, n, same_flow, own) =
                    updated_delivers fwd m m₂.reconciler.tunnels updated keyed plain rules apart r j
                      k t there at in
                  (s, n, same_flow ∙ flow_of src dport, own);
            },
      )

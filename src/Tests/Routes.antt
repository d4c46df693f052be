-- ===== src/Tests/Routes.antt =====
-- A connection of one pod through a forwarder, with a reader of redirections that looks at the
-- arguments of a rule.
use k8s_ext_connector.Prelude.{
  Text, codes, ◌&&◌, Option, some, none, [], ◌∷◌, ◌++◌, ◌==◌, ◌≡◌, refl, sym, subst, arith, In, inl,
  inr, if◌then◌else◌,
}
use k8s_ext_connector.Prelude.Dict.{lookup}
use k8s_ext_connector.Exec.{ok}
use k8s_ext_connector.Api.{ForwarderRule, Forwarder}
use k8s_ext_connector.Iptables.{
  RuleSpec, dnat_rule_spec, chain_prerouting, replace_chains, append_chains, clear_chains,
  append_all, append_rules, add_chains,
}
use k8s_ext_connector.Iptables.Chains.{contains}
use k8s_ext_connector.Iptables.Match.{Packet, Redirects}
use k8s_ext_connector.Forwarder.Rules.{get_expected_iptables_rule}
use k8s_ext_connector.Forwarder.Reconcile.{new_reconciler, sync_rule}
use k8s_ext_connector.Forwarder.Reconcile.Sync.{rule_synced-sync_rule}
use k8s_ext_connector.Forwarder.Reconcile.Routes.{Keyed, IsRouted, PortsApart, sync_rule-IsRouted}
use k8s_ext_connector.Forwarder.Rules.Keys.{PlainRule}
use k8s_ext_connector.Operator.Rules.{gen_gateway_ingress_rules}
use k8s_ext_connector.Operator.Rules.Gateways.{Names}
use k8s_ext_connector.Operator.Update.{set_gateway_rules}
use k8s_ext_connector.Util.Ip.{get_hex_ip}
use k8s_ext_connector.Gateway.Rules
use k8s_ext_connector.Gateway.Rules.{prechain_prefix, jump_chains, own_chains}
use k8s_ext_connector.Gateway.Reconcile.{apply_iptables_rules}
use k8s_ext_connector.Gateway.Reconcile.Routes.{IsServed, apply_iptables_rules-IsServed}
use k8s_ext_connector.Tests.World.{Pair, pair_conditions, fresh, fresh_gateway}
use k8s_ext_connector.Tests.Chains.{Chains, in_memory}
use k8s_ext_connector.Tests.Ports.{rule}
use k8s_ext_connector.Tests.Syncs.{fwd, machine, api, laws, no_rules, no_ipv6, closed}

abbrev redirect : RuleSpec → Packet → Option Text
redirect (_ ∷ _ ∷ _ ∷ _ ∷ _ ∷ dst ∷ _ ∷ src ∷ _ ∷ dport ∷ _ ∷ _ ∷ _ ∷ target ∷ []) p =
    if p.dst == dst && (p.src == src && p.dport == dport) then some target else none
redirect _ p = none

redirect-Redirects : Redirects redirect
unfolding dnat_rule_spec
redirect-Redirects = record { dnat = λ dst src dport to_ip to_port p. refl }

no_tunnels : Keyed machine.reconciler.tunnels
unfolding lookup new_reconciler
no_tunnels k t h = absurd cc

one_rule : PortsApart (rule ∷ [])
one_rule r s (inl e) (inl f) h = cc (e, f)
one_rule r s (inl e) (inr z) h = absurd z
one_rule r s (inr z) n h = absurd z

synced : (sync_rule pair_conditions api in_memory fwd machine).0 ≡ ok tt
unfolding replace_chains append_chains clear_chains append_all append_rules
    get_expected_iptables_rule
synced =
    (rule_synced-sync_rule pair_conditions api in_memory fwd machine laws
      (λ chain r w. (contains r (w chain), refl)) (λ v. refl) refl).0

sync_rule-IsRouted_example :
    Keyed (sync_rule pair_conditions api in_memory fwd machine).1.reconciler.tunnels
    × ((r : ForwarderRule)
        → In r fwd.spec.egress_rules
        → IsRouted redirect fwd.spec.forwarder_ip fwd.spec.egress_rules
            (laws.rules
              (sync_rule pair_conditions api in_memory fwd machine).1.world
              chain_prerouting)
            (sync_rule pair_conditions api in_memory fwd machine).1.reconciler.tunnels
            r)
sync_rule-IsRouted_example =
    sync_rule-IsRouted pair_conditions api in_memory laws redirect redirect-Redirects fwd machine
      no_tunnels (omega arith) ((omega arith, omega arith, omega arith, omega arith), tt) one_rule
      synced

-- The same rule the other way round, for the gateway that it names.
abbrev serving : Forwarder Pair
serving = record fresh { spec = record fresh.spec { ingress_rules = rule ∷ [] } }

abbrev address : Text
address = codes "192.168.122.200"

rules_agree :
    (f : Forwarder Pair) (s : ForwarderRule)
    → In f (serving ∷ [])
    → In s f.spec.ingress_rules
    → Names s fresh_gateway
    → (s.gateway_ip ≡ address) × PlainRule s
rules_agree f s (inl e) i n =
    subst
      (λ (x : Forwarder Pair). In s x.spec.ingress_rules → (s.gateway_ip ≡ address) × PlainRule s)
      (sym e)
      (λ j. elim j [
        | inl h ↦
            subst (λ (x : ForwarderRule). (x.gateway_ip ≡ address) × PlainRule x) (sym h)
              (refl, (omega arith, omega arith, omega arith, omega arith))
        | inr z ↦ absurd z
      ])
      i
rules_agree f s (inr z) i n = absurd z

abbrev served_after : Chains
served_after =
    (apply_iptables_rules pair_conditions api in_memory no_ipv6 closed
      (set_gateway_rules pair_conditions fresh.status.conditions api (serving ∷ []) address
        fresh_gateway)
      no_rules).1

apply_iptables_rules-IsServed_example :
    IsServed redirect
      (laws.rules served_after (prechain_prefix ++ codes "c0a87ac8"))
      address
      (serving ∷ [])
      rule
unfolding apply_iptables_rules get_hex_ip Rules.get_expected_iptables_rule replace_chains
    append_chains clear_chains own_chains append_all append_rules add_chains jump_chains ◌==◌
    set_gateway_rules gen_gateway_ingress_rules
apply_iptables_rules-IsServed_example =
    apply_iptables_rules-IsServed pair_conditions fresh.status.conditions api api in_memory no_ipv6
      closed laws redirect redirect-Redirects (serving ∷ []) fresh_gateway address
      (codes "c0a87ac8") no_rules refl rules_agree refl serving rule (inl refl) (inl refl)
      (refl, refl)

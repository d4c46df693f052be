-- ===== src/Tests/Syncs.antt =====
-- One synchronisation of a forwarder and of a gateway, in an iptables in memory.
use k8s_ext_connector.Prelude.{Text, codes, ℕ, Bool, true, Option, none, List, [], ◌∷◌, ◌≡◌, refl}
use k8s_ext_connector.Exec.{ok}
use k8s_ext_connector.Api.{Forwarder}
use k8s_ext_connector.Api.Client.{Client}
use k8s_ext_connector.Iptables.{
  table_nat, replace_chains, append_chains, clear_chains, append_all, append_rules,
}
use k8s_ext_connector.Iptables.Chains.{IptLaws, contains}
use k8s_ext_connector.Forwarder.Rules.{get_expected_iptables_rule}
use k8s_ext_connector.Forwarder.Reconcile.{Machine, new_reconciler, sync_rule, rule_synced}
use k8s_ext_connector.Forwarder.Reconcile.Sync.{rule_synced-sync_rule}
use k8s_ext_connector.Gateway.Rules
use k8s_ext_connector.Gateway.Rules.{prechain_prefix, postchain_prefix}
use k8s_ext_connector.Gateway.Reconcile.{apply_iptables_rules}
use k8s_ext_connector.Tests.World.{Pair, pair_conditions, empty_client, fresh, fresh_gateway}
use k8s_ext_connector.Tests.Chains.{Chains, in_memory, memory_laws}
use k8s_ext_connector.Tests.Ports.{rule}

abbrev pub fwd : Forwarder Pair
fwd = record fresh { spec = record fresh.spec { egress_rules = rule ∷ [] } }

abbrev pub no_rules : Chains
no_rules = λ c. []

abbrev pub machine : Machine Chains
machine = record {
  reconciler = new_reconciler (codes "external-services") (codes "my-externalservice");
  events = [];
  world = no_rules;
}

abbrev pub api : Client Pair Chains
api = empty_client

abbrev pub laws : IptLaws in_memory table_nat
laws = memory_laws table_nat

rule_synced-sync_rule_example :
    ((sync_rule pair_conditions api in_memory fwd machine).0 ≡ ok tt)
    × ((rule_synced pair_conditions api in_memory fwd
          (sync_rule pair_conditions api in_memory fwd machine).1).0
        ≡ ok true)
unfolding replace_chains append_chains clear_chains append_all append_rules
    get_expected_iptables_rule
rule_synced-sync_rule_example =
    rule_synced-sync_rule pair_conditions api in_memory fwd machine laws
      (λ chain r w. (contains r (w chain), refl)) (λ v. refl) refl

abbrev pub no_ipv6 : Text → Option (List ℕ)
no_ipv6 _ = none

abbrev pub closed : Text → Text → Chains → Bool × Chains
closed _ _ w = (true, w)

abbrev after : Chains
after = (apply_iptables_rules pair_conditions api in_memory no_ipv6 closed fresh_gateway no_rules).1

-- ===== src/Tests/Protocol.antt =====
-- One run of the operator and the gateway program, up to a gateway that is synchronised.
use k8s_ext_connector.Prelude.{
  Text, codes, false, Option, none, some, [], ◌==◌, ◌≡◌, refl, sym, arith,
}
use k8s_ext_connector.Util.Ip.{get_hex_ip}
use k8s_ext_connector.Util.Decimal.{itoa}
use k8s_ext_connector.Api.{Gateway}
use k8s_ext_connector.Api.Client.{Client}
use k8s_ext_connector.Iptables.{
  replace_chains, add_chains, append_chains, clear_chains, append_all, append_rules,
}
use k8s_ext_connector.Operator.Rules.{gen_gateway_ingress_rules}
use k8s_ext_connector.Operator.Update.{begin_gateway, set_gateway_rules, finish_gateway}
use k8s_ext_connector.Gateway.Status.{
  need_sync, need_check_sync, mark_syncing, mark_synced, set_syncing, set_synced,
}
use k8s_ext_connector.Gateway.Rules.{get_expected_iptables_rule, jump_chains, own_chains}
use k8s_ext_connector.Gateway.Reconcile.{apply_iptables_rules}
use k8s_ext_connector.Gateway.Protocol.Steps
use k8s_ext_connector.Gateway.Protocol.Steps.{
  idle, has_read, has_begun, has_written, waiting, needs_sync, is_syncing, has_applied, System,
  operator_reads, operator_begins, operator_writes, operator_finishes, gateway_needs_sync,
  gateway_begins, gateway_applies, gateway_finishes, here, next,
}
use k8s_ext_connector.Gateway.Protocol.Store.{some-injective}
use k8s_ext_connector.Gateway.Protocol.Safety.{Installed, Reach-Installed}
use k8s_ext_connector.Tests.World.{
  Pair, pair_conditions, pair_laws, empty_client, fresh_gateway, status_of, set_status, differs,
}
use k8s_ext_connector.Tests.Chains.{Chains, in_memory}
use k8s_ext_connector.Tests.Syncs.{no_rules, closed, no_ipv6}
use k8s_ext_connector.Tests.Versions.{Server, object, server, this, versions}

abbrev hosts : Client Pair Chains
hosts = empty_client

abbrev State : Type 0
State = System Pair Server Chains

abbrev begun : State
begun = record {
  api = record {
    spec = fresh_gateway.spec;
    status = record fresh_gateway.status {
      conditions = record { updating = none; syncing = none };
    };
    writes = 0;
  };
  host = no_rules;
  operator = idle;
  gateway = waiting;
}

abbrev Reachable : State → Type 0
Reachable =
    Steps.Reach pair_conditions fresh_gateway.status.conditions server hosts in_memory no_ipv6
      closed this versions begun

abbrev Run : Type 0
Run = (s : State) × Reachable s

abbrev Move : State → State → Type 0
Move =
    Steps.Step pair_conditions fresh_gateway.status.conditions server hosts in_memory no_ipv6 closed
      this versions

advance : (r : Run) (t : State) → Move r.0 t → Run
advance r t m = (t, next r.1 m)

-- The object that the operator, or the gateway program, holds.
by_operator : Steps.Operator Pair → Gateway Pair
by_operator (has_read g) = g
by_operator (has_begun g) = g
by_operator (has_written g) = g
by_operator idle = fresh_gateway

by_gateway : Steps.Reconciling Pair → Gateway Pair
by_gateway (needs_sync g) = g
by_gateway (is_syncing g) = g
by_gateway (has_applied g) = g
by_gateway _ = fresh_gateway

abbrev address : Text
address = codes "192.168.122.200"

handed_over : Run
unfolding advance by_operator begin_gateway set_gateway_rules finish_gateway itoa ◌==◌ status_of
    set_status differs
handed_over =
    let r₁ =
      advance (begun, here) _
        (operator_reads (object begun.api) (0, omega arith, refl)
          (λ x e ev. some-injective versions.stored versions.used (sym e))) in
    let r₂ = advance r₁ _ (operator_begins (by_operator r₁.0.operator) refl) in
    let r₃ = advance r₂ _ (operator_writes (by_operator r₂.0.operator) [] address refl) in
    advance r₃ _ (operator_finishes (by_operator r₃.0.operator) refl)

unsynced :
    (g : Gateway Pair)
    → ◌≡◌ {A = Option (Gateway Pair)} (some (object begun.api)) (some g)
    → need_check_sync pair_conditions g ≡ false
unfolding need_check_sync status_of
unsynced g e = rw (← some-injective versions.stored versions.used e) refl

-- The first attempt of the gateway program, whose `setSynced` is refused.
attempt : Run
unfolding handed_over advance by_gateway by_operator begin_gateway set_gateway_rules finish_gateway
    need_sync set_syncing set_synced mark_syncing mark_synced itoa ◌==◌ status_of set_status differs
    apply_iptables_rules get_hex_ip get_expected_iptables_rule replace_chains append_chains
    clear_chains own_chains append_all append_rules add_chains jump_chains gen_gateway_ingress_rules
attempt =
    let r₁ = advance handed_over _ (gateway_needs_sync (object handed_over.0.api) refl refl) in
    let r₂ = advance r₁ _ (gateway_begins (by_gateway r₁.0.gateway) refl) in
    let r₃ = advance r₂ _ (gateway_applies (by_gateway r₂.0.gateway) refl) in
    advance r₃ _ (gateway_finishes (by_gateway r₃.0.gateway) refl)

-- The second attempt, which has no `setSyncing` to send.
synchronised : Run
unfolding attempt handed_over advance by_gateway by_operator begin_gateway set_gateway_rules
    finish_gateway need_sync need_check_sync set_syncing set_synced mark_syncing mark_synced itoa
    ◌==◌ status_of set_status differs apply_iptables_rules get_hex_ip get_expected_iptables_rule
    replace_chains append_chains clear_chains own_chains append_all append_rules add_chains
    jump_chains gen_gateway_ingress_rules
synchronised =
    let r₁ = advance attempt _ (gateway_needs_sync (object attempt.0.api) refl refl) in
    let r₂ = advance r₁ _ (gateway_begins (by_gateway r₁.0.gateway) refl) in
    let r₃ = advance r₂ _ (gateway_applies (by_gateway r₂.0.gateway) refl) in
    advance r₃ _ (gateway_finishes (by_gateway r₃.0.gateway) refl)

Reach-Installed_example :
    Installed pair_conditions pair_laws fresh_gateway.status.conditions server hosts in_memory
      no_ipv6 closed this versions
      (object synchronised.0.api)
      synchronised.0.host
unfolding synchronised attempt handed_over advance by_gateway by_operator begin_gateway
    set_gateway_rules finish_gateway need_sync need_check_sync set_syncing set_synced mark_syncing
    mark_synced itoa ◌==◌ status_of set_status differs apply_iptables_rules get_hex_ip
    get_expected_iptables_rule replace_chains append_chains clear_chains own_chains append_all
    append_rules add_chains jump_chains gen_gateway_ingress_rules
Reach-Installed_example =
    Reach-Installed pair_conditions pair_laws fresh_gateway.status.conditions server hosts in_memory
      no_ipv6 closed this versions {s = begun} refl refl unsynced synchronised.1
      (object synchronised.0.api) refl refl

-- ===== src/Tests/Gateways.antt =====
-- What the reconcilers do to a status, at a concrete object.
use k8s_ext_connector.Prelude.{ℕ, ◌+◌, true, false, ◌==◌, ◌≡◌, refl, if◌then◌else◌}
use k8s_ext_connector.Prelude.Int.{pos}
use k8s_ext_connector.Exec.{ok, err, api}
use k8s_ext_connector.Util.Decimal.{itoa}
use k8s_ext_connector.Api.{Gateway}
use k8s_ext_connector.Api.Client.{Client}
use k8s_ext_connector.Tests.World.{
  Pair, pair_conditions, pair_laws, empty_client, status_of, set_status, differs, fresh_gateway,
}
use k8s_ext_connector.Gateway.Status.{
  need_sync, need_check_sync, mark_syncing, mark_synced, set_syncing, set_synced,
}
use k8s_ext_connector.Gateway.Status.Handshake.{set_synced-set_syncing_gateway}

-- Each status that is sent is stored under the next version, which is the number  of the world.
abbrev versioned : Client Pair ℕ
versioned = record empty_client {
  update_gateway_status =
      λ f v. if itoa (pos v) == f.meta.resource_version then (ok f, v + 1) else (err (api 409), v);
}

abbrev syncing : Gateway Pair
syncing = (mark_syncing pair_conditions fresh_gateway).0

abbrev synced : Gateway Pair
synced = (mark_synced pair_conditions syncing).0

set_synced-set_syncing_gateway_example :
    (need_sync pair_conditions syncing ≡ true)
    × (need_sync pair_conditions synced ≡ false)
    × (need_check_sync pair_conditions synced ≡ true)
    × (synced.spec ≡ fresh_gateway.spec)
    × (synced.status.rule_generation ≡ fresh_gateway.status.rule_generation)
unfolding set_syncing set_synced mark_syncing mark_synced need_sync itoa ◌==◌ status_of set_status
    differs
set_synced-set_syncing_gateway_example =
    set_synced-set_syncing_gateway pair_conditions pair_laws versioned fresh_gateway 7 7 refl refl
      refl

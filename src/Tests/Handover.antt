-- ===== src/Tests/Handover.antt =====
-- What the reconcilers do to a status, at a concrete object.
use k8s_ext_connector.Prelude.{
  ℕ, ◌+◌, true, false, ◌==◌, eq_iff, ◌≡◌, ◌≢◌, refl, sym, ◌∙◌, arith, Bool-cases, inl, inr,
  if◌then◌else◌,
}
use k8s_ext_connector.Prelude.Int.{pos}
use k8s_ext_connector.Exec.{ok, err, api}
use k8s_ext_connector.Util.Decimal.{itoa, itoa-injective}
use k8s_ext_connector.Api.{Forwarder}
use k8s_ext_connector.Api.Client.{Client}
use k8s_ext_connector.Tests.World.{
  Pair, pair_conditions, pair_laws, empty_client, status_of, set_status, differs, fresh,
}
use k8s_ext_connector.Forwarder.Status.{
  need_sync, need_check_sync, mark_syncing, mark_synced, set_syncing, set_synced,
}
use k8s_ext_connector.Forwarder.Status.Handshake.{set_synced-set_syncing, set_synced_conflicts}

-- Each status that is sent is stored under the next version, which is the number  of the world.
abbrev versioned : Client Pair ℕ
versioned = record empty_client {
  update_forwarder_status =
      λ f v. if itoa (pos v) == f.meta.resource_version then (ok f, v + 1) else (err (api 409), v);
}

abbrev syncing : Forwarder Pair
syncing = (mark_syncing pair_conditions fresh).0

abbrev synced : Forwarder Pair
synced = (mark_synced pair_conditions syncing).0

set_synced-set_syncing_example :
    (need_sync pair_conditions syncing ≡ true)
    × (need_sync pair_conditions synced ≡ false)
    × (need_check_sync pair_conditions synced ≡ true)
    × (synced.spec ≡ fresh.spec)
    × (synced.status.rule_generation ≡ fresh.status.rule_generation)
unfolding set_syncing set_synced mark_syncing mark_synced need_sync itoa ◌==◌ status_of set_status
    differs
set_synced-set_syncing_example =
    set_synced-set_syncing pair_conditions pair_laws versioned fresh 7 7 refl refl refl

refuses :
    (f : Forwarder Pair) (v : ℕ)
    → itoa (pos v) ≢ f.meta.resource_version
    → (versioned.update_forwarder_status f v).0 ≡ err (api 409)
refuses f v h = elim (Bool-cases (itoa (pos v) == f.meta.resource_version)) [
  | inl same ↦ absurd (h ((eq_iff _ _).0 same))
  | inr other ↦ rw other refl
]

moves :
    (f : Forwarder Pair) (v : ℕ) (f' : Forwarder Pair)
    → (versioned.update_forwarder_status f v).0 ≡ ok f'
    → itoa (pos (versioned.update_forwarder_status f v).1) ≢ f.meta.resource_version
moves f v f' h e = elim (Bool-cases (itoa (pos v) == f.meta.resource_version)) [
  | inl same ↦
      let next = itoa-injective (v + 1) v ((rw same at e) ∙ sym ((eq_iff _ _).0 same)) in
      absurd (omega arith)
  | inr other ↦ let refused = rw other at h in absurd cc
]

set_synced_conflicts_example : (set_synced pair_conditions versioned syncing 8).0 ≡ err (api 409)
unfolding set_syncing set_synced mark_syncing mark_synced need_sync itoa ◌==◌ status_of set_status
    differs
set_synced_conflicts_example =
    set_synced_conflicts pair_conditions pair_laws versioned (λ v. itoa (pos v)) (api 409) fresh 7 8
      refuses moves refl refl refl refl

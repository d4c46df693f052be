-- ===== src/Operator/Update/Store.antt =====
-- The stored forwarders and gateways, as the operator's updates meet them
-- (pkg/controller/externalservice/reconciler.go), and the updates written once for both kinds.
use k8s_ext_connector.Prelude.{Text, ℕ, ◌||◌, Option, some, ◌≡◌, ◌≢◌, ◌⊎◌, if◌then◌else◌}
use k8s_ext_connector.Exec.{ok, Exec, pure, ◌>>◌}
use k8s_ext_connector.Api.{ForwarderSpec, Forwarder, GatewaySpec, Gateway}
use k8s_ext_connector.Api.Conditions.{
  Conditions, condition_true, condition_false, condition_unknown,
}
use k8s_ext_connector.Operator.Update.{
  rule_updating_condition, rule_syncing_condition, next_generation,
}

-- A kind of resource, with a spec, conditions and the two generations. `with_status` sets the
-- conditions and the rule generation.
pub record Kind (C Spec O : Type 0) : Type 0 where
  pub namespace : O → Text
  pub name : O → Text
  pub spec : O → Spec
  pub conditions : O → C
  pub rule_generation : O → ℕ
  pub sync_generation : O → ℕ
  pub version : O → Text
  pub with_status : C → ℕ → O → O

abbrev pub forwarder_kind : {C : Type 0} → Kind C ForwarderSpec (Forwarder C)
forwarder_kind = record {
  namespace = λ f. f.meta.namespace;
  name = λ f. f.meta.name;
  spec = λ f. f.spec;
  conditions = λ f. f.status.conditions;
  rule_generation = λ f. f.status.rule_generation;
  sync_generation = λ f. f.status.sync_generation;
  version = λ f. f.meta.resource_version;
  with_status =
      λ c n f. record f { status = record f.status { conditions = c; rule_generation = n } };
}

abbrev pub gateway_kind : {C : Type 0} → Kind C GatewaySpec (Gateway C)
gateway_kind = record {
  namespace = λ g. g.meta.namespace;
  name = λ g. g.meta.name;
  spec = λ g. g.spec;
  conditions = λ g. g.status.conditions;
  rule_generation = λ g. g.status.rule_generation;
  sync_generation = λ g. g.status.sync_generation;
  version = λ g. g.meta.resource_version;
  with_status =
      λ c n g. record g { status = record g.status { conditions = c; rule_generation = n } };
}

module _ {C Spec O : Type 0} (k : Kind C Spec O) where
  -- What is set is found, and the rest stays.
  pub record KindLaws : Type 0 where
    pub namespace_lem : (c : C) (n : ℕ) (o : O) → k.namespace (k.with_status c n o) ≡ k.namespace o
    pub name_lem : (c : C) (n : ℕ) (o : O) → k.name (k.with_status c n o) ≡ k.name o
    pub spec_lem : (c : C) (n : ℕ) (o : O) → k.spec (k.with_status c n o) ≡ k.spec o
    pub conditions_lem : (c : C) (n : ℕ) (o : O) → k.conditions (k.with_status c n o) ≡ c
    pub rule_generation_lem : (c : C) (n : ℕ) (o : O) → k.rule_generation (k.with_status c n o) ≡ n
    pub sync_generation_lem :
        (c : C) (n : ℕ) (o : O) → k.sync_generation (k.with_status c n o) ≡ k.sync_generation o
    pub version_lem : (c : C) (n : ℕ) (o : O) → k.version (k.with_status c n o) ≡ k.version o

  abbrev pub SameName : O → O → Type 0
  SameName a b = (k.namespace a ≡ k.namespace b) × (k.name a ≡ k.name b)

  abbrev pub SameStatus : O → O → Type 0
  SameStatus a b =
      (k.conditions a ≡ k.conditions b)
      × (k.rule_generation a ≡ k.rule_generation b)
      × (k.sync_generation a ≡ k.sync_generation b)

  -- What Kubernetes documents of a resource with a status subresource: an update that succeeds
  -- answers with the object as it is stored from then on, under the same name, and touches no
  -- other; one that succeeds carried the resource version of what was stored. `Update` writes the spec and keeps the stored status, `UpdateStatus` writes the status
  -- and keeps the stored spec.
  pub record Store {W : Type 0} (update update_status : O → Exec W O) : Type 0 where
    pub stored : Text → Text → W → Option O
    pub update_lem :
        (o s o' : O) (w : W)
        → stored (k.namespace o) (k.name o) w ≡ some s
        → (update o w).0 ≡ ok o'
        → (stored (k.namespace o) (k.name o) (update o w).1 ≡ some o')
          × SameName o' o
          × (k.spec o' ≡ k.spec o)
          × SameStatus o' s
    pub status_lem :
        (o s o' : O) (w : W)
        → stored (k.namespace o) (k.name o) w ≡ some s
        → (update_status o w).0 ≡ ok o'
        → (stored (k.namespace o) (k.name o) (update_status o w).1 ≡ some o')
          × SameName o' o
          × (k.spec o' ≡ k.spec s)
          × SameStatus o' o
    pub update_current :
        (o o' : O) (w : W)
        → (update o w).0 ≡ ok o'
        → (s : O) × (stored (k.namespace o) (k.name o) w ≡ some s) × (k.version s ≡ k.version o)
    pub status_current :
        (o o' : O) (w : W)
        → (update_status o w).0 ≡ ok o'
        → (s : O) × (stored (k.namespace o) (k.name o) w ≡ some s) × (k.version s ≡ k.version o)
    pub update_others :
        (o : O) (namespace name : Text) (w : W)
        → (k.namespace o ≢ namespace) ⊎ (k.name o ≢ name)
        → stored namespace name (update o w).1 ≡ stored namespace name w
    pub status_others :
        (o : O) (namespace name : Text) (w : W)
        → (k.namespace o ≢ namespace) ⊎ (k.name o ≢ name)
        → stored namespace name (update_status o w).1 ≡ stored namespace name w

  -- The object, which may come from a cache, is the stored one if that still has its resource
  -- version.
  abbrev pub IsCurrent :
      {W : Type 0} {update update_status : O → Exec W O}
      → Store update update_status
      → O
      → W
      → Type 0
  IsCurrent S o w =
      (s : O) → S.stored (k.namespace o) (k.name o) w ≡ some s → k.version s ≡ k.version o → s ≡ o

  -- `RuleUpdating` is set to true, and written if that changed it.
  abbrev pub begin : {W : Type 0} → Conditions C → (O → Exec W O) → O → Exec W O
  begin K send o =
      let (conditions, changed) =
        K.set_condition (rule_updating_condition condition_true) (k.conditions o) in
      let o' = k.with_status conditions (k.rule_generation o) o in
      if changed then send o' else pure o'

  -- `RuleUpdating` is set to false and `RuleSyncing` to unknown; a change is a new generation.
  abbrev pub finish : {W : Type 0} → Conditions C → (O → Exec W O) → O → Exec W (Unit {0})
  finish K send o =
      let (updated, update_changed) =
        K.set_condition (rule_updating_condition condition_false) (k.conditions o) in
      let (synced, sync_changed) =
        K.set_condition (rule_syncing_condition condition_unknown) updated in
      let o' = k.with_status synced (next_generation (k.rule_generation o)) o in
      if update_changed || sync_changed then send o' >> pure tt else pure tt

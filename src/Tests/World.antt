-- ===== src/Tests/World.antt =====
-- Conditions in memory, and an API that serves one list of endpoints.
use k8s_ext_connector.Prelude.{
  Text, codes, Option, none, some, [], true, false, Bool, refl, ◌≡◌, if◌then◌else◌,
}
use k8s_ext_connector.Exec.{fail, not_found}
use k8s_ext_connector.Api.{ObjectMeta, Forwarder, Gateway}
use k8s_ext_connector.Api.Client.{Client}
use k8s_ext_connector.Api.Conditions.{
  ConditionType, ConditionStatus, Conditions, ConditionLaws, rule_updating, rule_syncing,
  condition_true, condition_false, condition_unknown, is_true, is_false, same_type,
}

-- The two conditions, each with its status where it was set.
pub record Pair : Type 0 where
  pub updating : Option ConditionStatus
  pub syncing : Option ConditionStatus

unfoldable pub status_of : ConditionType → Pair → Option ConditionStatus
status_of rule_updating c = c.updating
status_of rule_syncing c = c.syncing

unfoldable pub set_status : ConditionType → ConditionStatus → Pair → Pair
set_status rule_updating s c = record c { updating = some s }
set_status rule_syncing s c = record c { syncing = some s }

-- Whether setting the status changes anything.
unfoldable pub differs : Option ConditionStatus → ConditionStatus → Bool
differs (some condition_true) condition_true = false
differs (some condition_false) condition_false = false
differs (some condition_unknown) condition_unknown = false
differs _ _ = true

abbrev pub pair_conditions : Conditions Pair
pair_conditions = record {
  set_condition = λ n c. (set_status n.type n.status c, differs (status_of n.type c) n.status);
  is_true_for = λ t c. is_true (status_of t c);
  is_false_for = λ t c. is_false (status_of t c);
}

pub not_differs :
    (o : Option ConditionStatus) (s : ConditionStatus) → differs o s ≡ false → o ≡ some s
unfolding differs
not_differs (some condition_true) condition_true h = refl
not_differs (some condition_true) condition_false h = cc
not_differs (some condition_true) condition_unknown h = cc
not_differs (some condition_false) condition_false h = refl
not_differs (some condition_false) condition_true h = cc
not_differs (some condition_false) condition_unknown h = cc
not_differs (some condition_unknown) condition_unknown h = refl
not_differs (some condition_unknown) condition_true h = cc
not_differs (some condition_unknown) condition_false h = cc
not_differs none condition_true h = cc
not_differs none condition_false h = cc
not_differs none condition_unknown h = cc

pub status_of-set :
    (a t : ConditionType) (s : ConditionStatus) (c : Pair)
    → status_of t (set_status a s c) ≡ (if same_type a t then some s else status_of t c)
unfolding status_of set_status
status_of-set rule_updating rule_updating s c = refl
status_of-set rule_updating rule_syncing s c = refl
status_of-set rule_syncing rule_updating s c = refl
status_of-set rule_syncing rule_syncing s c = refl

abbrev pub pair_laws : ConditionLaws pair_conditions
pair_laws = record {
  status = status_of;
  true_lem = λ t c. refl;
  false_lem = λ t c. refl;
  status-set = λ n t c. status_of-set n.type t n.status c;
  unchanged = λ n c h. not_differs (status_of n.type c) n.status h;
}

-- An API that has nothing.
abbrev pub empty_client : {C W : Type 0} → Client C W
empty_client = record {
  get_external_service = λ _. fail not_found;
  update_external_service = λ _. fail not_found;
  list_external_services = fail not_found;
  get_pod = λ _. fail not_found;
  create_pod = λ _. fail not_found;
  delete_pod = λ _. fail not_found;
  get_service = λ _. fail not_found;
  create_service = λ _. fail not_found;
  delete_service = λ _. fail not_found;
  get_endpoints = λ _. fail not_found;
  get_forwarder = λ _. fail not_found;
  list_forwarders = fail not_found;
  create_forwarder = λ _. fail not_found;
  update_forwarder = λ _. fail not_found;
  update_forwarder_status = λ _. fail not_found;
  delete_forwarder = λ _. fail not_found;
  get_gateway = λ _. fail not_found;
  list_gateways = fail not_found;
  create_gateway = λ _. fail not_found;
  update_gateway = λ _. fail not_found;
  update_gateway_status = λ _. fail not_found;
}

abbrev pub meta : Text → ObjectMeta
meta name = record {
  namespace = codes "external-services";
  name = name;
  resource_version = codes "7";
  labels = [];
  finalizers = [];
  deleted = false;
}

-- Rules were written, and nothing was synchronised since.
abbrev pub fresh : Forwarder Pair
fresh = record {
  meta = meta (codes "my-externalservice");
  spec = record { egress_rules = []; ingress_rules = []; forwarder_ip = codes "10.0.0.9" };
  status = record {
    conditions = record { updating = some condition_false; syncing = some condition_unknown };
    rule_generation = 2;
    sync_generation = 1;
  };
}

abbrev pub fresh_gateway : Gateway Pair
fresh_gateway = record {
  meta = meta (codes "gwrulec0a87ac8");
  spec = record { egress_rules = []; ingress_rules = []; gateway_ip = codes "192.168.122.200" };
  status = record {
    conditions = record { updating = some condition_false; syncing = some condition_unknown };
    rule_generation = 2;
    sync_generation = 1;
  };
}

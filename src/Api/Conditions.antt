-- ===== src/Api/Conditions.antt =====
-- status.Conditions of operator-sdk, which forwarder_types.go and gateway_types.go store: the calls
-- that the sources make of it, and what its documentation says of them.
use k8s_ext_connector.Prelude.{Bool, true, false, ◌≡◌, Option, some, if◌then◌else◌}

pub data ConditionType : Type 0 where
  rule_updating rule_syncing : ConditionType

pub data ConditionStatus : Type 0 where
  condition_true condition_false condition_unknown : ConditionStatus

pub record Condition : Type 0 where
  pub type : ConditionType
  pub status : ConditionStatus

-- `SetCondition` also says whether it changed anything.
pub record Conditions (C : Type 0) : Type 0 where
  pub set_condition : Condition → C → C × Bool
  pub is_true_for : ConditionType → C → Bool
  pub is_false_for : ConditionType → C → Bool

abbrev pub same_type : ConditionType → ConditionType → Bool
same_type rule_updating rule_updating = true
same_type rule_syncing rule_syncing = true
same_type _ _ = false

abbrev pub is_true : Option ConditionStatus → Bool
is_true (some condition_true) = true
is_true _ = false

abbrev pub is_false : Option ConditionStatus → Bool
is_false (some condition_false) = true
is_false _ = false

-- `status` is `GetCondition(t)`, of which only the status counts here. A condition that is set is
-- found, the others stay, and "not changed" is said only of a status that was there already.
pub record ConditionLaws {C : Type 0} (K : Conditions C) : Type 0 where
  pub status : ConditionType → C → Option ConditionStatus
  pub true_lem : (t : ConditionType) (c : C) → K.is_true_for t c ≡ is_true (status t c)
  pub false_lem : (t : ConditionType) (c : C) → K.is_false_for t c ≡ is_false (status t c)
  pub status-set :
      (n : Condition) (t : ConditionType) (c : C)
      → status t (K.set_condition n c).0
        ≡ (if same_type n.type t then some n.status else status t c)
  pub unchanged :
      (n : Condition) (c : C) → (K.set_condition n c).1 ≡ false → status n.type c ≡ some n.status

-- ===== src/Operator/Update.antt =====
-- How the operator writes rules to the Forwarder and Gateway resources
-- (pkg/controller/externalservice/reconciler.go).
pub mod Store
pub mod Found
pub mod Begin
pub mod Others
pub mod Apart
pub mod Paired
pub mod Handover
pub mod Gateways
pub mod Ingress
pub mod Generated
pub mod Written
pub mod Forwarders
pub mod Served
pub mod Stopped
use k8s_ext_connector.Prelude.{
  Text, ℕ, ◌+◌, ◌%◌, ◌^◌, Bool, Option, List, [], ◌∷◌, ◌==◌, ◌||◌, if◌then◌else◌,
}
use k8s_ext_connector.Prelude.Dict.{Dict}
use k8s_ext_connector.Exec.{
  ok, err, Exec, pure, fail, attempt, is_not_found, no_pod_ip, ◌>>=◌, ◌>>◌,
}
use k8s_ext_connector.Api.{
  NamespacedName, ObjectMeta, ExternalService, ForwarderRule, Forwarder, Gateway,
}
use k8s_ext_connector.Api.Conditions.{
  Condition, ConditionStatus, Conditions, rule_updating, rule_syncing, condition_true,
  condition_false, condition_unknown,
}
use k8s_ext_connector.Api.Client.{Client}
use k8s_ext_connector.Operator.Names.{connector_namespace}
use k8s_ext_connector.Operator.Ports.{gen_used_ports_for_egress, gen_used_ports_for_ingress}
use k8s_ext_connector.Operator.Rules.{
  gen_forwarder_egress_rules, gen_forwarder_ingress_rules, gen_gateway_egress_rules,
  gen_gateway_ingress_rules, get_unique_gateway,
}

-- pkg/util/util.go
abbrev pub rule_updating_condition : ConditionStatus → Condition
rule_updating_condition stat = record { type = rule_updating; status = stat }

abbrev pub rule_syncing_condition : ConditionStatus → Condition
rule_syncing_condition stat = record { type = rule_syncing; status = stat }

-- `RuleGeneration++` on the bit pattern of an `int`.
abbrev pub next_generation : ℕ → ℕ
next_generation g = (g + 1) % 2 ^ 64

-- An object of which only the metadata is given.
abbrev pub new_meta : Text → Text → ObjectMeta
new_meta namespace name = record {
  namespace = namespace;
  name = name;
  resource_version = [];
  labels = [];
  finalizers = [];
  deleted = Bool.false;
}

abbrev pub owner_name : ExternalService → NamespacedName
owner_name cr = record { namespace = connector_namespace; name = cr.meta.name }

-- `no_conditions` is the nil slice.
module _ {C W : Type 0} (K : Conditions C) (no_conditions : C) (cl : Client C W) where
  abbrev pub new_forwarder : Text → Text → Forwarder C
  new_forwarder namespace name = record {
    meta = new_meta namespace name;
    spec = record { egress_rules = []; ingress_rules = []; forwarder_ip = [] };
    status = record { conditions = no_conditions; rule_generation = 0; sync_generation = 0 };
  }

  abbrev pub new_gateway : Text → Text → Gateway C
  new_gateway namespace name = record {
    meta = new_meta namespace name;
    spec = record { egress_rules = []; ingress_rules = []; gateway_ip = [] };
    status = record { conditions = no_conditions; rule_generation = 0; sync_generation = 0 };
  }

  unfoldable pub get_or_create_forwarder : NamespacedName → Exec W (Forwarder C)
  get_or_create_forwarder n = do
    found ← attempt (cl.get_forwarder n)
    elim found [
      | ok fwd ↦ pure fwd
      | err e ↦
          if is_not_found e then cl.create_forwarder (new_forwarder n.namespace n.name) else fail e
    ]

  -- `RuleUpdating` is set to true, and written if that changed it.
  unfoldable pub begin_forwarder : Forwarder C → Exec W (Forwarder C)
  begin_forwarder fwd =
      let (conditions, changed) =
        K.set_condition (rule_updating_condition condition_true) fwd.status.conditions in
      let fwd' = record fwd { status = record fwd.status { conditions = conditions } } in
      if changed then cl.update_forwarder_status fwd' else pure fwd'

  -- `RuleUpdating` is set to false and `RuleSyncing` to unknown; a change is a new generation.
  unfoldable pub finish_forwarder : Forwarder C → Exec W (Unit {0})
  finish_forwarder fwd =
      let (updated, update_changed) =
        K.set_condition (rule_updating_condition condition_false) fwd.status.conditions in
      let (synced, sync_changed) =
        K.set_condition (rule_syncing_condition condition_unknown) updated in
      let fwd' = record fwd {
        status = record fwd.status {
          conditions = synced;
          rule_generation = next_generation fwd.status.rule_generation;
        };
      } in
      if update_changed || sync_changed then cl.update_forwarder_status fwd' >> pure tt else pure tt

  unfoldable pub set_forwarder_rules :
      List ForwarderRule → List ForwarderRule → Text → Forwarder C → Forwarder C
  set_forwarder_rules e_rules i_rules ip fwd = record fwd {
    spec = record { egress_rules = e_rules; ingress_rules = i_rules; forwarder_ip = ip };
  }

  unfoldable pub update_forwarder_rules :
      (Text → Option (List ℕ)) → ExternalService → Exec W (Unit {0})
  update_forwarder_rules parse_ipv6 cr = do
    fwd ← get_or_create_forwarder (owner_name cr)
    fwd ← begin_forwarder fwd
    pod ← cl.get_pod (owner_name cr)
    if pod.pod_ip == [] then fail no_pod_ip else do
      (e_rules, _) ← gen_forwarder_egress_rules cl parse_ipv6 cr (gen_used_ports_for_egress fwd)
      gws ← cl.list_gateways
      (i_rules, _) ← gen_forwarder_ingress_rules cl parse_ipv6 cr (gen_used_ports_for_ingress gws)
      fwd ← cl.update_forwarder (set_forwarder_rules e_rules i_rules pod.pod_ip fwd)
      finish_forwarder fwd

  unfoldable pub begin_gateway : Gateway C → Exec W (Gateway C)
  begin_gateway gw =
      let (conditions, changed) =
        K.set_condition (rule_updating_condition condition_true) gw.status.conditions in
      let gw' = record gw { status = record gw.status { conditions = conditions } } in
      if changed then cl.update_gateway_status gw' else pure gw'

  unfoldable pub finish_gateway : Gateway C → Exec W (Unit {0})
  finish_gateway gw =
      let (updated, update_changed) =
        K.set_condition (rule_updating_condition condition_false) gw.status.conditions in
      let (synced, sync_changed) =
        K.set_condition (rule_syncing_condition condition_unknown) updated in
      let gw' = record gw {
        status = record gw.status {
          conditions = synced;
          rule_generation = next_generation gw.status.rule_generation;
        };
      } in
      if update_changed || sync_changed then cl.update_gateway_status gw' >> pure tt else pure tt

  unfoldable pub set_gateway_rules : List (Forwarder C) → Text → Gateway C → Gateway C
  set_gateway_rules fwds gw_ip gw = record gw {
    spec = record {
      egress_rules = gen_gateway_egress_rules fwds gw;
      ingress_rules = gen_gateway_ingress_rules fwds gw;
      gateway_ip = gw_ip;
    };
  }

  unfoldable pub update_rules_for_one_gateway :
      List (Forwarder C) → Gateway C → Text → Exec W (Unit {0})
  update_rules_for_one_gateway fwds gw gw_ip = do
    gw ← begin_gateway gw
    gw ← cl.update_gateway (set_gateway_rules fwds gw_ip gw)
    finish_gateway gw

  unfoldable pub get_or_create_gateway : NamespacedName → Exec W (Gateway C)
  get_or_create_gateway n = do
    found ← attempt (cl.get_gateway n)
    elim found [
      | ok gw ↦ pure gw
      | err e ↦
          if is_not_found e then cl.create_gateway (new_gateway n.namespace n.name) else fail e
    ]

  -- The loop of `updateGatewayRules` over the gateways that the rules name.
  unfoldable pub update_each_gateway : List (Forwarder C) → Dict NamespacedName → Exec W (Unit {0})
  update_each_gateway fwds [] = pure tt
  update_each_gateway fwds ((gw_ip, n) ∷ rest) = do
    gw ← get_or_create_gateway n
    update_rules_for_one_gateway fwds gw gw_ip
    update_each_gateway fwds rest

  unfoldable pub update_gateway_rules : ExternalService → Exec W (Unit {0})
  unfolding update_each_gateway
  update_gateway_rules cr = do
    fwd ← cl.get_forwarder (owner_name cr)
    fwds ← cl.list_forwarders
    update_each_gateway fwds (get_unique_gateway fwd.spec.ingress_rules)

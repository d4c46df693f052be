-- ===== src/Operator/Reconcile.antt =====
-- The reconcile loop of the operator (pkg/controller/externalservice/reconciler.go). It returns the
-- empty `reconcile.Result` on every path, so only its error is kept.
pub mod Cleanup
use k8s_ext_connector.Prelude.{
  Text, ℕ, Bool, true, false, Option, none, some, List, [], ◌∷◌, ◌==◌, ◌&&◌, not, length, ltb,
  if◌then◌else◌,
}
use k8s_ext_connector.Exec.{
  ok, err, Exec, pure, fail, attempt, is_not_found, forwarder_in_cache, ◌>>=◌, ◌>>◌,
}
use k8s_ext_connector.Api.{NamespacedName, ExternalService, Forwarder, Gateway}
use k8s_ext_connector.Api.Conditions.{Conditions}
use k8s_ext_connector.Api.Client.{Client}
use k8s_ext_connector.Operator.Names.{connector_namespace, external_service_finalizer_name}
use k8s_ext_connector.Operator.Resource.{gen_forward_pod_spec, gen_forward_service_spec}
use k8s_ext_connector.Operator.Update.{
  owner_name, update_rules_for_one_gateway, update_forwarder_rules, update_gateway_rules,
}

-- A lookup whose "not found" is an answer, and whose other errors end the call.
unfoldable pub find : {W A : Type 0} → Exec W A → Exec W (Option A)
find get = do
  found ← attempt get
  elim found [ ok a ↦ pure (some a) | err e ↦ if is_not_found e then pure none else fail e ]

-- What the operator deletes if it is there; the error of the deletion is dropped.
unfoldable pub delete_if_found :
    {W A : Type 0} → Exec W A → (A → Exec W (Unit {0})) → Exec W (Unit {0})
delete_if_found get delete = do
  found ← find get
  elim found [ none ↦ pure tt | some a ↦ attempt (delete a) >> pure tt ]

module _ {C W : Type 0} (K : Conditions C) (no_conditions : C) (cl : Client C W)
    (parse_ipv6 : Text → Option (List ℕ)) where
  unfoldable pub add_finalizer : ExternalService → Exec W ExternalService
  add_finalizer cr =
      if ltb (length cr.meta.finalizers) 1 && not cr.meta.deleted
      then cl.update_external_service (record cr {
        meta = record cr.meta { finalizers = external_service_finalizer_name ∷ [] };
      })
      else pure cr

  -- Whether the forwarder of `cr` is among those listed.
  pub still_listed : ExternalService → List (Forwarder C) → Bool
  still_listed cr [] = false
  still_listed cr (fwd ∷ fwds) =
      if fwd.meta.namespace == connector_namespace && fwd.meta.name == cr.meta.name
      then true
      else still_listed cr fwds

  pub refresh_gateways : List (Forwarder C) → List (Gateway C) → Exec W (Unit {0})
  refresh_gateways fwds [] = pure tt
  refresh_gateways fwds (gw ∷ gws) = do
    update_rules_for_one_gateway K no_conditions cl fwds gw gw.spec.gateway_ip
    refresh_gateways fwds gws

  unfoldable pub delete_resource_for_external_service : ExternalService → Exec W (Unit {0})
  unfolding still_listed refresh_gateways
  delete_resource_for_external_service cr = do
    delete_if_found (cl.get_pod (owner_name cr)) cl.delete_pod
    delete_if_found (cl.get_service (owner_name cr)) cl.delete_service
    delete_if_found (cl.get_forwarder (owner_name cr)) cl.delete_forwarder
    fwds ← cl.list_forwarders
    if still_listed cr fwds
        then fail forwarder_in_cache
        else do gws ← cl.list_gateways; refresh_gateways fwds gws

  unfoldable pub ensure_pod : ExternalService → Exec W (Unit {0})
  ensure_pod cr = do
    found ← find (cl.get_pod (owner_name cr))
    elim found [ some _ ↦ pure tt | none ↦ cl.create_pod (gen_forward_pod_spec cr) >> pure tt ]

  unfoldable pub ensure_service : ExternalService → Exec W (Unit {0})
  ensure_service cr = do
    found ← find (cl.get_service (owner_name cr))
    elim found [
      | some _ ↦ pure tt
      | none ↦ cl.create_service (gen_forward_service_spec cr) >> pure tt
    ]

  -- The deletion timestamp is set.
  unfoldable pub reconcile_deleted : ExternalService → Exec W (Unit {0})
  reconcile_deleted cr = do
    delete_resource_for_external_service cr
    cl.update_external_service (record cr { meta = record cr.meta { finalizers = [] } })
    pure tt

  unfoldable pub reconcile_present : ExternalService → Exec W (Unit {0})
  reconcile_present cr = do
    cr ← add_finalizer cr
    ensure_pod cr
    ensure_service cr
    update_forwarder_rules K no_conditions cl parse_ipv6 cr
    update_gateway_rules K no_conditions cl cr

  unfoldable pub reconcile : NamespacedName → Exec W (Unit {0})
  unfolding reconcile_deleted reconcile_present
  reconcile request = do
    found ← find (cl.get_external_service request)
    elim found [
      | none ↦ pure tt
      | some cr ↦ if cr.meta.deleted then reconcile_deleted cr else reconcile_present cr
    ]

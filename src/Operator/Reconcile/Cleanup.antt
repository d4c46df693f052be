-- ===== src/Operator/Reconcile/Cleanup.antt =====
-- When the operator lets go of a deleted external service
-- (`Reconcile` and `deleteResourceForExternalService` of
-- pkg/controller/externalservice/reconciler.go).
use k8s_ext_connector.Prelude.{
  Text, ℕ, true, Option, List, [], ◌∷◌, eq_iff, ◌≡◌, arith, inl, inr, subst, In, All, All-pointwise,
  if◌then◌else◌,
}
use k8s_ext_connector.Exec.{ok, pure, >>=_step}
use k8s_ext_connector.Api.{NamespacedName, ExternalService, Forwarder}
use k8s_ext_connector.Api.Conditions.{Conditions}
use k8s_ext_connector.Api.Client.{Client}
use k8s_ext_connector.Operator.Names.{connector_namespace}
use k8s_ext_connector.Operator.Update.{owner_name}
use k8s_ext_connector.Operator.Reconcile.{
  find, delete_if_found, still_listed, delete_resource_for_external_service, reconcile_deleted,
  reconcile_present, reconcile,
}

module _ {C W : Type 0} (K : Conditions C) (no_conditions : C) (cl : Client C W)
    (parse_ipv6 : Text → Option (List ℕ)) where
  -- The forwarder that the operator makes for the external service.
  abbrev pub IsForwarderOf : ExternalService → Forwarder C → Type 0
  IsForwarderOf cr fwd = (fwd.meta.namespace ≡ connector_namespace) × (fwd.meta.name ≡ cr.meta.name)

  -- The world that the deletions of the pod, the service and the forwarder leave.
  abbrev pub after_deletions : ExternalService → W → W
  after_deletions cr w =
      let w₁ = (delete_if_found (cl.get_pod (owner_name cr)) cl.delete_pod w).1 in
      let w₂ = (delete_if_found (cl.get_service (owner_name cr)) cl.delete_service w₁).1 in
      (delete_if_found (cl.get_forwarder (owner_name cr)) cl.delete_forwarder w₂).1

  still_listed_lem :
      (cr : ExternalService) (fwds : List (Forwarder C)) (fwd : Forwarder C)
      → In fwd fwds
      → IsForwarderOf cr fwd
      → still_listed K no_conditions cl parse_ipv6 cr fwds ≡ true
  unfolding still_listed
  still_listed_lem cr [] fwd m is = absurd m
  still_listed_lem cr (f ∷ fwds) fwd m is = elim m [
    | inl same ↦
        let named = subst (IsForwarderOf cr) same is in
        ground (
          arith,
          (eq_iff f.meta.namespace connector_namespace).1 named.0,
          (eq_iff f.meta.name cr.meta.name).1 named.1,
        )
    | inr rest ↦ ground (arith, still_listed_lem cr fwds fwd rest is)
  ]

  delete_resource-gone :
      (cr : ExternalService) (w : W)
      → (delete_resource_for_external_service K no_conditions cl parse_ipv6 cr w).0 ≡ ok tt
      → (fwds : List (Forwarder C)) × ((cl.list_forwarders (after_deletions cr w)).0 ≡ ok fwds)
        × All (λ fwd. ¬ IsForwarderOf cr fwd) fwds
  unfolding delete_resource_for_external_service
  delete_resource-gone cr w h =
      let (_, _, h₁) =
        >>=_step (delete_if_found (cl.get_pod (owner_name cr)) cl.delete_pod) _ w h in
      let (_, _, h₂) =
        >>=_step (delete_if_found (cl.get_service (owner_name cr)) cl.delete_service) _ _ h₁ in
      let (_, _, h₃) =
        >>=_step (delete_if_found (cl.get_forwarder (owner_name cr)) cl.delete_forwarder) _ _ h₂ in
      let (fwds, e, h₄) = >>=_step cl.list_forwarders _ _ h₃ in
      (
        fwds,
        e,
        All-pointwise _ fwds λ fwd m is.
            let listed = still_listed_lem cr fwds fwd m is in
            absurd (let failed = (rw listed at h₄) in cc),
      )

  -- When Reconcile succeeds for an external service that is being deleted, the list of forwarders
  -- that it reads after its three deletions, in the state of the world that these left, lacks the
  -- forwarder of the external service; and the finalizers are taken out by an update that succeeds
  -- after the whole cleanup, which ran without an error.
  pub reconcile-deleted_gone :
      (request : NamespacedName) (cr : ExternalService) (w : W)
      → (cl.get_external_service request w).0 ≡ ok cr
      → cr.meta.deleted ≡ true
      → (reconcile K no_conditions cl parse_ipv6 request w).0 ≡ ok tt
      → ((fwds : List (Forwarder C)) × ((cl.list_forwarders
              (after_deletions cr (cl.get_external_service request w).1)).0
            ≡ ok fwds)
          × All (λ fwd. ¬ IsForwarderOf cr fwd) fwds)
        × ((delete_resource_for_external_service K no_conditions cl parse_ipv6 cr
              (cl.get_external_service request w).1).0
            ≡ ok tt)
        × ((updated : ExternalService) × ((cl.update_external_service
                (record cr { meta = record cr.meta { finalizers = [] } })
                (delete_resource_for_external_service K no_conditions cl parse_ipv6 cr
                  (cl.get_external_service request w).1).1).0
              ≡ ok updated))
  unfolding reconcile reconcile_deleted find
  reconcile-deleted_gone request cr w e d h =
      let w₁ = (cl.get_external_service request w).1 in
      let deleting =
        subst
          (λ b.
            ((if b
                then reconcile_deleted K no_conditions cl parse_ipv6 cr
                else reconcile_present K no_conditions cl parse_ipv6 cr)
              w₁).0
            ≡ ok tt)
          d (rw e at h) in
      let cleanup = delete_resource_for_external_service K no_conditions cl parse_ipv6 cr in
      let (_, cleaned, rest) = >>=_step cleanup _ w₁ deleting in
      let (updated, answered, _) =
        >>=_step
          (cl.update_external_service (record cr { meta = record cr.meta { finalizers = [] } }))
          (λ _. pure tt) (cleanup w₁).1 rest in
      (delete_resource-gone cr w₁ cleaned, cleaned, (updated, answered))

-- ===== src/Tests/Cleanup.antt =====
-- The end of an external service.
use k8s_ext_connector.Prelude.{
  Text, codes, ℕ, Option, none, List, [], ◌∷◌, true, ◌==◌, ◌≡◌, refl, All,
}
use k8s_ext_connector.Exec.{ok, pure, Exec}
use k8s_ext_connector.Api.{ExternalService, Forwarder}
use k8s_ext_connector.Api.Client.{Client}
use k8s_ext_connector.Operator.Names.{connector_namespace}
use k8s_ext_connector.Operator.Reconcile.{
  reconcile, reconcile_deleted, delete_resource_for_external_service, delete_if_found, find,
}
use k8s_ext_connector.Operator.Reconcile.Cleanup.{
  after_deletions, IsForwarderOf, reconcile-deleted_gone,
}
use k8s_ext_connector.Tests.World.{Pair, pair_conditions, empty_client, meta, fresh}

abbrev leaving : ExternalService
leaving = record {
  meta = record (meta (codes "leaving")) { deleted = true };
  spec = record { target_ip = codes "192.168.122.139"; sources = []; ports = [] };
}

-- The forwarders of two external services are there, and that of the one that goes is deleted.
abbrev own : Forwarder Pair
own = record fresh { meta = meta (codes "leaving") }

abbrev stored : Client Pair (List (Forwarder Pair))
stored = record empty_client {
  get_external_service = λ _. pure leaving;
  update_external_service = λ es. pure es;
  get_forwarder = λ n. pure own;
  delete_forwarder = λ f w. (ok tt, fresh ∷ []);
  list_forwarders = λ w. (ok w, w);
  list_gateways = pure [];
}

abbrev no_ipv6 : Text → Option (List ℕ)
no_ipv6 _ = none

abbrev cleanup : Exec (List (Forwarder Pair)) (Unit {0})
cleanup =
    delete_resource_for_external_service pair_conditions fresh.status.conditions stored no_ipv6
      leaving

reconcile-deleted_gone_example :
    ((fwds : List (Forwarder Pair)) × ((stored.list_forwarders (
          after_deletions pair_conditions fresh.status.conditions stored no_ipv6 leaving
            (own ∷ fresh ∷ []))).0
        ≡ ok fwds)
      × All
          (λ fwd.
            ¬ IsForwarderOf pair_conditions fresh.status.conditions stored no_ipv6 leaving fwd)
          fwds)
    × ((cleanup (own ∷ fresh ∷ [])).0 ≡ ok tt)
    × ((updated : ExternalService) × ((stored.update_external_service
            (record leaving { meta = record leaving.meta { finalizers = [] } })
            (cleanup (own ∷ fresh ∷ [])).1).0
          ≡ ok updated))
unfolding reconcile reconcile_deleted find delete_resource_for_external_service delete_if_found ◌==◌
    connector_namespace
reconcile-deleted_gone_example =
    reconcile-deleted_gone pair_conditions fresh.status.conditions stored no_ipv6
      (record { namespace = codes "ns1"; name = codes "leaving" }) leaving (own ∷ fresh ∷ []) refl
      refl refl

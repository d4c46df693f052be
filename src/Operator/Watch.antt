-- ===== src/Operator/Watch.antt =====
-- Which external services an event leads to: the map functions that `add` registers
-- (pkg/controller/externalservice/externalservice_controller.go).
pub mod Requests
use k8s_ext_connector.Prelude.{
  Text, Bool, Option, some, List, [], ◌∷◌, ◌++◌, ◌==◌, ◌&&◌, not, if◌then◌else◌,
}
use k8s_ext_connector.Prelude.Dict.{lookup}
use k8s_ext_connector.Exec.{Result, ok, err}
use k8s_ext_connector.Api.{
  NamespacedName, ObjectMeta, Source, ExternalService, Pod, Service, Endpoints,
}
use k8s_ext_connector.Operator.Names.{
  connector_namespace, external_service_namespace_label, external_service_name_label,
}

-- `ok1 && ok2`
request_if_both : Option Text → Option Text → List NamespacedName
request_if_both (some namespace) (some name) = record { namespace = namespace; name = name } ∷ []
request_if_both _ _ = []

requests_for_labels : ObjectMeta → List NamespacedName
unfolding request_if_both
requests_for_labels meta =
    if not (meta.namespace == connector_namespace)
    then []
    else request_if_both (lookup external_service_namespace_label meta.labels)
        (lookup external_service_name_label meta.labels)

unfoldable pub requests_for_pod : Pod → List NamespacedName
unfolding requests_for_labels
requests_for_pod pod = requests_for_labels pod.meta

unfoldable pub requests_for_service : Service → List NamespacedName
unfolding requests_for_labels
requests_for_service svc = requests_for_labels svc.meta

-- `ep.Namespace == source.Service.Namespace && ep.Name == source.Service.Name`
pub is_source_of : Endpoints → Source → Bool
is_source_of ep src = ep.meta.namespace == src.service.namespace && ep.meta.name == src.service.name

requests_for_sources : Endpoints → ExternalService → List Source → List NamespacedName
unfolding is_source_of
requests_for_sources ep es [] = []
requests_for_sources ep es (src ∷ sources) =
    let rest = requests_for_sources ep es sources in
    if is_source_of ep src
    then record { namespace = es.meta.namespace; name = es.meta.name } ∷ rest
    else rest

requests_for_all : Endpoints → List ExternalService → List NamespacedName
unfolding requests_for_sources
requests_for_all ep [] = []
requests_for_all ep (es ∷ list) =
    requests_for_sources ep es es.spec.sources ++ requests_for_all ep list

-- No request where the list cannot be read.
unfoldable pub requests_for_endpoints :
    Endpoints → Result (List ExternalService) → List NamespacedName
unfolding requests_for_all
requests_for_endpoints ep (ok list) = requests_for_all ep list
requests_for_endpoints ep (err e) = []

-- ===== src/Operator/Names.antt =====
-- The constants of pkg/controller/externalservice/externalservice_controller.go.
use k8s_ext_connector.Prelude.{Text, codes}

unfoldable pub connector_namespace : Text
connector_namespace = codes "external-services"

unfoldable pub external_service_namespace_label : Text
external_service_namespace_label = codes "externalservice.submariner.io/namespace"

unfoldable pub external_service_name_label : Text
external_service_name_label = codes "externalservice.submariner.io/name"

unfoldable pub external_service_finalizer_name : Text
external_service_finalizer_name = codes "finalizer.externalservice.submariner.io"

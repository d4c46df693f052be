-- ===== src/Api/Client.antt =====
-- The Kubernetes API as the sources call it: client.Client of controller-runtime, and the generated
-- clientset. A call acts on a world `W`; a call that sends an object returns the server's copy,
-- which the sources find in the object that they passed.
use k8s_ext_connector.Prelude.{List}
use k8s_ext_connector.Exec.{Exec}
use k8s_ext_connector.Api.{
  NamespacedName, ExternalService, Forwarder, Gateway, Pod, Service, Endpoints,
}

pub record Client (C W : Type 0) : Type 0 where
  pub get_external_service : NamespacedName → Exec W ExternalService
  pub update_external_service : ExternalService → Exec W ExternalService
  pub list_external_services : Exec W (List ExternalService)
  pub get_pod : NamespacedName → Exec W Pod
  pub create_pod : Pod → Exec W Pod
  pub delete_pod : Pod → Exec W (Unit {0})
  pub get_service : NamespacedName → Exec W Service
  pub create_service : Service → Exec W Service
  pub delete_service : Service → Exec W (Unit {0})
  pub get_endpoints : NamespacedName → Exec W Endpoints
  pub get_forwarder : NamespacedName → Exec W (Forwarder C)
  pub list_forwarders : Exec W (List (Forwarder C))
  pub create_forwarder : Forwarder C → Exec W (Forwarder C)
  pub update_forwarder : Forwarder C → Exec W (Forwarder C)
  pub update_forwarder_status : Forwarder C → Exec W (Forwarder C)
  pub delete_forwarder : Forwarder C → Exec W (Unit {0})
  pub get_gateway : NamespacedName → Exec W (Gateway C)
  pub list_gateways : Exec W (List (Gateway C))
  pub create_gateway : Gateway C → Exec W (Gateway C)
  pub update_gateway : Gateway C → Exec W (Gateway C)
  pub update_gateway_status : Gateway C → Exec W (Gateway C)

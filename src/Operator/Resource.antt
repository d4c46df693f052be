-- ===== src/Operator/Resource.antt =====
-- pkg/controller/externalservice/resource.go: the pod and the service of a forwarder.
use k8s_ext_connector.Prelude.{Text, codes, true, false, List, [], ◌∷◌}
use k8s_ext_connector.Prelude.Dict.{Dict}
use k8s_ext_connector.Api.{ObjectMeta, ServicePort, ExternalService, Pod, Service}
use k8s_ext_connector.Operator.Names.{
  connector_namespace, external_service_namespace_label, external_service_name_label,
}

-- The labels that lead from a resource back to its external service.
unfoldable pub labels_of : ExternalService → Dict Text
labels_of cr =
    (external_service_namespace_label, cr.meta.namespace)
    ∷ (external_service_name_label, cr.meta.name)
    ∷ []

unfoldable pub forwarder_meta : ExternalService → ObjectMeta
unfolding labels_of
forwarder_meta cr = record {
  namespace = connector_namespace;
  name = cr.meta.name;
  resource_version = [];
  labels = labels_of cr;
  finalizers = [];
  deleted = false;
}

unfoldable pub gen_forward_pod_spec : ExternalService → Pod
unfolding forwarder_meta
gen_forward_pod_spec cr = record {
  meta = forwarder_meta cr;
  spec = record {
    service_account_name = codes "k8s-ext-connector";
    containers =
        record {
          name = codes "forwarder";
          image = codes "docker.io/mkimuram/forwarder:v0.3.0";
          privileged = true;
          env =
              record { name = codes "FORWARDER_NAMESPACE"; value = connector_namespace }
              ∷ record { name = codes "FORWARDER_NAME"; value = cr.meta.name }
              ∷ [];
          volume_mounts =
              record {
                name = codes "ssh-key-volume";
                mount_path = codes "/etc/ssh-key";
                read_only = true;
              }
              ∷ [];
        }
        ∷ [];
    volumes =
        record {
          name = codes "ssh-key-volume";
          secret_name = codes "my-ssh-key";
          default_mode = 256;
        }
        ∷ [];
  };
  pod_ip = [];
}

-- `for _, port := range cr.Spec.Ports { ports = append(ports, port) }`
copy_ports : List ServicePort → List ServicePort
copy_ports [] = []
copy_ports (port ∷ ports) = port ∷ copy_ports ports

unfoldable pub gen_forward_service_spec : ExternalService → Service
unfolding copy_ports forwarder_meta
gen_forward_service_spec cr = record {
  meta = forwarder_meta cr;
  spec = record { ports = copy_ports cr.spec.ports; selector = labels_of cr; cluster_ip = [] };
}

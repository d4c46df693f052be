-- ===== src/Tests/Stored.antt =====
-- An API that stores forwarders and gateways.
use k8s_ext_connector.Prelude.{Text, codes, List, [], ◌∷◌, refl}
use k8s_ext_connector.Prelude.Int.{pos}
use k8s_ext_connector.Exec.{ok}
use k8s_ext_connector.Api.{Forwarder, Gateway, Pod, Service, Endpoints}
use k8s_ext_connector.Api.Client.{Client}
use k8s_ext_connector.Operator.Update.Store.{forwarder_kind, gateway_kind, Store}
use k8s_ext_connector.Tests.World.{Pair, empty_client, meta}
use k8s_ext_connector.Tests.Table.{Setters, get, create, update, update_status, table_store}

abbrev pub forwarder_setters : Setters {C = Pair} forwarder_kind
forwarder_setters = record {
  with_spec = λ s o. record o { spec = s };
  spec_lem = λ s o. refl;
  with_spec_name = λ s o. (refl, refl);
  with_spec_status = λ s o. (refl, refl, refl);
}

abbrev pub gateway_setters : Setters {C = Pair} gateway_kind
gateway_setters = record {
  with_spec = λ s o. record o { spec = s };
  spec_lem = λ s o. refl;
  with_spec_name = λ s o. (refl, refl);
  with_spec_status = λ s o. (refl, refl, refl);
}

pub record Stored : Type 0 where
  pub forwarders : List (Forwarder Pair)
  pub gateways : List (Gateway Pair)

abbrev pub set_forwarders : List (Forwarder Pair) → Stored → Stored
set_forwarders t w = record w { forwarders = t }

abbrev pub set_gateways : List (Gateway Pair) → Stored → Stored
set_gateways t w = record w { gateways = t }

abbrev pub owner : Text
owner = codes "my-externalservice"

abbrev pub pod : Pod
pod = record {
  meta = meta owner;
  spec = record { service_account_name = []; containers = []; volumes = [] };
  pod_ip = codes "10.0.0.9";
}

abbrev pub endpoints : Endpoints
endpoints = record { meta = meta owner; subsets = (codes "10.0.0.1" ∷ []) ∷ [] }

abbrev pub service : Service
service = record {
  meta = meta owner;
  spec = record {
    ports = record { protocol = codes "TCP"; port = pos 80; target_port = codes "8080" } ∷ [];
    selector = [];
    cluster_ip = codes "10.96.0.1";
  };
}

abbrev pub client : Client Pair Stored
client = record empty_client {
  get_pod = λ n w. (ok pod, w);
  get_service = λ n w. (ok service, w);
  get_endpoints = λ n w. (ok endpoints, w);
  get_forwarder = get forwarder_kind forwarder_setters (λ w. w.forwarders) set_forwarders;
  list_forwarders = λ w. (ok w.forwarders, w);
  create_forwarder = create forwarder_kind forwarder_setters (λ w. w.forwarders) set_forwarders;
  update_forwarder = update forwarder_kind forwarder_setters (λ w. w.forwarders) set_forwarders;
  update_forwarder_status =
      update_status forwarder_kind forwarder_setters (λ w. w.forwarders) set_forwarders;
  get_gateway = get gateway_kind gateway_setters (λ w. w.gateways) set_gateways;
  list_gateways = λ w. (ok w.gateways, w);
  create_gateway = create gateway_kind gateway_setters (λ w. w.gateways) set_gateways;
  update_gateway = update gateway_kind gateway_setters (λ w. w.gateways) set_gateways;
  update_gateway_status = update_status gateway_kind gateway_setters (λ w. w.gateways) set_gateways;
}

abbrev pub gateway_store : Store gateway_kind client.update_gateway client.update_gateway_status
gateway_store =
    table_store gateway_kind gateway_setters (λ w. w.gateways) set_gateways (λ t w. refl)

abbrev pub forwarder_store :
    Store forwarder_kind client.update_forwarder client.update_forwarder_status
forwarder_store =
    table_store forwarder_kind forwarder_setters (λ w. w.forwarders) set_forwarders (λ t w. refl)

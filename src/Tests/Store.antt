-- ===== src/Tests/Store.antt =====
-- The operator's updates of rules in an API that stores forwarders and gateways.
use k8s_ext_connector.Prelude.{
  codes, some, List, [], ◌∷◌, ◌==◌, eq_iff, ◌≡◌, ◌≢◌, ◌⊎◌, refl, sym, ap, inl, inr, In, All,
}
use k8s_ext_connector.Prelude.Dict.{lookup, insert}
use k8s_ext_connector.Prelude.Int.{pos}
use k8s_ext_connector.Exec.{ok}
use k8s_ext_connector.Api.{NamespacedName, ExternalService, ForwarderRule, Forwarder}
use k8s_ext_connector.Operator.Names.{connector_namespace}
use k8s_ext_connector.Operator.Update.{
  owner_name, update_rules_for_one_gateway, begin_gateway, finish_gateway, set_gateway_rules,
  get_or_create_gateway, update_each_gateway, update_gateway_rules, update_forwarder_rules,
  get_or_create_forwarder, begin_forwarder, finish_forwarder, set_forwarder_rules,
}
use k8s_ext_connector.Operator.Ports.{
  gen_relay_port_for_egress, gen_relay_port_for_ingress, assign, find_port, first_free, enter,
  gen_used_ports_for_egress, gen_used_ports_for_ingress,
}
use k8s_ext_connector.Util.Decimal.{itoa}
use k8s_ext_connector.Util.Ip.{get_rule_name, get_hex_ip, hex_byte, hex_bytes, to4}
use k8s_ext_connector.Operator.Rules.{
  get_unique_gateway, unique_gateways, gen_forwarder_egress_rules, gen_forwarder_ingress_rules,
  egress_sources, ingress_sources, ingress_ports, egress_ports, egress_addrs, egress_rule,
  ingress_rule, get_endpoint_addrs, get_source_service, all_addrs,
}
use k8s_ext_connector.Operator.Rules.Unique.{gateway_of}
use k8s_ext_connector.Operator.Update.Store.{forwarder_kind, gateway_kind}
use k8s_ext_connector.Operator.Update.Apart.{IsPaired}
use k8s_ext_connector.Operator.Update.Gateways.{IsHanded}
use k8s_ext_connector.Operator.Update.Ingress.{update_gateway_rules-IsHanded}
use k8s_ext_connector.Operator.Update.Served.{IsServed, update_gateway_rules-update_forwarder_rules}
use k8s_ext_connector.Operator.Update.Forwarders.{
  IsHandedForwarder, update_forwarder_rules-IsHanded,
}
use k8s_ext_connector.Tests.Syncs.{no_ipv6}
use k8s_ext_connector.Tests.World.{
  Pair, pair_conditions, pair_laws, fresh, fresh_gateway, status_of, set_status, differs, meta,
}
use k8s_ext_connector.Tests.Ports.{rule}
use k8s_ext_connector.Tests.Table.{table_reads}
use k8s_ext_connector.Tests.Stored.{
  Stored, client, forwarder_setters, forwarder_store, gateway_setters, gateway_store, owner,
  set_forwarders, set_gateways,
}

-- An ingress rule for each of two gateways.
abbrev first_rule : ForwarderRule
first_rule = record rule {
  gateway = record { namespace = connector_namespace; name = codes "gwrulec0a87ac8" };
  gateway_ip = codes "192.168.122.200";
}

abbrev second_rule : ForwarderRule
second_rule = record rule {
  gateway = record { namespace = connector_namespace; name = codes "gwrulec0a87ac9" };
  gateway_ip = codes "192.168.122.201";
}

abbrev two_rules : List ForwarderRule
two_rules = first_rule ∷ second_rule ∷ []

abbrev forwarder : Forwarder Pair
forwarder = record fresh { spec = record fresh.spec { ingress_rules = two_rules } }

-- The forwarder and the first gateway are stored.
abbrev pub start : Stored
start = record { forwarders = forwarder ∷ []; gateways = fresh_gateway ∷ [] }

abbrev resource : ExternalService
resource = record {
  meta = meta owner;
  spec = record { target_ip = codes "192.168.1.2"; sources = []; ports = [] };
}

addresses_differ : first_rule.gateway_ip ≢ second_rule.gateway_ip
unfolding ◌==◌
addresses_differ e = let b = (eq_iff first_rule.gateway_ip second_rule.gateway_ip).1 e in absurd cc

gateways_differ : gateway_of first_rule ≢ gateway_of second_rule
unfolding ◌==◌
gateways_differ e =
    let b =
      (eq_iff first_rule.gateway.name second_rule.gateway.name).1
        (ap (λ (x : NamespacedName). x.name) e) in
    absurd cc

two_rules-IsPaired : IsPaired two_rules
two_rules-IsPaired = (
  (
    (λ _. refl, λ _. refl),
    ((λ e. absurd (addresses_differ e), λ e. absurd (gateways_differ e)), tt),
  ),
  (
    (
      (λ e. absurd (addresses_differ (sym e)), λ e. absurd (gateways_differ (sym e))),
      ((λ _. refl, λ _. refl), tt),
    ),
    tt,
  ),
)

abbrev updated : Stored
updated = (update_gateway_rules pair_conditions fresh.status.conditions client resource start).1

update_gateway_rules-IsHanded_example :
    IsHanded pair_conditions pair_laws fresh.status.conditions client gateway_store
      (forwarder ∷ [])
      second_rule.gateway_ip
      (gateway_of second_rule)
      start
      updated
    × ((gateway_store.stored connector_namespace owner updated
          ≡ gateway_store.stored connector_namespace owner start)
        ⊎ ((r : ForwarderRule) × In r two_rules
            × (gateway_of r ≡ record { namespace = connector_namespace; name = owner })))
unfolding update_gateway_rules update_each_gateway get_or_create_gateway
    update_rules_for_one_gateway begin_gateway finish_gateway get_unique_gateway unique_gateways
    differs status_of set_status ◌==◌ lookup insert connector_namespace set_gateway_rules
update_gateway_rules-IsHanded_example =
    update_gateway_rules-IsHanded pair_conditions pair_laws fresh.status.conditions client
      gateway_store
      (table_reads gateway_kind gateway_setters (λ w. w.gateways) set_gateways (λ t w. refl))
      (λ n m w. refl) (λ m w. refl) resource forwarder (forwarder ∷ []) second_rule
      (record { namespace = connector_namespace; name = owner }) start refl refl two_rules-IsPaired
      (inr (inl refl)) refl

-- One source, one port.
abbrev source_resource : ExternalService
source_resource = record resource {
  spec = record {
    target_ip = codes "192.168.1.2";
    sources =
        record {
          service = record { namespace = codes "default"; name = codes "my-service" };
          source_ip = codes "192.168.122.200";
        }
        ∷ [];
    ports = record { protocol = codes "TCP"; port = pos 80; target_port = codes "8080" } ∷ [];
  };
}

update_succeeds :
    (update_forwarder_rules pair_conditions fresh.status.conditions client no_ipv6 source_resource
      start).0
    ≡ ok tt
unfolding update_forwarder_rules differs status_of set_status ◌==◌ connector_namespace lookup insert
    get_or_create_forwarder begin_forwarder gen_forwarder_egress_rules egress_sources get_rule_name
    get_hex_ip get_endpoint_addrs egress_ports egress_addrs gen_relay_port_for_egress assign
    find_port gen_used_ports_for_egress first_free gen_forwarder_ingress_rules ingress_sources
    ingress_ports get_source_service enter gen_used_ports_for_ingress all_addrs egress_rule
    finish_forwarder set_forwarder_rules itoa hex_byte hex_bytes to4 gen_relay_port_for_ingress
update_succeeds = refl

update_forwarder_rules-IsHanded_example :
    IsHandedForwarder pair_conditions pair_laws fresh.status.conditions client no_ipv6
      forwarder_store source_resource start
      (update_forwarder_rules pair_conditions fresh.status.conditions client no_ipv6 source_resource
        start).1
update_forwarder_rules-IsHanded_example =
    update_forwarder_rules-IsHanded pair_conditions pair_laws fresh.status.conditions client no_ipv6
      forwarder_store
      (table_reads forwarder_kind forwarder_setters (λ w. w.forwarders) set_forwarders
        (λ t w. refl))
      (record {
        pods = λ m n w. refl;
        services = λ m n w. refl;
        endpoints = λ m n w. refl;
        gateways = λ m w. refl;
      })
      source_resource start update_succeeds

abbrev after_forwarder : Stored
after_forwarder =
    (update_forwarder_rules pair_conditions fresh.status.conditions client no_ipv6 source_resource
      start).1

abbrev after_gateways : Stored
after_gateways =
    (update_gateway_rules pair_conditions fresh.status.conditions client source_resource
      after_forwarder).1

gateways_updated :
    (update_gateway_rules pair_conditions fresh.status.conditions client source_resource
      after_forwarder).0
    ≡ ok tt
unfolding update_forwarder_rules differs status_of set_status ◌==◌ connector_namespace lookup insert
    get_or_create_forwarder begin_forwarder gen_forwarder_egress_rules egress_sources get_rule_name
    get_hex_ip get_endpoint_addrs egress_ports egress_addrs gen_relay_port_for_egress assign
    find_port gen_used_ports_for_egress first_free gen_forwarder_ingress_rules ingress_sources
    ingress_ports get_source_service enter gen_used_ports_for_ingress all_addrs egress_rule
    finish_forwarder set_forwarder_rules itoa hex_byte hex_bytes to4 gen_relay_port_for_ingress
    update_gateway_rules update_each_gateway get_or_create_gateway update_rules_for_one_gateway
    begin_gateway finish_gateway get_unique_gateway unique_gateways set_gateway_rules ingress_rule
gateways_updated = refl

-- The forwarder that the first update leaves.
abbrev first_or_fresh : List (Forwarder Pair) → Forwarder Pair
first_or_fresh [] = fresh
first_or_fresh (f ∷ _) = f

abbrev written : Forwarder Pair
written = first_or_fresh after_forwarder.forwarders

written_stored : forwarder_store.stored connector_namespace owner after_forwarder ≡ some written
unfolding update_forwarder_rules differs status_of set_status ◌==◌ connector_namespace lookup insert
    get_or_create_forwarder begin_forwarder gen_forwarder_egress_rules egress_sources get_rule_name
    get_hex_ip get_endpoint_addrs egress_ports egress_addrs gen_relay_port_for_egress assign
    find_port gen_used_ports_for_egress first_free gen_forwarder_ingress_rules ingress_sources
    ingress_ports get_source_service enter gen_used_ports_for_ingress all_addrs egress_rule
    finish_forwarder set_forwarder_rules itoa hex_byte hex_bytes to4 gen_relay_port_for_ingress
    update_gateway_rules update_each_gateway get_or_create_gateway update_rules_for_one_gateway
    begin_gateway finish_gateway get_unique_gateway unique_gateways set_gateway_rules ingress_rule
written_stored = refl

written_read : (client.get_forwarder (owner_name source_resource) after_forwarder).0 ≡ ok written
unfolding update_forwarder_rules differs status_of set_status ◌==◌ connector_namespace lookup insert
    get_or_create_forwarder begin_forwarder gen_forwarder_egress_rules egress_sources get_rule_name
    get_hex_ip get_endpoint_addrs egress_ports egress_addrs gen_relay_port_for_egress assign
    find_port gen_used_ports_for_egress first_free gen_forwarder_ingress_rules ingress_sources
    ingress_ports get_source_service enter gen_used_ports_for_ingress all_addrs egress_rule
    finish_forwarder set_forwarder_rules itoa hex_byte hex_bytes to4 gen_relay_port_for_ingress
    update_gateway_rules update_each_gateway get_or_create_gateway update_rules_for_one_gateway
    begin_gateway finish_gateway get_unique_gateway unique_gateways set_gateway_rules ingress_rule
written_read = refl

written_listed : In written after_forwarder.forwarders
unfolding update_forwarder_rules differs status_of set_status ◌==◌ connector_namespace lookup insert
    get_or_create_forwarder begin_forwarder gen_forwarder_egress_rules egress_sources get_rule_name
    get_hex_ip get_endpoint_addrs egress_ports egress_addrs gen_relay_port_for_egress assign
    find_port gen_used_ports_for_egress first_free gen_forwarder_ingress_rules ingress_sources
    ingress_ports get_source_service enter gen_used_ports_for_ingress all_addrs egress_rule
    finish_forwarder set_forwarder_rules itoa hex_byte hex_bytes to4 gen_relay_port_for_ingress
    update_gateway_rules update_each_gateway get_or_create_gateway update_rules_for_one_gateway
    begin_gateway finish_gateway get_unique_gateway unique_gateways set_gateway_rules ingress_rule
written_listed = inl refl

update_gateway_rules-update_forwarder_rules_example :
    All
      (IsServed pair_conditions pair_laws fresh.status.conditions client no_ipv6 forwarder_store
        gateway_store written after_gateways)
      written.spec.ingress_rules
update_gateway_rules-update_forwarder_rules_example =
    update_gateway_rules-update_forwarder_rules pair_conditions pair_laws fresh.status.conditions
      client no_ipv6 forwarder_store gateway_store
      (record {
        forwarders =
            table_reads forwarder_kind forwarder_setters (λ w. w.forwarders) set_forwarders
              (λ t w. refl);
        others = record {
          pods = λ m n w. refl;
          services = λ m n w. refl;
          endpoints = λ m n w. refl;
          gateways = λ m w. refl;
        };
        gateways =
            table_reads gateway_kind gateway_setters (λ w. w.gateways) set_gateways (λ t w. refl);
        get_keeps = λ n m w. refl;
        list_keeps = λ m w. refl;
      })
      source_resource written after_forwarder.forwarders start (λ s ip h. absurd cc)
      ((inr refl, tt), tt) update_succeeds gateways_updated written_stored written_read refl
      written_listed

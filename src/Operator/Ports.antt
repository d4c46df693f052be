-- ===== src/Operator/Ports.antt =====
-- Relay ports (pkg/controller/externalservice/reconciler.go, with the bounds of pkg/util/util.go).
-- A table maps a relay port to the `sourceIP:targetPort` that it carries.
pub mod Assign
pub mod Capacity
pub mod Reuse
pub mod Order
pub mod Ingress
use k8s_ext_connector.Prelude.{
  Text, ℕ, zero, suc, ◌+◌, ◌-◌, Bool, Option, none, some, List, [], ◌∷◌, ◌++◌, ◌==◌, if◌then◌else◌,
}
use k8s_ext_connector.Prelude.Int.{pos}
use k8s_ext_connector.Prelude.Dict.{Dict, lookup, insert, has}
use k8s_ext_connector.Exec.{Result, ok, err, relay_port_exhausted}
use k8s_ext_connector.Util.Decimal.{itoa}
use k8s_ext_connector.Api.{ForwarderRule, Forwarder, GatewayRule, Gateway}

abbrev pub min_port : ℕ
min_port = 2049

abbrev pub max_port : ℕ
max_port = 65536

-- How many ports the loop `port := MinPort; port < MaxPort+1` visits.
abbrev pub port_count : ℕ
port_count = max_port + 1 - min_port

abbrev pub flow : Text → Text → Text
flow source_ip target_port = source_ip ++ b':' ∷ target_port

-- The first `range` loop: the port that carries `key` already.
unfoldable pub find_port : Text → Dict Text → Option Text
find_port key [] = none
find_port key ((k, v) ∷ table) = if v == key then some k else find_port key table

-- The second loop, with `count` ports left to visit from `port` on.
unfoldable pub first_free : ℕ → ℕ → Dict Text → Option Text
first_free zero port table = none
first_free (suc count) port table =
    let rest = first_free count (port + 1) table in
    if has (itoa (pos port)) table then rest else some (itoa (pos port))

-- A new port is entered into the table.
unfoldable pub enter : Text → Dict Text → Option Text → Result (Text × Dict Text)
enter key table none = err relay_port_exhausted
enter key table (some port) = ok (port, insert port key table)

-- Both loops: the port, and the table that the call leaves.
unfoldable pub assign : Text → Dict Text → Result (Text × Dict Text)
unfolding enter
assign key table = elim (find_port key table) [
  | some port ↦ ok (port, table)
  | none ↦ enter key table (first_free port_count min_port table)
]

unfoldable pub gen_relay_port_for_egress : Text → Text → Dict Text → Result (Text × Dict Text)
gen_relay_port_for_egress source_ip target_port ports = assign (flow source_ip target_port) ports

used_by_rules : List ForwarderRule → Dict Text → Dict Text
used_by_rules [] used = used
used_by_rules (rule ∷ rules) used =
    used_by_rules rules (insert rule.relay_port rule.target_port used)

unfoldable pub gen_used_ports_for_egress : {C : Type 0} → Forwarder C → Dict Text
unfolding used_by_rules
gen_used_ports_for_egress fwd = used_by_rules fwd.spec.egress_rules []

-- `if _, ok := m[name]; !ok { m[name] = map[string]string{} }`
pub ensure_table : Text → Dict (Dict Text) → Dict (Dict Text)
ensure_table name tables = if has name tables then tables else insert name [] tables

abbrev pub or_empty : Option (Dict Text) → Dict Text
or_empty none = []
or_empty (some table) = table

-- `m[name]`, the empty map where there is none
abbrev pub table_of : Text → Dict (Dict Text) → Dict Text
table_of name tables = or_empty (lookup name tables)

-- The table of the gateway goes back into the tables.
pub store_table :
    Text → Dict (Dict Text) → Result (Text × Dict Text) → Result (Text × Dict (Dict Text))
store_table name tables (ok (port, table)) = ok (port, insert name table tables)
store_table name tables (err e) = err e

unfoldable pub gen_relay_port_for_ingress :
    Text → Text → Text → Dict (Dict Text) → Result (Text × Dict (Dict Text))
unfolding ensure_table store_table
gen_relay_port_for_ingress source_ip target_port gateway_name ports =
    let tables = ensure_table gateway_name ports in
    store_table gateway_name tables
      (assign (flow source_ip target_port) (table_of gateway_name tables))

used_by_gateway : Text → List GatewayRule → Dict (Dict Text) → Dict (Dict Text)
used_by_gateway name [] used = used
used_by_gateway name (rule ∷ rules) used = used_by_gateway name rules (
    insert name (insert rule.relay_port (flow rule.source_ip rule.target_port) (table_of name used))
      used)

used_by_gateways : {C : Type 0} → List (Gateway C) → Dict (Dict Text) → Dict (Dict Text)
unfolding used_by_gateway ensure_table
used_by_gateways [] used = used
used_by_gateways (gw ∷ gws) used =
    used_by_gateways gws
      (used_by_gateway gw.meta.name gw.spec.ingress_rules (ensure_table gw.meta.name used))

unfoldable pub gen_used_ports_for_ingress : {C : Type 0} → List (Gateway C) → Dict (Dict Text)
unfolding used_by_gateways
gen_used_ports_for_ingress gws = used_by_gateways gws []

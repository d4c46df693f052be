-- ===== src/Operator/Ports/Ingress.antt =====
-- Which ports the tables that are rebuilt from the stored gateways let the operator use again
-- (`genUsedPortsForIngress`, `genRelayPortForIngress`).
use k8s_ext_connector.Prelude.{
  Text, true, some, List, [], ◌∷◌, ◌++◌, ◌==◌, eq_iff, eq_refl, ◌≡◌, ◌⊎◌, ◌↔◌, inl, inr, refl, sym,
  ap, ◌∙◌, arith, Bool-cases, Option-cases, if◌then◌else◌, In,
}
use k8s_ext_connector.Prelude.Dict.{Dict, lookup, insert, has, lookup-insert, lookup-empty}
use k8s_ext_connector.Exec.{ok}
use k8s_ext_connector.Api.{GatewayRule, Gateway}
use k8s_ext_connector.Operator.Ports.{
  flow, or_empty, table_of, ensure_table, store_table, used_by_gateway, used_by_gateways,
  gen_used_ports_for_ingress, gen_relay_port_for_ingress,
}
use k8s_ext_connector.Operator.Ports.Assign.{Distinct, Distinct-insert, assign_old}
use k8s_ext_connector.Operator.Ports.Order.{find_port-some}

abbrev pub flow_of : GatewayRule → Text
flow_of rule = flow rule.source_ip rule.target_port

-- The ingress rules of the gateways of one name.
unfoldable pub rules_named : {C : Type 0} → Text → List (Gateway C) → List GatewayRule
rules_named name [] = []
rules_named name (gw ∷ gws) =
    let rest = rules_named name gws in
    if gw.meta.name == name then gw.spec.ingress_rules ++ rest else rest

-- The rules entered into one table.
entered : List GatewayRule → Dict Text → Dict Text
entered [] table = table
entered (rule ∷ rules) table = entered rules (insert rule.relay_port (flow_of rule) table)

entered-append :
    (xs ys : List GatewayRule) (table : Dict Text)
    → entered (xs ++ ys) table ≡ entered ys (entered xs table)
unfolding entered
entered-append [] ys table = refl
entered-append (x ∷ xs) ys table = entered-append xs ys _

table_of-ensure_table :
    (name key : Text) (tables : Dict (Dict Text))
    → table_of key (ensure_table name tables) ≡ table_of key tables
unfolding ensure_table
table_of-ensure_table name key tables =
    ground (arith, lookup-insert name key [] tables, eq_iff name key)

table_of-insert :
    (name key : Text) (table : Dict Text) (tables : Dict (Dict Text))
    → table_of key (insert name table tables) ≡ (if name == key then table else table_of key tables)
table_of-insert name key table tables =
    ap or_empty (lookup-insert name key table tables) ∙ ground arith

used_by_gateway-entered :
    (name key : Text) (rules : List GatewayRule) (used : Dict (Dict Text))
    → table_of key (used_by_gateway name rules used)
      ≡ (if name == key then entered rules (table_of key used) else table_of key used)
unfolding used_by_gateway entered
used_by_gateway-entered name key [] used = ground arith
used_by_gateway-entered name key (rule ∷ rules) used =
    let more = insert rule.relay_port (flow_of rule) (table_of name used) in
    used_by_gateway-entered name key rules (insert name more used)
    ∙ ground (arith, table_of-insert name key more used, eq_iff name key)

used_by_gateways-entered :
    {C : Type 0} (key : Text) (gws : List (Gateway C)) (used : Dict (Dict Text))
    → table_of key (used_by_gateways gws used) ≡ entered (rules_named key gws) (table_of key used)
unfolding used_by_gateways rules_named
used_by_gateways-entered key [] used = unfold entered in refl
used_by_gateways-entered key (gw ∷ gws) used =
    let name = gw.meta.name in
    let rules = gw.spec.ingress_rules in
    let used' = ensure_table name used in
    used_by_gateways-entered key gws (used_by_gateway name rules used')
    ∙ ground (
      arith,
      used_by_gateway-entered name key rules used',
      table_of-ensure_table name key used,
      entered-append rules (rules_named key gws) (table_of key used),
    )

entered-Distinct :
    (rules : List GatewayRule) (table : Dict Text) → Distinct table → Distinct (entered rules table)
unfolding entered
entered-Distinct [] table d = d
entered-Distinct (rule ∷ rules) table d =
    entered-Distinct rules _ (Distinct-insert rule.relay_port (flow_of rule) table d)

-- The rule gives the port to the flow.
abbrev Gives : Text → Text → GatewayRule → Type 0
Gives port key rule = (rule.relay_port ≡ port) × (flow_of rule ≡ key)

entered_sound :
    (rules : List GatewayRule) (table : Dict Text) (p v : Text)
    → lookup p (entered rules table) ≡ some v
    → ((rule : GatewayRule) × In rule rules × Gives p v rule) ⊎ (lookup p table ≡ some v)
unfolding entered
entered_sound [] table p v h = inr h
entered_sound (rule ∷ rules) table p v h =
    elim (entered_sound rules (insert rule.relay_port (flow_of rule) table) p v h) [
      | inl (r, m, g) ↦ inl (r, inr m, g)
      | inr e ↦
          let e' = sym (lookup-insert rule.relay_port p (flow_of rule) table) ∙ e in
          elim (Bool-cases (rule.relay_port == p)) [
            | inl same ↦
                inl (rule, inl refl, ((eq_iff rule.relay_port p).0 same, ground (arith, same)))
            | inr other ↦ inr (rw other at e')
          ]
    ]

-- A port stays in the table.
entered_keeps :
    (rules : List GatewayRule) (table : Dict Text) (p : Text)
    → has p table ≡ true
    → has p (entered rules table) ≡ true
unfolding entered
entered_keeps [] table p h = h
entered_keeps (rule ∷ rules) table p h =
    entered_keeps rules _ p
      (ground (arith, h, lookup-insert rule.relay_port p (flow_of rule) table))

entered_complete :
    (rules : List GatewayRule) (table : Dict Text) (rule : GatewayRule)
    → In rule rules
    → has rule.relay_port (entered rules table) ≡ true
unfolding entered
entered_complete [] table rule m = absurd m
entered_complete (r ∷ rules) table rule (inl e) =
    entered_keeps rules (insert r.relay_port (flow_of r) table) rule.relay_port (
      ground (
        arith,
        ap (λ (x : GatewayRule). x.relay_port) e,
        eq_refl r.relay_port,
        lookup-insert r.relay_port rule.relay_port (flow_of r) table,
      ))
entered_complete (r ∷ rules) table rule (inr m) = entered_complete rules _ rule m

-- Among the rules, a relay port and a flow determine one another.
abbrev pub Matched : List GatewayRule → Type 0
Matched rules =
    (r s : GatewayRule)
    → In r rules
    → In s rules
    → (r.relay_port ≡ s.relay_port) ↔ (flow_of r ≡ flow_of s)

-- What a table of rules alone holds comes from one of them.
entered_only :
    (rules : List GatewayRule) (p v : Text)
    → lookup p (entered rules []) ≡ some v
    → (rule : GatewayRule) × In rule rules × Gives p v rule
unfolding lookup
entered_only rules p v h = elim (entered_sound rules [] p v h) [ inl r ↦ r | inr e ↦ absurd cc ]

module _ (rules : List GatewayRule) (rule : GatewayRule) (matched : Matched rules)
    (m : In rule rules) where
  entered-lookup : lookup rule.relay_port (entered rules []) ≡ some (flow_of rule)
  entered-lookup = elim (Option-cases (lookup rule.relay_port (entered rules []))) [
    | inl e ↦ absurd (ground (arith, e, entered_complete rules [] rule m))
    | inr (v, e) ↦
        let (r, n, (same, carries)) = entered_only rules rule.relay_port v e in
        e ∙ ap some (sym carries ∙ (matched r rule n m).0 same)
  ]

  entered_unique :
      (q : Text) → lookup q (entered rules []) ≡ some (flow_of rule) → q ≡ rule.relay_port
  entered_unique q e =
      let (r, n, (same, carries)) = entered_only rules q (flow_of rule) e in
      sym same ∙ (matched r rule n m).1 carries

module _ {C : Type 0} (gws : List (Gateway C)) (name : Text) (rule : GatewayRule) where
  table_of-gen_used_ports_for_ingress :
      table_of name (ensure_table name (gen_used_ports_for_ingress gws))
      ≡ entered (rules_named name gws) []
  unfolding gen_used_ports_for_ingress
  table_of-gen_used_ports_for_ingress =
      table_of-ensure_table name name (used_by_gateways gws [])
      ∙ used_by_gateways-entered name gws []
      ∙ ap (entered (rules_named name gws)) (ap or_empty (lookup-empty name))

  -- Among the ingress rules of the gateways of a name, let a relay port and a `sourceIP:targetPort`
  -- determine one another. Then the tables that `genUsedPortsForIngress` rebuilds lead
  -- `genRelayPortForIngress` back to the relay port of each of the rules, and each gateway's table
  -- stays as it was.
  pub gen_used_ports_for_ingress_reuses :
      Matched (rules_named name gws)
      → In rule (rules_named name gws)
      → (tables : Dict (Dict Text)) × (gen_relay_port_for_ingress rule.source_ip rule.target_port
            name
            (gen_used_ports_for_ingress gws)
          ≡ ok (rule.relay_port, tables))
        × ((other : Text) → table_of other tables ≡ table_of other (gen_used_ports_for_ingress gws))
  unfolding gen_relay_port_for_ingress store_table
  gen_used_ports_for_ingress_reuses matched m =
      let rules = rules_named name gws in
      let used = gen_used_ports_for_ingress gws in
      let tables = ensure_table name used in
      let table = table_of name tables in
      let same = table_of-gen_used_ports_for_ingress in
      let found =
        find_port-some (flow_of rule) (entered rules []) rule.relay_port
          (entered-Distinct rules [] tt) (entered_unique rules rule matched m)
          (entered-lookup rules rule matched m) in
      let assigned = assign_old (flow_of rule) table (rw same found) in
      (
        insert name table tables,
        rw assigned refl,
        λ other.
            table_of-insert name other table tables
            ∙ ground (arith, eq_iff name other, table_of-ensure_table name other used),
      )

-- ===== src/Operator/Ports/Assign.antt =====
-- What the two loops of `genRelayPortForEgress` and `genRelayPortForIngress` return.
use k8s_ext_connector.Prelude.{
  Text, ℕ, zero, suc, ◌+◌, ◌≤◌, ◌<◌, true, none, some, [], ◌∷◌, ◌==◌, eq_iff, eq_refl, eq_sym,
  nat_eq, if◌then◌else◌, nat_eq_iff, ◌≡◌, ◌⊎◌, inl, inr, sym, refl, arith, Bool-cases, Option-cases,
}
use k8s_ext_connector.Prelude.Int.{pos}
use k8s_ext_connector.Prelude.Dict.{Dict, lookup, insert, has, lookup-insert}
use k8s_ext_connector.Exec.{ok}
use k8s_ext_connector.Util.Decimal.{itoa}
use k8s_ext_connector.Operator.Ports.{
  min_port, max_port, port_count, flow, find_port, first_free, enter, assign,
  gen_relay_port_for_egress,
}

-- A Go map holds a key once.
abbrev pub Distinct {ℓ} : {V : Type ℓ} → Dict V → Type ℓ
Distinct [] = Unit
Distinct ((k, v) ∷ table) = (lookup k table ≡ none) × Distinct table

pub Distinct-insert {ℓ} :
    {V : Type ℓ} (k : Text) (v : V) (table : Dict V) → Distinct table → Distinct (insert k v table)
unfolding insert
Distinct-insert k v [] d = (unfold lookup in refl, tt)
Distinct-insert k v ((j, w) ∷ table) d = elim (Bool-cases (j == k)) [
  | inl same ↦ rw same (rw ((eq_iff j k).0 same) at d)
  | inr other ↦ rw other (rw (lookup-insert, eq_sym, other) d.0, Distinct-insert k v table d.1)
]

pub find_port-lookup :
    (key : Text) (table : Dict Text) (port : Text)
    → Distinct table
    → find_port key table ≡ some port
    → lookup port table ≡ some key
unfolding find_port lookup
find_port-lookup key [] port d h = cc
find_port-lookup key ((k, v) ∷ table) port d h =
    ground (arith, d.0, eq_iff v key, eq_iff k port, eq_refl k, find_port-lookup key table port d.1)

-- A port that was found free is free, lies in the range, and every smaller one is taken.
first_free_lem :
    (count port : ℕ) (table : Dict Text) (p : Text)
    → first_free count port table ≡ some p
    → (n : ℕ) × (p ≡ itoa (pos n))
      × (port ≤ n)
      × (n < port + count)
      × (lookup p table ≡ none)
      × ((m : ℕ) → port ≤ m → m < n → has (itoa (pos m)) table ≡ true)
unfolding first_free
first_free_lem zero port table p h = absurd (ground arith)
first_free_lem (suc count) port table p h = elim (Option-cases (lookup (itoa (pos port)) table)) [
  | inl free ↦
      let e : itoa (pos port) ≡ p = ground (arith, free) in
      (port, sym e, omega arith, omega arith, rw (← e) free, λ m lo hi. absurd (omega arith))
  | inr (v, used) ↦
      let (n, e, lo, hi, free, taken) =
        first_free_lem count (port + 1) table p (ground (arith, used)) in
      (
        n,
        e,
        omega arith,
        omega arith,
        free,
        λ m low high. elim (Bool-cases (nat_eq m port)) [
          | inl here ↦ rw ((nat_eq_iff m port).0 here) (ground (arith, used))
          | inr there ↦ taken m (ground arith) high
        ],
      )
]

-- A port of this name may be used: it is a decimal number between `MinPort` and `MaxPort`.
abbrev pub InRange : Text → Type 0
InRange port = (n : ℕ) × (port ≡ itoa (pos n)) × (min_port ≤ n) × (n ≤ max_port)

-- What a call has done to a table: the port carries the flow and did not carry another, the other
-- ports carry what they carried, and the table is a Go map.
pub record IsAssigned (key : Text) (ports : Dict Text) (port : Text) (after : Dict Text)
    : Type 0 where
  pub lookups : (q : Text) → lookup q after ≡ (if port == q then some key else lookup q ports)
  pub unchanged : (lookup port ports ≡ none) ⊎ (lookup port ports ≡ some key)
  pub distinct : Distinct after

module _ {key : Text} {ports : Dict Text} {port : Text} {after : Dict Text}
    (a : IsAssigned key ports port after) where
  pub IsAssigned-carries : lookup port after ≡ some key
  IsAssigned-carries = ground (arith, a.lookups port, eq_refl port)

  pub IsAssigned-keeps : (q v : Text) → lookup q ports ≡ some v → lookup q after ≡ some v
  IsAssigned-keeps q v e = ground (arith, a.lookups q, a.unchanged, eq_iff port q)

module _ (key : Text) (ports : Dict Text) where
  pub assign_old : {p : Text} → find_port key ports ≡ some p → assign key ports ≡ ok (p, ports)
  unfolding assign
  assign_old old = ground arith

  pub assign_new :
      {p : Text}
      → find_port key ports ≡ none
      → first_free port_count min_port ports ≡ some p
      → assign key ports ≡ ok (p, insert p key ports)
  unfolding assign enter
  assign_new new free = ground arith

module _ (key : Text) (ports : Dict Text) {port : Text} {after : Dict Text} where
  -- A call that succeeds has found the flow's port, or entered a free one.
  pub assign-cases :
      assign key ports ≡ ok (port, after)
      → ((find_port key ports ≡ some port) × (after ≡ ports))
        ⊎ ((find_port key ports ≡ none)
            × (first_free port_count min_port ports ≡ some port)
            × (after ≡ insert port key ports))
  unfolding assign enter
  assign-cases h = elim (Option-cases (first_free port_count min_port ports)) [
    | inl e ↦ ground (arith, e)
    | inr (p, e) ↦ ground (arith, e)
  ]

  pub assign-IsAssigned :
      Distinct ports → assign key ports ≡ ok (port, after) → IsAssigned key ports port after
  assign-IsAssigned d h = elim (assign-cases h) [
    | inl (found, same) ↦
        let old = find_port-lookup key ports port d found in
        rw same (record {
          lookups = λ q. ground (arith, old, eq_iff port q);
          unchanged = inr old;
          distinct = d;
        })
    | inr (_, free, entered) ↦
        let (_, _, _, _, unused, _) = first_free_lem port_count min_port ports port free in
        rw entered (record {
          lookups = λ q. lookup-insert port q key ports;
          unchanged = inl unused;
          distinct = Distinct-insert port key ports d;
        })
  ]

module _ (source_ip target_port : Text) (ports : Dict Text) {port : Text} {after : Dict Text} where
  -- When `genRelayPortForEgress` succeeds on a Go map, the port that it returns carries the flow in
  -- the table that it leaves and carried no other flow before, every other port carries what it
  -- carried, and the table is a Go map again.
  pub gen_relay_port_for_egress-IsAssigned :
      Distinct ports
      → gen_relay_port_for_egress source_ip target_port ports ≡ ok (port, after)
      → IsAssigned (flow source_ip target_port) ports port after
  unfolding gen_relay_port_for_egress
  gen_relay_port_for_egress-IsAssigned d h =
      assign-IsAssigned (flow source_ip target_port) ports d h

  -- A flow that no port carries gets the smallest free port between `MinPort` and `MaxPort`.
  pub gen_relay_port_for_egress-fresh :
      find_port (flow source_ip target_port) ports ≡ none
      → gen_relay_port_for_egress source_ip target_port ports ≡ ok (port, after)
      → (n : ℕ) × (port ≡ itoa (pos n))
        × (min_port ≤ n)
        × (n ≤ max_port)
        × (lookup port ports ≡ none)
        × ((m : ℕ) → min_port ≤ m → m < n → has (itoa (pos m)) ports ≡ true)
        × (after ≡ insert port (flow source_ip target_port) ports)
  unfolding gen_relay_port_for_egress
  gen_relay_port_for_egress-fresh new h = elim (assign-cases (flow source_ip target_port) ports h) [
    | inl (found, _) ↦ absurd (ground arith)
    | inr (_, free, entered) ↦
        let (n, e, lo, hi, unused, taken) = first_free_lem port_count min_port ports port free in
        (n, e, lo, omega arith, unused, taken, entered)
  ]

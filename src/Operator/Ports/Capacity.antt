-- ===== src/Operator/Ports/Capacity.antt =====
-- The loop over the ports gives up only when every port is taken.
use k8s_ext_connector.Prelude.{
  Text, ℕ, zero, suc, ◌+◌, ◌≤◌, ◌<◌, true, false, none, some, [], ◌∷◌, eq_iff, ◌≡◌, inl, inr, refl,
  arith, Bool-cases, Option-cases, length,
}
use native.Mathlib.Nat.{add-zero}
use k8s_ext_connector.Prelude.Int.{pos}
use k8s_ext_connector.Prelude.Dict.{Dict, lookup, insert, remove, has, lookup-remove}
use k8s_ext_connector.Exec.{ok}
use k8s_ext_connector.Util.Decimal.{itoa, itoa-injective}
use k8s_ext_connector.Operator.Ports.{
  min_port, port_count, flow, find_port, first_free, gen_relay_port_for_egress,
}
use k8s_ext_connector.Operator.Ports.Assign.{assign_old, assign_new}

length-remove-le : (k : Text) (table : Dict Text) → length (remove k table) ≤ length table
unfolding remove
length-remove-le k [] = omega arith
length-remove-le k ((j, v) ∷ table) = ground (arith, length-remove-le k table)

-- A key that is there takes room.
length-remove :
    (k : Text) (table : Dict Text) → has k table ≡ true → length (remove k table) < length table
unfolding remove lookup
length-remove k [] h = cc
length-remove k ((j, v) ∷ table) h = ground (arith, length-remove-le k table, length-remove k table)

-- A port whose number differs is left alone.
has-remove :
    (m n : ℕ) (table : Dict Text)
    → m < n
    → has (itoa (pos n)) (remove (itoa (pos m)) table) ≡ has (itoa (pos n)) table
has-remove m n table h =
    rw lookup-remove (ground (arith, eq_iff (itoa (pos m)) (itoa (pos n)), itoa-injective m n))

-- With a port removed that is not visited, the loop goes the same way.
first_free-remove :
    (count port m : ℕ) (table : Dict Text)
    → m < port
    → first_free count port (remove (itoa (pos m)) table) ≡ first_free count port table
unfolding first_free
first_free-remove zero port m table h = refl
first_free-remove (suc count) port m table h =
    rw (has-remove m port table h, first_free-remove count (port + 1) m table (omega arith))

-- Each of `count` ports that are taken needs an entry of its own.
count-le-length :
    (count port : ℕ) (table : Dict Text) → first_free count port table ≡ none → count ≤ length table
unfolding first_free
count-le-length zero port table h = omega arith
count-le-length (suc count) port table h = elim (Bool-cases (has (itoa (pos port)) table)) [
  | inl taken ↦ omega (
    arith,
    length-remove (itoa (pos port)) table taken,
    count-le-length count (port + 1) (remove (itoa (pos port)) table)
        (rw (first_free-remove count (port + 1) port table (omega arith)) (rw taken at h)),
  )
  | inr free ↦ absurd (cc (rw free at h))
]

-- A table with fewer entries than there are ports always has room: `genRelayPortForEgress` returns
-- a port.
pub gen_relay_port_for_egress-total :
    (source_ip target_port : Text) (ports : Dict Text)
    → length ports < port_count
    → (r : Text × Dict Text) × (gen_relay_port_for_egress source_ip target_port ports ≡ ok r)
unfolding gen_relay_port_for_egress
gen_relay_port_for_egress-total source_ip target_port ports h =
    elim (Option-cases (first_free port_count min_port ports)) [
      | inl full ↦ absurd (omega (arith, count-le-length port_count min_port ports full))
      | inr (p, free) ↦ elim (Option-cases (find_port (flow source_ip target_port) ports)) [
        | inl new ↦ (_, assign_new (flow source_ip target_port) ports new free)
        | inr (q, old) ↦ (_, assign_old (flow source_ip target_port) ports old)
      ]
    ]

-- The loop stops at the first port that is free.
first_free_at :
    (count port k : ℕ) (table : Dict Text)
    → k < count
    → ((m : ℕ) → port ≤ m → m < port + k → has (itoa (pos m)) table ≡ true)
    → has (itoa (pos (port + k))) table ≡ false
    → first_free count port table ≡ some (itoa (pos (port + k)))
unfolding first_free
first_free_at zero port k table lt taken free = elim lt [ ]
first_free_at (suc count) port zero table lt taken free =
    rw add-zero (rw (rw add-zero at free) refl)
first_free_at (suc count) port (suc k) table lt taken free =
    let e : port + suc k ≡ port + 1 + k = omega arith in
    rw (taken port (omega arith) (omega arith), e)
      (first_free_at count (port + 1) k table (omega arith)
        (λ m lo hi. taken m (omega arith) (omega arith)) (rw e at free))

-- Once all the ports that TCP has from `MinPort` on are taken, a flow that has no port yet is given
-- the port 65536, which TCP does not have, although the table could say that none is left.
pub gen_relay_port_for_egress_past_tcp :
    (source_ip target_port : Text) (ports : Dict Text)
    → find_port (flow source_ip target_port) ports ≡ none
    → ((m : ℕ) → min_port ≤ m → m ≤ 65535 → has (itoa (pos m)) ports ≡ true)
    → has (itoa (pos 65536)) ports ≡ false
    → gen_relay_port_for_egress source_ip target_port ports
      ≡ ok (itoa (pos 65536), insert (itoa (pos 65536)) (flow source_ip target_port) ports)
unfolding gen_relay_port_for_egress
gen_relay_port_for_egress_past_tcp source_ip target_port ports new taken free =
    assign_new (flow source_ip target_port) ports new (
      first_free_at port_count min_port 63487 ports (omega arith)
        (λ m lo hi. taken m lo (omega arith)) free)

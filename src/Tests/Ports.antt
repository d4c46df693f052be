-- ===== src/Tests/Ports.antt =====
-- Relay ports at concrete tables.
use k8s_ext_connector.Prelude.{
  Text, codes, ℕ, zero, suc, ◌+◌, ◌≤◌, ◌<◌, ◌≡◌, ◌≢◌, refl, true, false, none, [], ◌∷◌, ◌==◌,
  eq_iff, ap, arith, All, Bool-cases, nat_eq, inl, inr,
}
use k8s_ext_connector.Prelude.Int.{pos}
use k8s_ext_connector.Prelude.Dict.{Dict, lookup, insert, has}
use k8s_ext_connector.Exec.{ok}
use k8s_ext_connector.Util.Decimal.{itoa, itoa-injective}
use k8s_ext_connector.Api.{ForwarderRule, Forwarder}
use k8s_ext_connector.Operator.Ports.{
  min_port, max_port, flow, find_port, first_free, assign, enter, gen_relay_port_for_egress,
  gen_used_ports_for_egress,
}
use k8s_ext_connector.Operator.Ports.Assign.{
  IsAssigned, gen_relay_port_for_egress-IsAssigned, gen_relay_port_for_egress-fresh,
}
use k8s_ext_connector.Operator.Ports.Capacity.{
  gen_relay_port_for_egress-total, gen_relay_port_for_egress_past_tcp,
}
use k8s_ext_connector.Operator.Ports.Reuse.{gen_used_ports_for_egress_forgets}

abbrev one_used : Dict Text
one_used = (codes "2049", codes "10.0.0.1:80") ∷ []

abbrev pub two_used : Dict Text
two_used = (codes "2049", codes "10.0.0.1:80") ∷ (codes "2050", codes "10.0.0.2:80") ∷ []

second_port :
    gen_relay_port_for_egress (codes "10.0.0.2") (codes "80") one_used ≡ ok (codes "2050", two_used)
unfolding gen_relay_port_for_egress assign enter find_port first_free lookup insert ◌==◌ itoa
second_port = refl

gen_relay_port_for_egress-IsAssigned_example :
    IsAssigned (flow (codes "10.0.0.2") (codes "80")) one_used (codes "2050") two_used
unfolding lookup
gen_relay_port_for_egress-IsAssigned_example =
    gen_relay_port_for_egress-IsAssigned (codes "10.0.0.2") (codes "80") one_used (refl, tt)
      second_port

gen_relay_port_for_egress-fresh_example :
    (n : ℕ) × (codes "2050" ≡ itoa (pos n))
    × (min_port ≤ n)
    × (n ≤ max_port)
    × (lookup (codes "2050") one_used ≡ none)
    × ((m : ℕ) → min_port ≤ m → m < n → has (itoa (pos m)) one_used ≡ true)
    × (two_used ≡ insert (codes "2050") (flow (codes "10.0.0.2") (codes "80")) one_used)
unfolding find_port ◌==◌
gen_relay_port_for_egress-fresh_example =
    gen_relay_port_for_egress-fresh (codes "10.0.0.2") (codes "80") one_used refl second_port

gen_relay_port_for_egress-total_example :
    (r : Text × Dict Text) × (gen_relay_port_for_egress (codes "10.0.0.2") (codes "80") one_used
      ≡ ok r)
gen_relay_port_for_egress-total_example =
    gen_relay_port_for_egress-total (codes "10.0.0.2") (codes "80") one_used (omega arith)

-- `count` ports from `port` on, taken by a flow of no name.
taken : ℕ → ℕ → Dict Text
taken zero port = []
taken (suc count) port = (itoa (pos port), []) ∷ taken count (port + 1)

has-taken :
    (count port m : ℕ) → port ≤ m → m < port + count → has (itoa (pos m)) (taken count port) ≡ true
unfolding taken lookup
has-taken zero port m lo hi = absurd (omega arith)
has-taken (suc count) port m lo hi = elim (Bool-cases (nat_eq port m)) [
  | inl same ↦
      ground (arith, same, eq_iff (itoa (pos port)) (itoa (pos m)), ap (λ (n : ℕ). itoa (pos n)))
  | inr other ↦ ground (arith, other, has-taken count (port + 1) m)
]

not_has-taken :
    (count port m : ℕ) → port + count ≤ m → has (itoa (pos m)) (taken count port) ≡ false
unfolding taken lookup
not_has-taken zero port m h = refl
not_has-taken (suc count) port m h = ground (
  arith,
  eq_iff (itoa (pos port)) (itoa (pos m)),
  itoa-injective port m,
  not_has-taken count (port + 1) m,
)

find_port-taken :
    (count port : ℕ) (c : ℕ) (key : Text) → find_port (c ∷ key) (taken count port) ≡ none
unfolding taken find_port ◌==◌
find_port-taken zero port c key = refl
find_port-taken (suc count) port c key = find_port-taken count (port + 1) c key

gen_relay_port_for_egress_past_tcp_example :
    gen_relay_port_for_egress (codes "10.0.0.2") (codes "80") (taken 63487 2049)
    ≡ ok (
      itoa (pos 65536),
      insert (itoa (pos 65536)) (flow (codes "10.0.0.2") (codes "80")) (taken 63487 2049),
    )
gen_relay_port_for_egress_past_tcp_example =
    gen_relay_port_for_egress_past_tcp (codes "10.0.0.2") (codes "80") (taken 63487 2049)
      (find_port-taken 63487 2049 _ _) (λ m lo hi. has-taken 63487 2049 m lo (omega arith))
      (not_has-taken 63487 2049 65536 (omega arith))

abbrev pub rule : ForwarderRule
rule = record {
  protocol = codes "TCP";
  source_ip = codes "10.0.0.2";
  target_port = codes "80";
  destination_ip = codes "192.168.122.139";
  destination_port = codes "8000";
  gateway = record { namespace = codes "external-services"; name = codes "gwrulec0a87ac8" };
  gateway_ip = codes "192.168.122.200";
  relay_port = codes "2049";
}

abbrev pub forwarder : Forwarder (Unit {0})
forwarder = record {
  meta = record {
    namespace = codes "external-services";
    name = codes "my-externalservice";
    resource_version = codes "1";
    labels = [];
    finalizers = [];
    deleted = false;
  };
  spec = record { egress_rules = rule ∷ []; ingress_rules = []; forwarder_ip = codes "10.0.0.9" };
  status = record { conditions = tt; rule_generation = 1; sync_generation = 1 };
}

moved_table :
    gen_relay_port_for_egress (codes "10.0.0.2") (codes "80") (gen_used_ports_for_egress forwarder)
    ≡ ok (codes "2050", (codes "2049", codes "80") ∷ (codes "2050", codes "10.0.0.2:80") ∷ [])
unfolding gen_relay_port_for_egress gen_used_ports_for_egress assign enter find_port first_free
    lookup insert ◌==◌ itoa
moved_table = refl

gen_used_ports_for_egress_forgets_example :
    All (λ (r : ForwarderRule). r.relay_port ≢ codes "2050") (rule ∷ [])
gen_used_ports_for_egress_forgets_example =
    gen_used_ports_for_egress_forgets forwarder (codes "10.0.0.2") (codes "80") (omega arith)
      moved_table

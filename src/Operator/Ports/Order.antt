-- ===== src/Operator/Ports/Order.antt =====
-- That Go's order of visiting the map of used ports does not matter to `genRelayPortForEgress`.
use k8s_ext_connector.Prelude.{
  Text, ℕ, zero, suc, ◌+◌, Option, none, some, [], ◌∷◌, ◌==◌, eq_iff, ◌≡◌, ◌≢◌, inl, inr, refl, sym,
  ap, ◌∙◌, arith, Option-cases, if◌then◌else◌,
}
use k8s_ext_connector.Prelude.Int.{pos}
use k8s_ext_connector.Prelude.Dict.{Dict, lookup, insert, lookup-insert}
use k8s_ext_connector.Exec.{Result, ok, err}
use k8s_ext_connector.Util.Decimal.{itoa}
use k8s_ext_connector.Operator.Ports.{
  min_port, port_count, flow, find_port, first_free, enter, assign, gen_relay_port_for_egress,
}
use k8s_ext_connector.Operator.Ports.Assign.{Distinct, find_port-lookup, assign_old}

-- Two lists of entries are the same Go map.
abbrev pub SameMap : Dict Text → Dict Text → Type 0
SameMap t u = (key : Text) → lookup key t ≡ lookup key u

-- No two ports carry the same flow.
abbrev pub OnePortEach : Dict Text → Type 0
OnePortEach t = (p q v : Text) → lookup p t ≡ some v → lookup q t ≡ some v → p ≡ q

-- A flow that some port carries is found.
pub find_port_found :
    (key : Text) (t : Dict Text) (p : Text) → lookup p t ≡ some key → find_port key t ≢ none
unfolding find_port lookup
find_port_found key [] p h = λ e. cc h
find_port_found key ((k, v) ∷ t) p h =
    let rest = find_port_found key t p in ground (arith, eq_iff v key, rest)

-- In a Go map whose ports carry a flow each, the port that is found is the one that carries the flow.
pub find_port-some :
    (key : Text) (t : Dict Text) (p : Text)
    → Distinct t
    → ((q : Text) → lookup q t ≡ some key → q ≡ p)
    → lookup p t ≡ some key
    → find_port key t ≡ some p
find_port-some key t p d one h = elim (Option-cases (find_port key t)) [
  | inl e ↦ absurd (find_port_found key t p h e)
  | inr (q, e) ↦ e ∙ ap some (one q (find_port-lookup key t q d e))
]

find_port-none :
    (key : Text) (t u : Dict Text)
    → Distinct u
    → SameMap t u
    → find_port key t ≡ none
    → find_port key u ≡ none
find_port-none key t u d same h = elim (Option-cases (find_port key u)) [
  | inl e ↦ e
  | inr (q, e) ↦ absurd (find_port_found key t q (same q ∙ find_port-lookup key u q d e) h)
]

first_free-SameMap :
    (count port : ℕ) (t u : Dict Text)
    → SameMap t u
    → first_free count port t ≡ first_free count port u
unfolding first_free
first_free-SameMap zero port t u same = refl
first_free-SameMap (suc count) port t u same =
    rw (same (itoa (pos port)), first_free-SameMap count (port + 1) t u same) refl

SameMap-insert :
    (k v : Text) (t u : Dict Text) → SameMap t u → SameMap (insert k v t) (insert k v u)
SameMap-insert k v t u same key =
    lookup-insert k key v t
    ∙ ap (λ x. if k == key then some v else x) (same key)
    ∙ sym (lookup-insert k key v u)

OnePortEach-insert :
    (port key : Text) (t : Dict Text)
    → find_port key t ≡ none
    → OnePortEach t
    → OnePortEach (insert port key t)
OnePortEach-insert port key t new one p q v hp hq =
    let ep = sym (lookup-insert port p key t) ∙ hp in
    let eq = sym (lookup-insert port q key t) ∙ hq in
    let notp = λ (e : lookup p t ≡ some key). find_port_found key t p e new in
    let notq = λ (e : lookup q t ≡ some key). find_port_found key t q e new in
    ground (arith, one p q v, notp, notq, eq_iff port p, eq_iff port q)

-- Two calls end alike: with one error, or with one port and the same map, in which no two ports
-- carry the same flow.
abbrev pub EndAlike : Result (Text × Dict Text) → Result (Text × Dict Text) → Type 0
EndAlike (ok (p, t)) (ok (q, u)) = (p ≡ q) × SameMap t u × OnePortEach t
EndAlike (err e) (err f) = e ≡ f
EndAlike _ _ = ⊥

enter-EndAlike :
    (key : Text) (t u : Dict Text) (free : Option Text)
    → find_port key t ≡ none
    → SameMap t u
    → OnePortEach t
    → EndAlike (enter key t free) (enter key u free)
unfolding enter
enter-EndAlike key t u none new same one = refl
enter-EndAlike key t u (some p) new same one =
    (refl, SameMap-insert p key t u same, OnePortEach-insert p key t new one)

assign-enter :
    (key : Text) (t : Dict Text)
    → find_port key t ≡ none
    → assign key t ≡ enter key t (first_free port_count min_port t)
unfolding assign
assign-enter key t e = rw (assign, e) refl

assign-EndAlike :
    (key : Text) (t u : Dict Text)
    → Distinct t
    → Distinct u
    → SameMap t u
    → OnePortEach t
    → EndAlike (assign key t) (assign key u)
assign-EndAlike key t u dt du same one = elim (Option-cases (find_port key t)) [
  | inl new ↦
      rw
        (
          assign-enter key t new,
          assign-enter key u (find_port-none key t u du same new),
          sym (first_free-SameMap port_count min_port t u same),
        )
        (enter-EndAlike key t u (first_free port_count min_port t) new same one)
  | inr (p, found) ↦
      let here = find_port-lookup key t p dt found in
      let there =
        find_port-some key u p du (λ q e. one q p key (same q ∙ e) here) (sym (same p) ∙ here) in
      rw (assign_old key t found, assign_old key u there) (refl, same, one)
]

-- Go visits a map in any order. For two lists that are the same Go map, in which no two ports carry
-- the same flow, `genRelayPortForEgress` ends with the same error, or with the same port and the
-- same map, in which again no two ports carry the same flow.
pub gen_relay_port_for_egress-EndAlike :
    (source_ip target_port : Text) (t u : Dict Text)
    → Distinct t
    → Distinct u
    → SameMap t u
    → OnePortEach t
    → EndAlike
        (gen_relay_port_for_egress source_ip target_port t)
        (gen_relay_port_for_egress source_ip target_port u)
unfolding gen_relay_port_for_egress
gen_relay_port_for_egress-EndAlike source_ip target_port t u dt du same one =
    assign-EndAlike (flow source_ip target_port) t u dt du same one

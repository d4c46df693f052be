-- ===== src/Iptables/Match.antt =====
-- Which rule of a chain redirects a connection. How iptables reads the rules of pkg/util/iptables.go
-- is a parameter, with its documented behaviour.
use k8s_ext_connector.Prelude.{
  Text, true, ◌&&◌, Option, none, some, List, [], ◌∷◌, ◌++◌, ◌==◌, eq_iff, ◌≡◌, refl, ap, ◌∙◌,
  arith, if◌then◌else◌, Bool-cases, inl, inr, In, eq_refl,
}
use k8s_ext_connector.Iptables.{RuleSpec, dnat_rule_spec}
use k8s_ext_connector.Iptables.Chains.{rule_eq, contains, add_unique, add_each}

-- The first packet of a TCP connection.
pub record Packet : Type 0 where
  pub src : Text
  pub dst : Text
  pub dport : Text

-- Where a rule sends a packet, if it matches: a `DNAT` rule matches on all that it names, and sends
-- to the address that it gives.
pub record Redirects (redirect : RuleSpec → Packet → Option Text) : Type 0 where
  pub dnat :
      (dst_ip src_ip d_port destination_ip destination_port : Text) (p : Packet)
      → redirect (dnat_rule_spec dst_ip src_ip d_port destination_ip destination_port) p ≡ (
          if p.dst == dst_ip && (p.src == src_ip && p.dport == d_port)
          then some (destination_ip ++ b':' ∷ destination_port)
          else none)

abbrev or_else : Option Text → Option Text → Option Text
or_else (some a) b = some a
or_else none b = b

rule_eq_sound : (r s : RuleSpec) → rule_eq r s ≡ true → r ≡ s
unfolding rule_eq
rule_eq_sound [] [] h = refl
rule_eq_sound [] (b ∷ s) h = cc
rule_eq_sound (a ∷ r) [] h = cc
rule_eq_sound (a ∷ r) (b ∷ s) h = ground (arith, eq_iff a b, rule_eq_sound r s)

module _ (redirect : RuleSpec → Packet → Option Text) (p : Packet) where
  -- The rules are tried in their order.
  unfoldable pub first_match : List RuleSpec → Option Text
  first_match [] = none
  first_match (r ∷ rules) = or_else (redirect r p) (first_match rules)

  first_match-append :
      (xs ys : List RuleSpec) → first_match (xs ++ ys) ≡ or_else (first_match xs) (first_match ys)
  unfolding first_match
  first_match-append [] ys = refl
  first_match-append (x ∷ xs) ys = ground (arith, first_match-append xs ys)

  -- A rule that the list has changes nothing behind it.
  first_match-contains :
      (r : RuleSpec) (rules : List RuleSpec)
      → contains r rules ≡ true
      → first_match rules ≡ or_else (first_match rules) (redirect r p)
  unfolding first_match contains
  first_match-contains r [] h = cc
  first_match-contains r (s ∷ rules) h = elim (Bool-cases (rule_eq s r)) [
    | inl same ↦ ground (arith, ap (λ x. redirect x p) (rule_eq_sound s r same))
    | inr other ↦ ground (arith, other, first_match-contains r rules)
  ]

  first_match-add_unique :
      (rules : List RuleSpec) (r : RuleSpec)
      → first_match (add_unique rules r) ≡ or_else (first_match rules) (redirect r p)
  unfolding add_unique
  first_match-add_unique rules r = elim (Bool-cases (contains r rules)) [
    | inl there ↦ rw there (first_match-contains r rules there)
    | inr new ↦ rw new (first_match-append rules (r ∷ []) ∙ unfold first_match in ground arith)
  ]

  -- That each rule is appended once does not change where a packet goes.
  first_match-add_each :
      (rules more : List RuleSpec)
      → first_match (add_each rules more) ≡ or_else (first_match rules) (first_match more)
  unfolding add_each first_match
  first_match-add_each rules [] = ground arith
  first_match-add_each rules (r ∷ more) =
      ground (arith, first_match-add_each (add_unique rules r) more, first_match-add_unique rules r)

  -- A chain that was empty redirects as the list does.
  pub first_match-add_each_nil :
      (more : List RuleSpec) → first_match (add_each [] more) ≡ first_match more
  unfolding first_match
  first_match-add_each_nil more = first_match-add_each [] more

-- A rule for each element of a list, from the address `ip` to a port of the same address.
unfoldable pub dnat_each :
    {A : Type 0} → (A → Text) → (A → Text) → (A → Text) → Text → List A → List RuleSpec
dnat_each src dport relay ip [] = []
dnat_each src dport relay ip (a ∷ xs) =
    dnat_rule_spec ip (src a) (dport a) ip (relay a) ∷ dnat_each src dport relay ip xs

module _ {A : Type 0} (src dport relay : A → Text) (redirect : RuleSpec → Packet → Option Text)
    (L : Redirects redirect) (ip : Text) where
  -- A packet for an element is sent to the port of an element with the same source and port.
  pub first_match-dnat_each :
      (xs : List A) (a : A)
      → In a xs
      → (b : A) × In b xs
        × (src b ≡ src a)
        × (dport b ≡ dport a)
        × (first_match redirect
              (record { src = src a; dst = ip; dport = dport a })
              (dnat_each src dport relay ip xs)
            ≡ some (ip ++ b':' ∷ relay b))
  unfolding first_match dnat_each
  first_match-dnat_each [] a m = absurd m
  first_match-dnat_each (b ∷ xs) a m =
      let p : Packet = record { src = src a; dst = ip; dport = dport a } in
      let here = L.dnat ip (src b) (dport b) ip (relay b) p in
      elim (Bool-cases (src a == src b && dport a == dport b)) [
        | inl matches ↦ (
          b,
          inl refl,
          ground (arith, matches, eq_iff (src a) (src b)),
          ground (arith, matches, eq_iff (dport a) (dport b)),
          ground (arith, here, eq_refl ip, matches),
        )
        | inr passes ↦
            let later : In a xs = elim m [
              | inl e ↦
                  absurd (
                    ground
                      (arith, passes, ap src e, ap dport e, eq_refl (src b), eq_refl (dport b)))
              | inr n ↦ n
            ] in
            let (c, n, from, to, went) = first_match-dnat_each xs a later in
            (c, inr n, from, to, ground (arith, here, passes, went))
      ]

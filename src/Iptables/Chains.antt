-- ===== src/Iptables/Chains.antt =====
-- What `ReplaceChains` and `AddChains` leave in the chains, and what `CheckChainsExist` finds there.
use k8s_ext_connector.Prelude.{
  Text, Bool, true, false, ◌&&◌, ◌||◌, Option, none, some, List, [], ◌∷◌, ◌++◌, ◌==◌, eq_iff,
  eq_refl, ◌≡◌, refl, sym, ap, arith, if◌then◌else◌, ◌∙◌,
}
use k8s_ext_connector.Prelude.Dict.{lookup, has}
use k8s_ext_connector.Operator.Ports.Assign.{Distinct}
use k8s_ext_connector.Exec.{ok, >>=_ran}
use k8s_ext_connector.Iptables.{
  RuleSpec, ChainMap, IptInterface, clear_chains, append_rules, append_all, append_chains,
  replace_chains, add_chains,
}

unfoldable pub rule_eq : RuleSpec → RuleSpec → Bool
rule_eq [] [] = true
rule_eq [] (b ∷ t) = false
rule_eq (a ∷ s) [] = false
rule_eq (a ∷ s) (b ∷ t) = a == b && rule_eq s t

pub rule_eq_refl : (r : RuleSpec) → rule_eq r r ≡ true
unfolding rule_eq
rule_eq_refl [] = refl
rule_eq_refl (a ∷ r) = ground (arith, eq_refl a, rule_eq_refl r)

unfoldable pub contains : RuleSpec → List RuleSpec → Bool
contains r [] = false
contains r (s ∷ rules) = rule_eq s r || contains r rules

-- A rule is appended unless the chain has it.
unfoldable pub add_unique : List RuleSpec → RuleSpec → List RuleSpec
add_unique rules r = if contains r rules then rules else rules ++ r ∷ []

-- The rules of a chain after all of `more` were appended so.
unfoldable pub add_each : List RuleSpec → List RuleSpec → List RuleSpec
add_each rules [] = rules
add_each rules (r ∷ more) = add_each (add_unique rules r) more

-- What go-iptables documents, for the calls that succeed: `rules` is the content of a chain.
-- ClearChain empties its chain, AppendUnique appends to its chain what it lacks, Exists answers for
-- its chain, and no call touches another chain.
pub record IptLaws {W : Type 0} (ipt : IptInterface W) (table : Text) : Type 0 where
  pub rules : W → Text → List RuleSpec
  pub new_rules : (w : W) (c : Text) → rules (ipt.new w).1 c ≡ rules w c
  pub clear_rules :
      (chain c : Text) (w : W)
      → (ipt.clear_chain table chain w).0 ≡ ok tt
      → rules (ipt.clear_chain table chain w).1 c ≡ (if chain == c then [] else rules w c)
  pub append_rules :
      (chain c : Text) (r : RuleSpec) (w : W)
      → (ipt.append_unique table chain r w).0 ≡ ok tt
      → rules (ipt.append_unique table chain r w).1 c
        ≡ (if chain == c then add_unique (rules w c) r else rules w c)
  pub exists_rules :
      (chain c : Text) (r : RuleSpec) (w : W) → rules (ipt.exists table chain r w).1 c ≡ rules w c
  pub exists_answer :
      (chain : Text) (r : RuleSpec) (w : W) {b : Bool}
      → (ipt.exists table chain r w).0 ≡ ok b
      → b ≡ contains r (rules w chain)

module _ {W : Type 0} (ipt : IptInterface W) (table : Text) (L : IptLaws ipt table) where
  clear_chains-rules :
      (expected : ChainMap) (c : Text) (w : W)
      → (clear_chains ipt table expected w).0 ≡ ok tt
      → L.rules (clear_chains ipt table expected w).1 c
        ≡ (if has c expected then [] else L.rules w c)
  unfolding clear_chains lookup
  clear_chains-rules [] c w h = refl
  clear_chains-rules ((chain, rs) ∷ expected) c w h =
      let (_, ran, same) =
        >>=_ran (ipt.clear_chain table chain) (λ _. clear_chains ipt table expected) w h in
      let w₁ = (ipt.clear_chain table chain w).1 in
      let rest = clear_chains-rules expected c w₁ (ap (λ r. r.0) (sym same) ∙ h) in
      ground (arith, ap (λ r. L.rules r.1 c) same, rest, L.clear_rules chain c w ran)

  append_rules-rules :
      (chain : Text) (rs : List RuleSpec) (c : Text) (w : W)
      → (append_rules ipt table chain rs w).0 ≡ ok tt
      → L.rules (append_rules ipt table chain rs w).1 c
        ≡ (if chain == c then add_each (L.rules w c) rs else L.rules w c)
  unfolding append_rules add_each
  append_rules-rules chain [] c w h = ground arith
  append_rules-rules chain (r ∷ rs) c w h =
      let (_, ran, same) =
        >>=_ran (ipt.append_unique table chain r) (λ _. append_rules ipt table chain rs) w h in
      let w₁ = (ipt.append_unique table chain r w).1 in
      let rest = append_rules-rules chain rs c w₁ (ap (λ r. r.0) (sym same) ∙ h) in
      ground (arith, ap (λ r. L.rules r.1 c) same, rest, L.append_rules chain c r w ran)

  -- The rules of a chain after the loop over the map, from what they were.
  abbrev pub appended : Option (List RuleSpec) → List RuleSpec → List RuleSpec
  appended none rules = rules
  appended (some rs) rules = add_each rules rs

  append_all-rules :
      (expected : ChainMap) (c : Text) (w : W)
      → Distinct expected
      → (append_all ipt table expected w).0 ≡ ok tt
      → L.rules (append_all ipt table expected w).1 c ≡ appended (lookup c expected) (L.rules w c)
  unfolding append_all lookup
  append_all-rules [] c w d h = refl
  append_all-rules ((chain, rs) ∷ expected) c w d h =
      let (_, ran, same) =
        >>=_ran (append_rules ipt table chain rs) (λ _. append_all ipt table expected) w h in
      let w₁ = (append_rules ipt table chain rs w).1 in
      let rest = append_all-rules expected c w₁ d.1 (ap (λ r. r.0) (sym same) ∙ h) in
      ground (
        arith,
        ap (λ r. L.rules r.1 c) same,
        rest,
        append_rules-rules chain rs c w ran,
        eq_iff chain c,
        d.0,
      )

  -- After `ReplaceChains` has succeeded for a Go map of chains, each chain of the map holds the rules
  -- that the map gives it, in their order and each once, whatever it held before; every other chain
  -- holds what it held.
  pub replace_chains-rules :
      (expected : ChainMap) (c : Text) (w : W)
      → Distinct expected
      → (replace_chains ipt table expected w).0 ≡ ok tt
      → L.rules (replace_chains ipt table expected w).1 c
        ≡ elim (lookup c expected) [ none ↦ L.rules w c | some rs ↦ add_each [] rs ]
  unfolding replace_chains append_chains
  replace_chains-rules expected c w d h =
      let (_, made, same) = >>=_ran ipt.new (λ _. append_chains ipt table expected true) w h in
      let w₁ = (ipt.new w).1 in
      let ok₁ = ap (λ r. r.0) (sym same) ∙ h in
      let (_, cleared, same') =
        >>=_ran (clear_chains ipt table expected) (λ _. append_all ipt table expected) w₁ ok₁ in
      let w₂ = (clear_chains ipt table expected w₁).1 in
      let ok₂ = ap (λ r. r.0) (sym same') ∙ ok₁ in
      ground (
        arith,
        ap (λ r. L.rules r.1 c) same,
        ap (λ r. L.rules r.1 c) same',
        append_all-rules expected c w₂ d ok₂,
        clear_chains-rules expected c w₁ cleared,
        L.new_rules w c,
      )

  -- `AddChains` keeps what the chains held and appends what they lack.
  pub add_chains-rules :
      (expected : ChainMap) (c : Text) (w : W)
      → Distinct expected
      → (add_chains ipt table expected w).0 ≡ ok tt
      → L.rules (add_chains ipt table expected w).1 c ≡ appended (lookup c expected) (L.rules w c)
  unfolding add_chains append_chains
  add_chains-rules expected c w d h =
      let (_, made, same) = >>=_ran ipt.new (λ _. append_chains ipt table expected false) w h in
      let w₁ = (ipt.new w).1 in
      ground (
        arith,
        ap (λ r. L.rules r.1 c) same,
        append_all-rules expected c w₁ d (ap (λ r. r.0) (sym same) ∙ h),
        L.new_rules w c,
      )

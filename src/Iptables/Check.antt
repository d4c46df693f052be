-- ===== src/Iptables/Check.antt =====
-- What `CheckChainsExist` says of the chains, alone and after `ReplaceChains`.
use k8s_ext_connector.Prelude.{
  Text, Bool, true, ◌||◌, some, List, [], ◌∷◌, ◌++◌, eq_iff, eq_refl, ◌≡◌, refl, ◌∙◌, arith, All,
  inl, inr,
}
use k8s_ext_connector.Prelude.Dict.{lookup}
use k8s_ext_connector.Exec.{ok, Result-cases}
use k8s_ext_connector.Operator.Ports.Assign.{Distinct}
use k8s_ext_connector.Iptables.{
  RuleSpec, ChainMap, IptInterface, replace_chains, answer, check_rules, check_all,
  check_chains_exist,
}
use k8s_ext_connector.Iptables.Chains.{
  IptLaws, rule_eq_refl, contains, add_unique, add_each, replace_chains-rules,
}

contains-append :
    (r : RuleSpec) (xs ys : List RuleSpec)
    → contains r (xs ++ ys) ≡ (contains r xs || contains r ys)
unfolding contains
contains-append r [] ys = refl
contains-append r (x ∷ xs) ys = ground (arith, contains-append r xs ys)

contains-add_unique_self :
    (r : RuleSpec) (rules : List RuleSpec) → contains r (add_unique rules r) ≡ true
unfolding add_unique
contains-add_unique_self r rules =
    unfold contains in ground (arith, contains-append r rules (r ∷ []), rule_eq_refl r)

contains-add_unique :
    (r s : RuleSpec) (rules : List RuleSpec)
    → contains r rules ≡ true
    → contains r (add_unique rules s) ≡ true
unfolding add_unique
contains-add_unique r s rules h = ground (arith, contains-append r rules (s ∷ []))

contains-add_each :
    (r : RuleSpec) (rules more : List RuleSpec)
    → contains r rules ≡ true
    → contains r (add_each rules more) ≡ true
unfolding add_each
contains-add_each r rules [] h = h
contains-add_each r rules (s ∷ more) h =
    contains-add_each r (add_unique rules s) more (contains-add_unique r s rules h)

-- The chain holds each of the rules.
abbrev pub Holds : List RuleSpec → List RuleSpec → Type 0
Holds rules = All (λ r. contains r rules ≡ true)

Holds-add_each : (rules more : List RuleSpec) → Holds (add_each rules more) more
unfolding add_each
Holds-add_each rules [] = tt
Holds-add_each rules (r ∷ more) = (
  contains-add_each r (add_unique rules r) more (contains-add_unique_self r rules),
  Holds-add_each (add_unique rules r) more,
)

module _ {W : Type 0} (ipt : IptInterface W) (table : Text) (L : IptLaws ipt table) where
  -- Each chain of the map holds the rules that the map gives it.
  abbrev pub AllHold : ChainMap → W → Type 0
  AllHold [] w = Unit
  AllHold ((chain, rs) ∷ expected) w = Holds (L.rules w chain) rs × AllHold expected w

  check_rules-rules :
      (chain : Text) (rs : List RuleSpec) (w : W) (c : Text)
      → L.rules (check_rules ipt table chain rs w).1 c ≡ L.rules w c
  unfolding check_rules answer
  check_rules-rules chain [] w c = refl
  check_rules-rules chain (r ∷ rs) w c =
      let w₁ = (ipt.exists table chain r w).1 in
      ground (arith, L.exists_rules chain c r w, check_rules-rules chain rs w₁ c)

  check_rules_sound :
      (chain : Text) (rs : List RuleSpec) (w w' : W)
      → L.rules w chain ≡ L.rules w' chain
      → (check_rules ipt table chain rs w).0 ≡ true
      → Holds (L.rules w' chain) rs
  unfolding check_rules answer
  check_rules_sound chain [] w w' e h = tt
  check_rules_sound chain (r ∷ rs) w w' e h =
      let w₁ = (ipt.exists table chain r w).1 in
      elim (Result-cases (ipt.exists table chain r w).0) [
        | inr (x, bad) ↦ absurd (ground (arith, bad))
        | inl (b, said) ↦ (
          ground (arith, said, L.exists_answer chain r w said, e),
          check_rules_sound chain rs w₁ w' (L.exists_rules chain chain r w ∙ e)
              (ground (arith, said)),
        )
      ]

  -- The interface answers whenever it is asked.
  abbrev pub Answers : Type 0
  Answers =
      (chain : Text) (r : RuleSpec) (w : W) → (b : Bool) × ((ipt.exists table chain r w).0 ≡ ok b)

  check_rules_complete :
      (chain : Text) (rs : List RuleSpec) (w w' : W)
      → Answers
      → L.rules w chain ≡ L.rules w' chain
      → Holds (L.rules w' chain) rs
      → (check_rules ipt table chain rs w).0 ≡ true
  unfolding check_rules answer
  check_rules_complete chain [] w w' a e h = refl
  check_rules_complete chain (r ∷ rs) w w' a e h =
      let w₁ = (ipt.exists table chain r w).1 in
      let (b, said) = a chain r w in
      let rest = check_rules_complete chain rs w₁ w' a (L.exists_rules chain chain r w ∙ e) h.1 in
      ground (arith, said, L.exists_answer chain r w said, e, h.0, rest)

  check_all_complete :
      (expected : ChainMap) (w w' : W)
      → Answers
      → ((c : Text) → L.rules w c ≡ L.rules w' c)
      → AllHold expected w'
      → (check_all ipt table expected w).0 ≡ true
  unfolding check_all
  check_all_complete [] w w' a e h = refl
  check_all_complete ((chain, rs) ∷ expected) w w' a e h =
      let w₁ = (check_rules ipt table chain rs w).1 in
      ground (
        arith,
        check_rules_complete chain rs w w' a (e chain) h.0,
        check_all_complete expected w₁ w' a (λ c. check_rules-rules chain rs w c ∙ e c) h.1,
      )

  check_all_sound :
      (expected : ChainMap) (w w' : W)
      → ((c : Text) → L.rules w c ≡ L.rules w' c)
      → (check_all ipt table expected w).0 ≡ true
      → AllHold expected w'
  unfolding check_all
  check_all_sound [] w w' e h = tt
  check_all_sound ((chain, rs) ∷ expected) w w' e h =
      let w₁ = (check_rules ipt table chain rs w).1 in
      (
        check_rules_sound chain rs w w' (e chain) (ground arith),
        check_all_sound expected w₁ w' (λ c. check_rules-rules chain rs w c ∙ e c) (ground arith),
      )

  -- `CheckChainsExist` says yes only if each chain of the map holds all its rules.
  pub check_chains_exist_sound :
      (expected : ChainMap) (w : W)
      → (check_chains_exist ipt table expected w).0 ≡ true
      → AllHold expected w
  unfolding check_chains_exist
  check_chains_exist_sound expected w h =
      check_all_sound expected (ipt.new w).1 w (L.new_rules w) (ground arith)

  -- The chains of the map among those that hold what `ReplaceChains` writes.
  AllHold-lookup :
      (expected : ChainMap) (w : W)
      → Distinct expected
      → ((c : Text) (rs : List RuleSpec)
          → lookup c expected ≡ some rs
          → L.rules w c ≡ add_each [] rs)
      → AllHold expected w
  unfolding lookup
  AllHold-lookup [] w d h = tt
  AllHold-lookup ((chain, rs) ∷ expected) w d h = (
    rw (h chain rs (ground (arith, eq_refl chain))) (Holds-add_each [] rs),
    AllHold-lookup expected w d.1
        λ c rs' found. h c rs' (ground (arith, d.0, found, eq_iff chain c)),
  )

  -- Right after `ReplaceChains` has succeeded for a Go map of chains, `CheckChainsExist` says yes for
  -- it, as long as the interface can be made and answers.
  pub check_chains_exist-replace_chains :
      (expected : ChainMap) (w : W)
      → Distinct expected
      → Answers
      → ((v : W) → (ipt.new v).0 ≡ ok tt)
      → (replace_chains ipt table expected w).0 ≡ ok tt
      → (check_chains_exist ipt table expected (replace_chains ipt table expected w).1).0 ≡ true
  unfolding check_chains_exist
  check_chains_exist-replace_chains expected w d a new h =
      let w₁ = (replace_chains ipt table expected w).1 in
      let held =
        AllHold-lookup expected w₁ d
          λ c rs found. ground (arith, found, replace_chains-rules ipt table L expected c w d h) in
      ground (arith, new w₁, check_all_complete expected (ipt.new w₁).1 w₁ a (L.new_rules w₁) held)

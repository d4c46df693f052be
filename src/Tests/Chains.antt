-- ===== src/Tests/Chains.antt =====
-- An iptables in memory, and the chains' theorems in it.
use k8s_ext_connector.Prelude.{
  Text, codes, Bool, true, ◌≡◌, refl, none, some, List, [], ◌∷◌, ◌==◌, if◌then◌else◌,
}
use k8s_ext_connector.Prelude.Dict.{lookup}
use k8s_ext_connector.Exec.{Result, ok}
use k8s_ext_connector.Iptables.{
  RuleSpec, ChainMap, IptInterface, append_chains, clear_chains, append_all, append_rules,
  replace_chains, check_chains_exist,
}
use k8s_ext_connector.Iptables.Chains.{
  IptLaws, rule_eq, contains, add_unique, add_each, replace_chains-rules,
}
use k8s_ext_connector.Iptables.Check.{
  AllHold, check_chains_exist_sound, check_chains_exist-replace_chains,
}

-- One table: a chain's rules by its name.
abbrev pub Chains : Type 0
Chains = Text → List RuleSpec

abbrev pub in_memory : IptInterface Chains
in_memory = record {
  new = λ w. (ok tt, w);
  clear_chain = λ table chain w. (ok tt, λ c. if chain == c then [] else w c);
  append_unique = λ table chain r w. (ok tt, λ c. if chain == c then add_unique (w c) r else w c);
  exists = λ table chain r w. (ok (contains r (w chain)), w);
}

-- What `exists` says.
pub exists_lem : {a b : Bool} → ◌≡◌ {A = Result Bool} (ok a) (ok b) → b ≡ a
exists_lem h = cc

abbrev pub memory_laws : (table : Text) → IptLaws in_memory table
memory_laws table = record {
  rules = λ w c. w c;
  new_rules = λ w c. refl;
  clear_rules = λ chain c w h. refl;
  append_rules = λ chain c r w h. refl;
  exists_rules = λ chain c r w. refl;
  exists_answer = λ chain r w h. exists_lem h;
}

abbrev in_memory_laws : IptLaws in_memory (codes "nat")
in_memory_laws = memory_laws (codes "nat")

abbrev jump : ChainMap
jump = (codes "PREROUTING", ((codes "-j") ∷ (codes "pre0a000007") ∷ []) ∷ []) ∷ []

abbrev start : Chains
start = λ c. ((codes "-j") ∷ (codes "old") ∷ []) ∷ []

replace_chains-rules_example :
    (replace_chains in_memory (codes "nat") jump start).1 (codes "PREROUTING")
    ≡ elim (lookup (codes "PREROUTING") jump) [
      | none ↦ start (codes "PREROUTING")
      | some rs ↦ add_each [] rs
    ]
unfolding replace_chains append_chains clear_chains append_all append_rules lookup
replace_chains-rules_example =
    replace_chains-rules in_memory (codes "nat") in_memory_laws jump (codes "PREROUTING") start
      (refl, tt) refl

check_chains_exist_sound_example :
    AllHold in_memory
      (codes "nat")
      in_memory_laws
      (((codes "INPUT"), ((codes "-j") ∷ (codes "old") ∷ []) ∷ []) ∷ [])
      start
unfolding check_chains_exist contains rule_eq ◌==◌
check_chains_exist_sound_example =
    check_chains_exist_sound in_memory (codes "nat") in_memory_laws
      (((codes "INPUT"), ((codes "-j") ∷ (codes "old") ∷ []) ∷ []) ∷ []) start refl

check_chains_exist-replace_chains_example :
    (check_chains_exist in_memory
      (codes "nat")
      jump
      (replace_chains in_memory (codes "nat") jump start).1).0
    ≡ true
unfolding replace_chains append_chains clear_chains append_all append_rules lookup
check_chains_exist-replace_chains_example =
    check_chains_exist-replace_chains in_memory (codes "nat") in_memory_laws jump start (refl, tt)
      (λ chain r w. (contains r (w chain), refl)) (λ v. refl) refl

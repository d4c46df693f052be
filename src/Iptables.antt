-- ===== src/Iptables.antt =====
-- pkg/util/iptables.go: rules as argument lists, and chains of rules written through an interface.
pub mod Chains
pub mod Check
pub mod Match
use k8s_ext_connector.Prelude.{Text, codes, Bool, true, false, List, [], ◌∷◌, ◌++◌, if◌then◌else◌}
use k8s_ext_connector.Prelude.Dict.{Dict}
use k8s_ext_connector.Exec.{Result, ok, err, Exec, pure, ◌>>=◌, ◌>>◌}

abbrev pub RuleSpec : Type 0
RuleSpec = List Text

-- `map[string][][]string`
abbrev pub ChainMap : Type 0
ChainMap = Dict (List RuleSpec)

unfoldable pub table_nat : Text
table_nat = codes "nat"

unfoldable pub chain_prerouting : Text
chain_prerouting = codes "PREROUTING"

unfoldable pub chain_postrouting : Text
chain_postrouting = codes "POSTROUTING"

unfoldable pub dnat_rule_spec : Text → Text → Text → Text → Text → RuleSpec
dnat_rule_spec dst_ip src_ip d_port destination_ip destination_port =
    codes "-m"
    ∷ codes "tcp"
    ∷ codes "-p"
    ∷ codes "tcp"
    ∷ codes "--dst"
    ∷ dst_ip
    ∷ codes "--src"
    ∷ src_ip
    ∷ codes "--dport"
    ∷ d_port
    ∷ codes "-j"
    ∷ codes "DNAT"
    ∷ codes "--to-destination"
    ∷ (destination_ip ++ b':' ∷ destination_port)
    ∷ []

unfoldable pub snat_rule_spec : Text → Text → Text → RuleSpec
snat_rule_spec dst_ip src_ip d_port =
    codes "-m"
    ∷ codes "tcp"
    ∷ codes "-p"
    ∷ codes "tcp"
    ∷ codes "--dst"
    ∷ dst_ip
    ∷ codes "--dport"
    ∷ d_port
    ∷ codes "-j"
    ∷ codes "SNAT"
    ∷ codes "--to-source"
    ∷ src_ip
    ∷ []

-- `iptInterface`, which go-iptables implements, and `iptables.New()`.
pub record IptInterface (W : Type 0) : Type 0 where
  pub new : Exec W (Unit {0})
  pub clear_chain : Text → Text → Exec W (Unit {0})
  pub append_unique : Text → Text → RuleSpec → Exec W (Unit {0})
  pub exists : Text → Text → RuleSpec → Exec W Bool

module _ {W : Type 0} (ipt : IptInterface W) (table : Text) where
  unfoldable pub clear_chains : ChainMap → Exec W (Unit {0})
  clear_chains [] = pure tt
  clear_chains ((chain, rules) ∷ expected) = do ipt.clear_chain table chain; clear_chains expected

  unfoldable pub append_rules : Text → List RuleSpec → Exec W (Unit {0})
  append_rules chain [] = pure tt
  append_rules chain (rule ∷ rules) = do
    ipt.append_unique table chain rule
    append_rules chain rules

  unfoldable pub append_all : ChainMap → Exec W (Unit {0})
  append_all [] = pure tt
  append_all ((chain, rules) ∷ expected) = do append_rules chain rules; append_all expected

  unfoldable pub append_chains : ChainMap → Bool → Exec W (Unit {0})
  append_chains expected flash = do
    if flash then clear_chains expected else pure tt
    append_all expected

  unfoldable pub replace_chains : ChainMap → Exec W (Unit {0})
  replace_chains expected = do ipt.new; append_chains expected true

  unfoldable pub add_chains : ChainMap → Exec W (Unit {0})
  add_chains expected = do ipt.new; append_chains expected false

  -- The answer, and the world that the questions leave.
  pub answer : Result Bool × W → Bool × W
  answer (ok b, w) = (b, w)
  answer (err e, w) = (false, w)

  pub check_rules : Text → List RuleSpec → W → Bool × W
  unfolding answer
  check_rules chain [] w = (true, w)
  check_rules chain (rule ∷ rules) w =
      let (found, w₁) = answer (ipt.exists table chain rule w) in
      let rest = check_rules chain rules w₁ in if found then rest else (false, w₁)

  pub check_all : ChainMap → W → Bool × W
  unfolding check_rules
  check_all [] w = (true, w)
  check_all ((chain, rules) ∷ expected) w =
      let (found, w₁) = check_rules chain rules w in
      let rest = check_all expected w₁ in if found then rest else (false, w₁)

  unfoldable pub check_chains_exist : ChainMap → W → Bool × W
  unfolding check_all
  check_chains_exist expected w = elim (ipt.new w).0 [
    | ok _ ↦ check_all expected (ipt.new w).1
    | err e ↦ (false, (ipt.new w).1)
  ]

-- ===== src/Tests/Names.antt =====
-- Names of gateways at concrete addresses.
use k8s_ext_connector.Prelude.{Text, codes, ℕ, ◌++◌, ◌≡◌, refl, Option, none, some, List, arith}
use k8s_ext_connector.Exec.{ok}
use k8s_ext_connector.Util.Ip.{Bytes4, hex_bytes, get_hex_ip, get_rule_name, gateway_rule_prefix}
use k8s_ext_connector.Util.Ip.Names.{
  dotted, ipv4_address, get_rule_name-dotted, get_rule_name-injective,
}

abbrev no_ipv6 : Text → Option (List ℕ)
no_ipv6 _ = none

get_rule_name-dotted_example :
    get_rule_name no_ipv6 (dotted (192, 168, 122, 1))
    ≡ ok (gateway_rule_prefix ++ hex_bytes (192, 168, 122, 1))
get_rule_name-dotted_example = get_rule_name-dotted no_ipv6 (192, 168, 122, 1) (omega arith)

get_rule_name-injective_example :
    (b : Bytes4) × (ipv4_address no_ipv6 (codes "10.0.0.7") ≡ some b)
    × (ipv4_address no_ipv6 (codes "10.0.0.007") ≡ some b)
unfolding get_rule_name get_hex_ip
get_rule_name-injective_example =
    get_rule_name-injective no_ipv6 (codes "10.0.0.7") (codes "10.0.0.007") (codes "gwrule0a000007")
      (λ s ip h. cc) refl refl

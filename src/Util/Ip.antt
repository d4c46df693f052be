-- ===== src/Util/Ip.antt =====
-- pkg/util/util.go: the hexadecimal form of an IPv4 address and the gateway's name made of it.
-- `net.ParseIP` is Go's: dotted decimal is written out, and the reader of the texts in which a
-- colon comes first is the parameter `parse_ipv6`, which returns 16 bytes.
pub mod Names
use k8s_ext_connector.Prelude.{
  Text, codes, ℕ, zero, suc, ◌+◌, ◌-◌, ◌*◌, ◌/◌, ◌%◌, Bool, Option, none, some, List, [], ◌∷◌, ◌++◌,
  ltb, leb, nat_eq, if◌then◌else◌, ◌&&◌, ◌||◌, ◌≡◌, refl,
}
use k8s_ext_connector.Util.Decimal.{is_digit}
use k8s_ext_connector.Exec.{Result, ok, err, bad_ip, not_v4, bind_result}

-- `dtoi`: the number at the front, below `big`, and what follows it. `seen` says whether there was
-- a digit yet.
read_number : ℕ → Bool → Text → Option (ℕ × Text)
read_number n seen [] = if seen then some (n, []) else none
read_number n seen (c ∷ s) =
    let m = n * 10 + (c - b'0') in
    let rest = read_number m Bool.true s in
    let stop = if seen then some (n, c ∷ s) else none in
    if is_digit c then if leb 0xFFFFFF m then none else rest else stop

-- One octet.
read_octet : Text → Option (ℕ × Text)
unfolding read_number
read_octet s = elim (read_number 0 Bool.false s) [
  | none ↦ none
  | some (n, rest) ↦ if ltb 255 n then none else some (n, rest)
]

-- A point, and the octet behind it.
read_next : Text → Option (ℕ × Text)
unfolding read_octet
read_next [] = none
read_next (c ∷ s) = if nat_eq c b'.' then read_octet s else none

abbrev pub Bytes4 : Type 0
Bytes4 = ℕ × ℕ × ℕ × ℕ

abbrev at_end : Bytes4 → Text → Option Bytes4
at_end b [] = some b
at_end b (c ∷ s) = none

infixl 5 ◌>>=◌
abbrev ◌>>=◌ {ℓ κ} : {A : Type ℓ} {B : Type κ} → Option A → (A → Option B) → Option B
none >>= f = none
some a >>= f = f a

-- `parseIPv4`
unfoldable pub parse_ipv4 : Text → Option Bytes4
unfolding read_octet read_next
parse_ipv4 s = do
  (a, s₁) ← read_octet s
  (b, s₂) ← read_next s₁
  (c, s₃) ← read_next s₂
  (d, s₄) ← read_next s₃
  at_end (a, b, c, d) s₄

-- `net.IPv4(a, b, c, d)`: 16 bytes.
abbrev pub mapped : Bytes4 → List ℕ
mapped (a, b, c, d) = 0 ∷ 0 ∷ 0 ∷ 0 ∷ 0 ∷ 0 ∷ 0 ∷ 0 ∷ 0 ∷ 0 ∷ 255 ∷ 255 ∷ a ∷ b ∷ c ∷ d ∷ []

abbrev map_option : Option Bytes4 → Option (List ℕ)
map_option none = none
map_option (some b) = some (mapped b)

-- `net.ParseIP`: the first point or colon decides.
pub parse_ip : (Text → Option (List ℕ)) → Text → Text → Option (List ℕ)
unfolding parse_ipv4
parse_ip parse_ipv6 s [] = none
parse_ip parse_ipv6 s (c ∷ rest) =
    let other = parse_ip parse_ipv6 s rest in
    if nat_eq c b'.'
    then map_option (parse_ipv4 s)
    else if nat_eq c b':'
    then parse_ipv6 s
    else other

-- `IP.To4` of 16 bytes.
unfoldable pub to4 : List ℕ → Option Bytes4
to4 (z₀ ∷ z₁ ∷ z₂ ∷ z₃ ∷ z₄ ∷ z₅ ∷ z₆ ∷ z₇ ∷ z₈ ∷ z₉ ∷ x ∷ y ∷ a ∷ b ∷ c ∷ d ∷ []) =
    if nat_eq (z₀ + z₁ + z₂ + z₃ + z₄ + z₅ + z₆ + z₇ + z₈ + z₉) 0 && (nat_eq x 255 && nat_eq y 255)
    then some (a, b, c, d)
    else none
to4 _ = none

-- `%02x` of a byte.
abbrev hex_digit : ℕ → ℕ
hex_digit n = if ltb n 10 then b'0' + n else b'a' + (n - 10)

unfoldable pub hex_byte : ℕ → Text
hex_byte n = hex_digit (n / 16) ∷ hex_digit (n % 16) ∷ []

unfoldable pub hex_bytes : Bytes4 → Text
unfolding hex_byte
hex_bytes (a, b, c, d) = hex_byte a ++ (hex_byte b ++ (hex_byte c ++ hex_byte d))

hex_of_ip : Text → List ℕ → Result Text
unfolding to4 hex_bytes
hex_of_ip ip parsed = elim (to4 parsed) [ none ↦ err (not_v4 ip) | some b ↦ ok (hex_bytes b) ]

abbrev pub gateway_rule_prefix : Text
gateway_rule_prefix = codes "gwrule"

module _ (parse_ipv6 : Text → Option (List ℕ)) where
  unfoldable pub get_hex_ip : Text → Result Text
  unfolding parse_ip hex_of_ip
  get_hex_ip ip = elim (parse_ip parse_ipv6 ip ip) [
    | none ↦ err (bad_ip ip)
    | some parsed ↦ hex_of_ip ip parsed
  ]

  unfoldable pub get_rule_name : Text → Result Text
  get_rule_name ip = bind_result (get_hex_ip ip) (λ hex_ip. ok (gateway_rule_prefix ++ hex_ip))

abbrev no_ipv6 : Text → Option (List ℕ)
no_ipv6 _ = none

rule_name_of_example : get_rule_name no_ipv6 (codes "192.168.122.1") ≡ ok (codes "gwrulec0a87a01")
unfolding get_rule_name get_hex_ip
rule_name_of_example = refl

octet_too_large : get_hex_ip no_ipv6 (codes "192.168.256.1") ≡ err (bad_ip (codes "192.168.256.1"))
unfolding get_hex_ip
octet_too_large = refl

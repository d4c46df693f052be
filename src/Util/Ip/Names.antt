-- ===== src/Util/Ip/Names.antt =====
-- What the names of gateways say (`GetRuleName` and `GetHexIP` of pkg/util/util.go).
use k8s_ext_connector.Prelude.{
  Text, ℕ, ◌+◌, ◌-◌, ◌*◌, ◌≤◌, ◌<◌, true, false, Option, none, some, List, [], ◌∷◌, ◌++◌, ◌≡◌, ◌≢◌,
  refl, ap, ◌∙◌, arith, All, inl, inr, Option-cases, sym,
}
use mathlib.Core.List.{append_cancel_left}
use k8s_ext_connector.Prelude.Int.{pos}
use k8s_ext_connector.Exec.{ok}
use k8s_ext_connector.Util.Decimal.{
  is_digit, itoa, value, IsDigit, itoa-IsDigit, itoa-ne-nil, value-itoa,
}
use k8s_ext_connector.Util.Ip.{
  Bytes4, mapped, read_number, read_octet, read_next, parse_ipv4, parse_ip, to4, hex_byte,
  hex_bytes, get_hex_ip, get_rule_name, gateway_rule_prefix, map_option,
}

-- The text goes on with no digit.
abbrev Stops : Text → Type 0
Stops [] = Unit
Stops (c ∷ s) = is_digit c ≡ false

le-value : (n : ℕ) (s : Text) → n ≤ value n s
le-value n [] = omega arith
le-value n (c ∷ s) = omega (arith, le-value (n * 10 + (c - b'0')) s)

-- Digits below the bound are read to their end.
read_number-digits :
    (n : ℕ) (s rest : Text)
    → All IsDigit s
    → Stops rest
    → value n s < 0xFFFFFF
    → read_number n true (s ++ rest) ≡ some (value n s, rest)
unfolding read_number
read_number-digits n [] [] d st h = refl
read_number-digits n [] (c ∷ rest) d st h = ground arith
read_number-digits n (c ∷ s) rest d st h = ground (
  arith,
  d.0,
  le-value (n * 10 + (c - b'0')) s,
  read_number-digits (n * 10 + (c - b'0')) s rest d.1 st h,
)

read_number_front :
    (s rest : Text)
    → s ≢ []
    → All IsDigit s
    → Stops rest
    → value 0 s < 0xFFFFFF
    → read_number 0 false (s ++ rest) ≡ some (value 0 s, rest)
unfolding read_number
read_number_front [] rest ne d st h = absurd (ne refl)
read_number_front (c ∷ s) rest ne d st h = ground (
  arith,
  d.0,
  le-value (0 * 10 + (c - b'0')) s,
  read_number-digits (0 * 10 + (c - b'0')) s rest d.1 st h,
)

read_octet-itoa :
    (n : ℕ) (rest : Text)
    → n ≤ 255
    → Stops rest
    → read_octet (itoa (pos n) ++ rest) ≡ some (n, rest)
unfolding read_octet
read_octet-itoa n rest h st =
    ground (
      arith,
      value-itoa n,
      read_number_front (itoa (pos n)) rest (itoa-ne-nil n) (itoa-IsDigit n) st,
    )

read_next-itoa :
    (n : ℕ) (rest : Text)
    → n ≤ 255
    → Stops rest
    → read_next (b'.' ∷ (itoa (pos n) ++ rest)) ≡ some (n, rest)
unfolding read_next
read_next-itoa n rest h st = ground (arith, read_octet-itoa n rest h st)

-- The dotted decimal text of four bytes.
abbrev pub dotted : Bytes4 → Text
dotted (a, b, c, d) =
    itoa (pos a) ++ b'.' ∷ (itoa (pos b) ++ b'.' ∷ (itoa (pos c) ++ b'.' ∷ (itoa (pos d) ++ [])))

abbrev pub AreBytes : Bytes4 → Type 0
AreBytes (a, b, c, d) = (a ≤ 255) × (b ≤ 255) × (c ≤ 255) × (d ≤ 255)

parse_ipv4-dotted : (b : Bytes4) → AreBytes b → parse_ipv4 (dotted b) ≡ some b
unfolding parse_ipv4
parse_ipv4-dotted (a, b, c, d) (ha, hb, hc, hd) = rw (
  read_octet-itoa a _ ha refl,
  read_next-itoa b _ hb refl,
  read_next-itoa c _ hc refl,
  read_next-itoa d [] hd tt,
)

module _ (parse_ipv6 : Text → Option (List ℕ)) where
  parse_ip-point :
      (whole s rest : Text)
      → All IsDigit s
      → parse_ip parse_ipv6 whole (s ++ b'.' ∷ rest) ≡ map_option (parse_ipv4 whole)
  unfolding parse_ip
  parse_ip-point whole [] rest d = refl
  parse_ip-point whole (c ∷ s) rest d = ground (arith, d.0, parse_ip-point whole s rest d.1)

  -- The IPv4 address that a text stands for, if it does.
  abbrev pub ipv4_address : Text → Option Bytes4
  ipv4_address s = elim (parse_ip parse_ipv6 s s) [ none ↦ none | some ip ↦ to4 ip ]

  parse_ip-dotted :
      (b : Bytes4) → AreBytes b → parse_ip parse_ipv6 (dotted b) (dotted b) ≡ some (mapped b)
  parse_ip-dotted (a, b, c, d) h =
      parse_ip-point (dotted (a, b, c, d)) (itoa (pos a)) _ (itoa-IsDigit a)
      ∙ ap map_option (parse_ipv4-dotted (a, b, c, d) h)

  -- For every four bytes, the gateway of their dotted decimal address is named by the prefix and
  -- the eight hexadecimal digits of the bytes, whatever the reader of IPv6 texts does.
  pub get_rule_name-dotted :
      (b : Bytes4)
      → AreBytes b
      → get_rule_name parse_ipv6 (dotted b) ≡ ok (gateway_rule_prefix ++ hex_bytes b)
  unfolding get_rule_name get_hex_ip
  get_rule_name-dotted b h = rw (parse_ip-dotted b h, get_rule_name, get_hex_ip)

read_octet-le : (s : Text) {n : ℕ} {rest : Text} → read_octet s ≡ some (n, rest) → n ≤ 255
unfolding read_octet
read_octet-le s h = ground arith

read_next-le : (s : Text) {n : ℕ} {rest : Text} → read_next s ≡ some (n, rest) → n ≤ 255
unfolding read_next
read_next-le [] h = cc
read_next-le (c ∷ s) h = ground (arith, read_octet-le s)

parse_ipv4-AreBytes : (s : Text) (b : Bytes4) → parse_ipv4 s ≡ some b → AreBytes b
unfolding parse_ipv4
parse_ipv4-AreBytes s b h = grind (arith, read_octet-le, read_next-le)

to4-AreBytes : (ip : List ℕ) (b : Bytes4) → All (λ x. x ≤ 255) ip → to4 ip ≡ some b → AreBytes b
unfolding to4
to4-AreBytes ip b h e = ground arith

hex_byte-eq :
    (m n : ℕ) (s t : Text)
    → m ≤ 255
    → n ≤ 255
    → hex_byte m ++ s ≡ hex_byte n ++ t
    → (m ≡ n) × (s ≡ t)
unfolding hex_byte
hex_byte-eq m n s t hm hn e = ground arith

hex_bytes-injective : (b c : Bytes4) → AreBytes b → AreBytes c → hex_bytes b ≡ hex_bytes c → b ≡ c
unfolding hex_bytes
hex_bytes-injective (a, b, c, d) (a', b', c', d') h h' e =
    let p = hex_byte-eq a a' _ _ h.0 h'.0 e in
    let q = hex_byte-eq b b' _ _ h.1 h'.1 p.1 in
    let r = hex_byte-eq c c' _ _ h.2 h'.2 q.1 in
    let last = ap (λ s. s ++ []) r.1 in
    let u = hex_byte-eq d d' [] [] h.3 h'.3 last in cc (p.0, q.0, r.0, u.0)

module _ (parse_ipv6 : Text → Option (List ℕ)) where
  -- A reader of IPv6 texts returns bytes.
  abbrev pub ReadsBytes : Type 0
  ReadsBytes = (s : Text) (ip : List ℕ) → parse_ipv6 s ≡ some ip → All (λ x. x ≤ 255) ip

  parse_ip-bytes :
      (whole s : Text) (ip : List ℕ)
      → ReadsBytes
      → parse_ip parse_ipv6 whole s ≡ some ip
      → All (λ x. x ≤ 255) ip
  unfolding parse_ip
  parse_ip-bytes whole [] ip reads h = cc
  parse_ip-bytes whole (c ∷ s) ip reads h = elim (Option-cases (parse_ipv4 whole)) [
    | inl e ↦ ground (arith, parse_ip-bytes whole s ip reads, reads whole ip)
    | inr (b, e) ↦
        ground
          (arith, parse_ipv4-AreBytes whole b e, parse_ip-bytes whole s ip reads, reads whole ip)
  ]

  get_rule_name-address :
      (s name : Text)
      → ReadsBytes
      → get_rule_name parse_ipv6 s ≡ ok name
      → (b : Bytes4) × AreBytes b
        × (ipv4_address parse_ipv6 s ≡ some b)
        × (name ≡ gateway_rule_prefix ++ hex_bytes b)
  unfolding get_rule_name get_hex_ip
  get_rule_name-address s name reads h = elim (Option-cases (parse_ip parse_ipv6 s s)) [
    | inl e ↦ absurd (ground (arith, e))
    | inr (ip, e) ↦ elim (Option-cases (to4 ip)) [
      | inl e' ↦ absurd (ground (arith, e, e'))
      | inr (b, e') ↦ (
        b,
        to4-AreBytes ip b (parse_ip-bytes s s ip reads e) e',
        ground (arith, e),
        ground (arith, e, e'),
      )
    ]
  ]

  -- Two texts that get the same gateway name stand for the same IPv4 address, and both for one.
  pub get_rule_name-injective :
      (s t name : Text)
      → ReadsBytes
      → get_rule_name parse_ipv6 s ≡ ok name
      → get_rule_name parse_ipv6 t ≡ ok name
      → (b : Bytes4) × (ipv4_address parse_ipv6 s ≡ some b) × (ipv4_address parse_ipv6 t ≡ some b)
  get_rule_name-injective s t name reads hs ht =
      let (b, hb, eb, nb) = get_rule_name-address s name reads hs in
      let (c, hc, ec, nc) = get_rule_name-address t name reads ht in
      let same =
        hex_bytes-injective b c hb hc (append_cancel_left gateway_rule_prefix _ _ (sym nb ∙ nc)) in
      (b, eb, ec ∙ ap some (sym same))

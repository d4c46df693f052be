-- ===== src/Util/HostPort.antt =====
-- What pkg/util/ssh.go uses of Go's `net` and `strconv` to take addresses apart and put them
-- together. An error is kept with the text that was refused, not with Go's wording.
pub mod Laws
use k8s_ext_connector.Prelude.{
  Text, ℕ, zero, suc, ◌+◌, ◌-◌, ◌*◌, ◌^◌, Bool, true, false, Option, none, some, [], ◌∷◌, ◌++◌,
  ◌||◌, nat_eq, ltb, if◌then◌else◌,
}
use k8s_ext_connector.Prelude.Int.{ℤ, pos, negsuc}
use k8s_ext_connector.Exec.{Result, ok, err, bad_address, bad_number}
use k8s_ext_connector.Util.Decimal.{is_digit}

-- A byte in front of what was split off.
abbrev pub push : ℕ → Option (Text × Text) → Option (Text × Text)
push a none = none
push a (some (before, behind)) = some (a ∷ before, behind)

-- What stands before and behind the first byte `c`.
pub split_first : ℕ → Text → Option (Text × Text)
split_first c [] = none
split_first c (a ∷ s) =
    let rest = split_first c s in if nat_eq a c then some ([], s) else push a rest

-- The last byte `c` is in `s`, or it is `a`, or there is none.
abbrev pub last_or : ℕ → ℕ → Text → Option (Text × Text) → Option (Text × Text)
last_or c a s (some (before, behind)) = some (a ∷ before, behind)
last_or c a s none = if nat_eq a c then some ([], s) else none

-- What stands before and behind the last byte `c`.
pub split_last : ℕ → Text → Option (Text × Text)
split_last c [] = none
split_last c (a ∷ s) = last_or c a s (split_last c s)

unfoldable pub contains : ℕ → Text → Bool
contains c [] = false
contains c (a ∷ s) = nat_eq a c || contains c s

-- Behind the bracket: the last colon must come at once. `inner` is the host.
behind_bracket : Text → Text → Text → Result (Text × Text)
unfolding contains
behind_bracket whole inner [] = err (bad_address whole)
behind_bracket whole inner (c ∷ port) =
    if nat_eq c b':'
    then (if contains b':' port
          || (contains b'[' inner || (contains b'[' port || contains b']' port))
        then err (bad_address whole)
        else ok (inner, port))
    else err (bad_address whole)

-- No bracket in front: the host must have no colon, and there may be no bracket at all.
without_bracket : Text → Text × Text → Result (Text × Text)
unfolding contains
without_bracket whole (host, port) =
    if contains b':' host || (contains b'[' whole || contains b']' whole)
    then err (bad_address whole)
    else ok (host, port)

-- `s` is the text behind its first byte `c`.
split_host : ℕ → Text → Option (Text × Text) → Result (Text × Text)
unfolding split_first behind_bracket without_bracket
split_host c s none = err (bad_address (c ∷ s))
split_host c s (some parts) =
    if nat_eq c b'['
    then elim (split_first b']' s) [
      | none ↦ err (bad_address (c ∷ s))
      | some (inner, behind) ↦ behind_bracket (c ∷ s) inner behind
    ]
    else without_bracket (c ∷ s) parts

-- `net.SplitHostPort`
unfoldable pub split_host_port : Text → Result (Text × Text)
unfolding split_host split_last
split_host_port [] = err (bad_address [])
split_host_port (c ∷ s) = split_host c s (split_last b':' (c ∷ s))

-- `net.JoinHostPort`
unfoldable pub join_host_port : Text → Text → Text
unfolding contains
join_host_port host port =
    if contains b':' host then b'[' ∷ (host ++ b']' ∷ b':' ∷ port) else host ++ b':' ∷ port

-- The number that the digits spell behind `n`, if all are digits.
read_digits : ℕ → Text → Option ℕ
read_digits n [] = some n
read_digits n (c ∷ s) =
    let rest = read_digits (n * 10 + (c - b'0')) s in if is_digit c then rest else none

-- At least one digit.
read_unsigned : Text → Option ℕ
unfolding read_digits
read_unsigned [] = none
read_unsigned (c ∷ s) = read_digits 0 (c ∷ s)

-- An `int` has 64 bits.
in_range : Text → Option ℕ → Result ℤ
in_range s none = err (bad_number s)
in_range s (some n) = if ltb n (2 ^ 63) then ok (pos n) else err (bad_number s)

negated : Text → Option ℕ → Result ℤ
negated s none = err (bad_number s)
negated s (some zero) = ok (pos 0)
negated s (some (suc n)) = if ltb n (2 ^ 63) then ok (negsuc n) else err (bad_number s)

-- `strconv.Atoi`
unfoldable pub atoi : Text → Result ℤ
unfolding read_unsigned in_range negated
atoi [] = err (bad_number [])
atoi (c ∷ s) =
    if nat_eq c b'-'
    then negated (c ∷ s) (read_unsigned s)
    else if nat_eq c b'+'
    then in_range (c ∷ s) (read_unsigned s)
    else in_range (c ∷ s) (read_unsigned (c ∷ s))

-- ===== src/Util/Decimal.antt =====
-- `strconv.Itoa`, which the sources call for ports.
use k8s_ext_connector.Prelude.{
  Text, ℕ, zero, suc, ◌+◌, ◌-◌, ◌*◌, ◌/◌, ◌%◌, ◌≤◌, ◌<◌, ◌≡◌, ◌≢◌, refl, [], ◌∷◌, ◌++◌, arith, ltb,
  leb, ◌&&◌, Bool, if◌then◌else◌, All, All-append, Bool-cases, inl, inr, ltb→lt,
}
use k8s_ext_connector.Prelude.Int.{ℤ, pos, negsuc}

abbrev pub is_digit : ℕ → Bool
is_digit c = leb b'0' c && leb c b'9'

-- The digits of `n`, the most significant first. `suc n` rounds are enough.
digits : ℕ → ℕ → Text
digits zero n = []
digits (suc fuel) n =
    let rest = digits fuel (n / 10) ++ (b'0' + n % 10) ∷ [] in
    if ltb n 10 then (b'0' + n) ∷ [] else rest

unfoldable pub itoa : ℤ → Text
unfolding digits
itoa (pos n) = digits (suc n) n
itoa (negsuc n) = b'-' ∷ digits (suc (suc n)) (suc n)

-- The number that digits spell behind `n`.
abbrev pub value : ℕ → Text → ℕ
value n [] = n
value n (c ∷ s) = value (n * 10 + (c - b'0')) s

pub value-append : (n : ℕ) (s t : Text) → value n (s ++ t) ≡ value (value n s) t
value-append n [] t = refl
value-append n (c ∷ s) t = value-append (n * 10 + (c - b'0')) s t

value-digits : (fuel n : ℕ) → n < fuel → value 0 (digits fuel n) ≡ n
unfolding digits
value-digits zero n h = absurd (omega arith)
value-digits (suc fuel) n h = ground (
  arith,
  value-digits fuel (n / 10),
  value-append 0 (digits fuel (n / 10)) ((b'0' + n % 10) ∷ []),
)

-- Different port numbers print differently.
pub itoa-injective : (m n : ℕ) → itoa (pos m) ≡ itoa (pos n) → m ≡ n
unfolding itoa
itoa-injective m n h =
    cc (h, value-digits (suc m) m (omega arith), value-digits (suc n) n (omega arith))

abbrev pub IsDigit : ℕ → Type 0
IsDigit c = (b'0' ≤ c) × (c ≤ b'9')

digits-IsDigit : (fuel n : ℕ) → All IsDigit (digits fuel n)
unfolding digits
digits-IsDigit zero n = tt
digits-IsDigit (suc fuel) n = elim (Bool-cases (ltb n 10)) [
  | inl one ↦ rw one (omega (arith, ltb→lt n 10 one))
  | inr more ↦ rw more (All-append IsDigit _ _ (digits-IsDigit fuel (n / 10)) (omega arith))
]

-- A port number prints as decimal digits.
pub itoa-IsDigit : (n : ℕ) → All IsDigit (itoa (pos n))
unfolding itoa
itoa-IsDigit n = digits-IsDigit (suc n) n

append-ne-nil : (s : Text) (c : ℕ) → s ++ c ∷ [] ≢ []
append-ne-nil [] c = λ h. cc h
append-ne-nil (d ∷ s) c = λ h. cc h

-- No number prints as the empty text.
pub itoa-ne-nil : (n : ℕ) → itoa (pos n) ≢ []
unfolding itoa
itoa-ne-nil n = ground (arith, append-ne-nil (digits n (n / 10)) (b'0' + n % 10))

pub value-itoa : (n : ℕ) → value 0 (itoa (pos n)) ≡ n
unfolding itoa
value-itoa n = value-digits (suc n) n (omega arith)

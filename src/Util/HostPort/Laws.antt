-- ===== src/Util/HostPort/Laws.antt =====
-- That the addresses that are put together are taken apart again.
use k8s_ext_connector.Prelude.{
  Text, ℕ, ◌+◌, ◌-◌, ◌*◌, ◌^◌, ◌<◌, false, none, some, [], ◌∷◌, ◌++◌, ◌≡◌, ◌≢◌, refl, ap, ◌∙◌,
  nat_eq, nat_eq_iff, arith, inl, inr, Bool-cases, All, lt→ltb,
}
use k8s_ext_connector.Prelude.Int.{pos}
use k8s_ext_connector.Exec.{ok}
use k8s_ext_connector.Util.Decimal.{itoa, value, value-itoa, IsDigit, itoa-IsDigit, itoa-ne-nil}
use k8s_ext_connector.Util.HostPort.{
  split_first, split_last, contains, behind_bracket, without_bracket, split_host, split_host_port,
  join_host_port, read_digits, read_unsigned, in_range, atoi,
}

-- The text has no byte `c`.
abbrev pub Lacks : ℕ → Text → Type 0
Lacks c s = contains c s ≡ false

contains-append : (c : ℕ) (s t : Text) → Lacks c s → Lacks c t → Lacks c (s ++ t)
unfolding contains
contains-append c [] t hs ht = ht
contains-append c (a ∷ s) t hs ht = ground (arith, contains-append c s t)

split_first-append : (c : ℕ) (s t : Text) → Lacks c s → split_first c (s ++ c ∷ t) ≡ some (s, t)
unfolding split_first contains
split_first-append c [] t h = ground arith
split_first-append c (a ∷ s) t h = ground (arith, split_first-append c s t)

split_last-none : (c : ℕ) (t : Text) → Lacks c t → split_last c t ≡ none
unfolding split_last contains
split_last-none c [] h = refl
split_last-none c (a ∷ t) h = ground (arith, split_last-none c t)

split_last-append : (c : ℕ) (s t : Text) → Lacks c t → split_last c (s ++ c ∷ t) ≡ some (s, t)
unfolding split_last
split_last-append c [] t h = ground (arith, split_last-none c t h)
split_last-append c (a ∷ s) t h = rw (split_last-append c s t h) refl

split_last_two :
    (c : ℕ) (s : Text) (a : ℕ) (t : Text)
    → Lacks c t
    → split_last c (s ++ a ∷ c ∷ t) ≡ some (s ++ a ∷ [], t)
unfolding split_last
split_last_two c [] a t h = ground (arith, split_last-none c t h)
split_last_two c (b ∷ s) a t h = rw (split_last_two c s a t h) refl

module _ (host port : Text) (lh : Lacks b'[' host) (rh : Lacks b']' host) (lp : Lacks b'[' port)
    (rp : Lacks b']' port) (cp : Lacks b':' port) where
  bracketed : split_host_port (b'[' ∷ (host ++ b']' ∷ b':' ∷ port)) ≡ ok (host, port)
  unfolding split_host_port split_host behind_bracket
  bracketed =
      rw
        (
          split_last_two b':' (b'[' ∷ host) b']' port cp,
          split_first-append b']' host (b':' ∷ port) rh,
          cp,
          lh,
          lp,
          rp,
        )
        refl

contains-joined :
    (c : ℕ) (host port : Text)
    → nat_eq b':' c ≡ false
    → Lacks c host
    → Lacks c port
    → Lacks c (host ++ b':' ∷ port)
contains-joined c host port d lh lp =
    contains-append c host (b':' ∷ port) lh (unfold contains in ground (arith, d, lp))

plain :
    (host port : Text)
    → Lacks b'[' host
    → Lacks b']' host
    → Lacks b'[' port
    → Lacks b']' port
    → Lacks b':' port
    → Lacks b':' host
    → split_host_port (host ++ b':' ∷ port) ≡ ok (host, port)
unfolding split_host_port split_host without_bracket
plain [] port lh rh lp rp cp ch =
    rw
      (
        split_last-append b':' [] port cp,
        contains-joined b'[' [] port refl lh lp,
        contains-joined b']' [] port refl rh rp,
      )
      refl
plain (a ∷ host) port lh rh lp rp cp ch =
    let no_bracket : nat_eq a b'[' ≡ false = unfold contains in ground (arith, lh) in
    let left = contains-joined b'[' (a ∷ host) port refl lh lp in
    let right = contains-joined b']' (a ∷ host) port refl rh rp in
    rw (split_last-append b':' (a ∷ host) port cp, no_bracket) (ground (arith, left, right, ch))

-- A host and a port without brackets, and the port without colons, are read back from their join.
pub split_host_port-join_host_port :
    (host port : Text)
    → Lacks b'[' host
    → Lacks b']' host
    → Lacks b'[' port
    → Lacks b']' port
    → Lacks b':' port
    → split_host_port (join_host_port host port) ≡ ok (host, port)
unfolding split_host_port join_host_port
split_host_port-join_host_port host port lh rh lp rp cp = elim (Bool-cases (contains b':' host)) [
  | inl colon ↦ rw colon (bracketed host port lh rh lp rp cp)
  | inr none_there ↦ rw none_there (plain host port lh rh lp rp cp none_there)
]

-- A byte that is no digit is not among digits.
pub digits-Lacks : (c : ℕ) (s : Text) → ¬ IsDigit c → All IsDigit s → Lacks c s
unfolding contains
digits-Lacks c [] n d = refl
digits-Lacks c (a ∷ s) n d = elim (Bool-cases (nat_eq a c)) [
  | inl same ↦ absurd (n (rw (← (nat_eq_iff a c).0 same) d.0))
  | inr other ↦ rw other (digits-Lacks c s n d.1)
]

read_digits-value : (n : ℕ) (s : Text) → All IsDigit s → read_digits n s ≡ some (value n s)
unfolding read_digits
read_digits-value n [] d = refl
read_digits-value n (c ∷ s) d = ground (arith, d.0, read_digits-value (n * 10 + (c - b'0')) s d.1)

atoi_digits :
    (s : Text) → s ≢ [] → All IsDigit s → value 0 s < 2 ^ 63 → atoi s ≡ ok (pos (value 0 s))
unfolding atoi read_unsigned in_range
atoi_digits [] ne d h = absurd (ne refl)
atoi_digits (c ∷ s) ne d h =
    ground (arith, d.0, lt→ltb (value 0 (c ∷ s)) (2 ^ 63) h, read_digits-value 0 (c ∷ s) d)

-- A number of an `int` is read back from its decimal form.
pub atoi-itoa : (n : ℕ) → n < 2 ^ 63 → atoi (itoa (pos n)) ≡ ok (pos n)
atoi-itoa n h =
    let small : value 0 (itoa (pos n)) < 2 ^ 63 = rw (value-itoa n) h in
    atoi_digits (itoa (pos n)) (itoa-ne-nil n) (itoa-IsDigit n) small
    ∙ ap (λ m. ok (pos m)) (value-itoa n)

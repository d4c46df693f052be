-- ===== src/Exec.antt =====
-- Go calls that may return an error, and calls that also act on the outside world.
use k8s_ext_connector.Prelude.{
  Text, ℕ, Bool, true, false, ◌≡◌, ◌⊎◌, inl, inr, refl, sym, ap, subst, ◌∙◌, if◌then◌else◌,
}

-- The errors that the sources make, and those that reach them from outside. `index_out_of_range` is
-- Go's panic, which no caller handles.
pub data Error : Type 0 where
  not_found : Error
  api : ℕ → Error
  bad_ip : Text → Error
  not_v4 : Text → Error
  relay_port_exhausted : Error
  no_pod_ip : Error
  forwarder_in_cache : Error
  bad_address : Text → Error
  bad_number : Text → Error
  index_out_of_range : Error

-- `errors.IsNotFound`
abbrev pub is_not_found : Error → Bool
is_not_found not_found = true
is_not_found _ = false

pub data Result {ℓ} (A : Type ℓ) : Type ℓ where
  ok : A → Result A
  err : Error → Result A

pub ok-injective {ℓ} : {A : Type ℓ} {a b : A} → ◌≡◌ {A = Result A} (ok a) (ok b) → a ≡ b
ok-injective e = cc

pub Result-cases {ℓ} :
    {A : Type ℓ} (r : Result A) → ((a : A) × (r ≡ ok a)) ⊎ ((e : Error) × (r ≡ err e))
Result-cases (ok a) = inl (a, refl)
Result-cases (err e) = inr (e, refl)

abbrev pub bind_result {ℓ κ} : {A : Type ℓ} {B : Type κ} → Result A → (A → Result B) → Result B
bind_result (ok a) f = f a
bind_result (err e) f = err e

pub bind_result-eq-ok {ℓ κ} :
    {A : Type ℓ} {B : Type κ} (r : Result A) (f : A → Result B) {b : B}
    → bind_result r f ≡ ok b
    → (a : A) × (r ≡ ok a) × (f a ≡ ok b)
bind_result-eq-ok (ok a) f h = (a, refl, h)
bind_result-eq-ok (err e) f h = cc

-- What was written before an error stays written, so the world comes back beside it.
abbrev pub Exec : Type 0 → Type 0 → Type 0
Exec W A = W → Result A × W

abbrev pub pure : {W A : Type 0} → A → Exec W A
pure a w = (ok a, w)

abbrev pub fail : {W A : Type 0} → Error → Exec W A
fail e w = (err e, w)

abbrev pub lift : {W A : Type 0} → Result A → Exec W A
lift r w = (r, w)

abbrev pub continue : {W A B : Type 0} → Result A → (A → Exec W B) → W → Result B × W
continue (ok a) f w = f a w
continue (err e) f w = (err e, w)

infixl 5 ◌>>=◌ ◌>>◌
abbrev pub ◌>>=◌ : {W A B : Type 0} → Exec W A → (A → Exec W B) → Exec W B
◌>>=◌ m f w = continue (m w).0 f (m w).1

abbrev pub ◌>>◌ : {W A B : Type 0} → Exec W A → Exec W B → Exec W B
m >> k = m >>= λ _. k

-- The call's error as a value, for the callers that look at it.
abbrev pub attempt : {W A : Type 0} → Exec W A → Exec W (Result A)
attempt m w = (ok (m w).0, (m w).1)

-- A block that succeeds has run its first step, and is the rest from where that left the world.
continue_ran :
    {W A B : Type 0} (r : Result A) (f : A → Exec W B) (w : W) {b : B}
    → (continue r f w).0 ≡ ok b
    → (a : A) × (r ≡ ok a) × (continue r f w ≡ f a w)
continue_ran (ok a) f w h = (a, refl, refl)
continue_ran (err e) f w h = cc

pub >>=_ran :
    {W A B : Type 0} (m : Exec W A) (f : A → Exec W B) (w : W) {b : B}
    → ((m >>= f) w).0 ≡ ok b
    → (a : A) × ((m w).0 ≡ ok a) × ((m >>= f) w ≡ f a (m w).1)
>>=_ran m f w h = continue_ran (m w).0 f (m w).1 h

pub >>=_step :
    {W A B : Type 0} (m : Exec W A) (f : A → Exec W B) (w : W) {b : B}
    → ((m >>= f) w).0 ≡ ok b
    → (a : A) × ((m w).0 ≡ ok a) × ((f a (m w).1).0 ≡ ok b)
>>=_step m f w h = let (a, e, same) = >>=_ran m f w h in (a, e, ap (λ r. r.0) (sym same) ∙ h)

-- A block that fails has failed in its first step, or in the rest from where that left the world.
continue_failed :
    {W A B : Type 0} (r : Result A) (f : A → Exec W B) (w : W) {e : Error}
    → (continue r f w).0 ≡ err e
    → ((r ≡ err e) × ((continue r f w).1 ≡ w)) ⊎ ((a : A) × (r ≡ ok a) × (continue r f w ≡ f a w))
continue_failed (ok a) f w h = inr (a, refl, refl)
continue_failed (err e) f w h = inl (cc h, refl)

pub >>=_failed :
    {W A B : Type 0} (m : Exec W A) (f : A → Exec W B) (w : W) {e : Error}
    → ((m >>= f) w).0 ≡ err e
    → (((m w).0 ≡ err e) × (((m >>= f) w).1 ≡ (m w).1))
      ⊎ ((a : A) × ((m w).0 ≡ ok a) × ((m >>= f) w ≡ f a (m w).1))
>>=_failed m f w h = continue_failed (m w).0 f (m w).1 h

-- A call that sends an object if it changed, and keeps it.
pub sent_or_kept :
    {W A B : Type 0} (changed : Bool) (send : Exec W B) (a : A) (w : W) {b : A}
    → ((if changed then send >> pure a else pure a) w).0 ≡ ok b
    → b ≡ a
sent_or_kept true send a w h = let (_, _, e) = >>=_step send (λ _. pure a) w h in cc e
sent_or_kept false send a w h = cc

-- A call that sends and succeeds leaves the world as the sending does.
pub sent_ran :
    {W A B : Type 0} {changed : Bool} (send : Exec W B) (a : A) (w : W) {b : A}
    → changed ≡ true
    → ((if changed then send >> pure a else pure a) w).0 ≡ ok b
    → (r : B) × ((send w).0 ≡ ok r)
      × (((if changed then send >> pure a else pure a) w).1 ≡ (send w).1)
sent_ran {changed = true} send a w sent h =
    let (r, e, same) = >>=_ran send (λ _. pure a) w h in (r, e, ap (λ x. x.1) same)
sent_ran {changed = false} send a w sent h = cc

-- A call whose sending is refused.
pub sent_refused :
    {W A B : Type 0} {changed : Bool} (send : Exec W B) (a : A) (w : W) {e : Error}
    → changed ≡ true
    → (send w).0 ≡ err e
    → ((if changed then send >> pure a else pure a) w).0 ≡ err e
sent_refused {changed = true} send a w sent h = rw h refl
sent_refused {changed = false} send a w sent h = cc

continue-pure :
    {W A B : Type 0} (r : Result B) (a : A) (w : W)
    → (continue {W = W} {A = B} {B = A} r (λ _. pure a) w).1 ≡ w
continue-pure (ok b) a w = refl
continue-pure (err e) a w = refl

-- What holds of the world after the sending, and of the world before, holds after a call that
-- sends an object if it changed.
pub sent_world {ℓ} :
    {W A B : Type 0} (P : W → Type ℓ) (changed : Bool) (send : Exec W B) (a : A) (w : W)
    → P (send w).1
    → P w
    → P ((if changed then send >> pure a else pure a) w).1
sent_world P true send a w h k = subst P (sym (continue-pure (send w).0 a (send w).1)) h
sent_world P false send a w h k = k

-- The call leaves what `f` reads of the world, whether it succeeds or not.
abbrev pub Leaves : {W A X : Type 0} → (W → X) → Exec W A → Type 0
Leaves f m = (w : _) → f (m w).1 ≡ f w

continue_leaves :
    {W A B X : Type 0} (f : W → X) (r : Result A) (k : A → Exec W B) (w : W)
    → ((a : A) → Leaves f (k a))
    → f (continue r k w).1 ≡ f w
continue_leaves f (ok a) k w h = h a w
continue_leaves f (err e) k w h = refl

pub >>=_leaves :
    {W A B X : Type 0} (f : W → X) (m : Exec W A) (k : A → Exec W B)
    → Leaves f m
    → ((a : A) → Leaves f (k a))
    → Leaves f (m >>= k)
>>=_leaves f m k h h' w = continue_leaves f (m w).0 k (m w).1 h' ∙ h w

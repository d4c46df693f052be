-- ===== src/Operator/Update/Found.antt =====
-- The resource that an update starts from: found, or created (`updateForwarderRules` and
-- `updateGatewayRules` of pkg/controller/externalservice/reconciler.go).
use k8s_ext_connector.Prelude.{
  none, some, ◌≡◌, ◌≢◌, ◌⊎◌, refl, subst, sym, ap, ◌∙◌, inl, inr, arith, Bool-cases, if◌then◌else◌,
}
use k8s_ext_connector.Exec.{
  Error, Result, ok, err, ok-injective, Exec, pure, fail, attempt, is_not_found, ◌>>=◌,
}
use k8s_ext_connector.Api.{NamespacedName}
use k8s_ext_connector.Operator.Update.Store.{Kind, SameName, Store, IsCurrent}

-- The names are different.
abbrev pub Apart : NamespacedName → NamespacedName → Type 0
Apart n m = (n.namespace ≢ m.namespace) ⊎ (n.name ≢ m.name)

module _ {C Spec O W : Type 0} (k : Kind C Spec O) {update update_status : O → Exec W O}
    (S : Store k update update_status) (get : NamespacedName → Exec W O)
    (create : O → Exec W O) where
  -- A read answers from a cache that may be behind: what it answers is the stored object if that
  -- still has its resource version, and "not found" says nothing of what is stored. A read changes
  -- nothing. A creation that succeeds found nothing stored under the name that was given, answers
  -- with what it stored there, and touches no other.
  pub record Reads : Type 0 where
    pub get_lem :
        (n : NamespacedName) (w : W) (o : O)
        → (get n w).0 ≡ ok o
        → IsCurrent k S o (get n w).1 × (k.namespace o ≡ n.namespace) × (k.name o ≡ n.name)
    pub get_keeps :
        (n m : NamespacedName) (w : W)
        → S.stored m.namespace m.name (get n w).1 ≡ S.stored m.namespace m.name w
    pub create_lem :
        (o o' : O) (w : W)
        → (create o w).0 ≡ ok o'
        → (S.stored (k.namespace o) (k.name o) w ≡ none)
          × (S.stored (k.namespace o) (k.name o) (create o w).1 ≡ some o')
          × SameName k o' o
    pub create_others :
        (o : O) (m : NamespacedName) (w : W)
        → (k.namespace o ≢ m.namespace) ⊎ (k.name o ≢ m.name)
        → S.stored m.namespace m.name (create o w).1 ≡ S.stored m.namespace m.name w

  -- What follows the read: `new` is created where there is none.
  abbrev pub or_created : O → Result O × W → Result O × W
  or_created new (ok o, w) = (ok o, w)
  or_created new (err e, w) = (if is_not_found e then create new else fail e) w

  abbrev pub get_or_create : NamespacedName → O → Exec W O
  get_or_create n new = do
    found ← attempt (get n)
    elim found [ ok o ↦ pure o | err e ↦ if is_not_found e then create new else fail e ]

  -- The object that the call answers with is the stored one if that has its version; if it is,
  -- it was stored before or there was none. No other was touched.
  abbrev pub Got : NamespacedName → W → O → W → Type 0
  Got n w o w₁ =
      IsCurrent k S o w₁
      × (k.namespace o ≡ n.namespace)
      × (k.name o ≡ n.name)
      × (S.stored n.namespace n.name w₁ ≡ some o
          → (S.stored n.namespace n.name w ≡ some o) ⊎ (S.stored n.namespace n.name w ≡ none))
      × ((m : NamespacedName)
          → Apart n m
          → S.stored m.namespace m.name w₁ ≡ S.stored m.namespace m.name w)

  get_or_create-or_created :
      (n : NamespacedName) (new : O) (w : W) → get_or_create n new w ≡ or_created new (get n w)
  get_or_create-or_created n new w = ground arith

  created-Got :
      (n : NamespacedName) (new : O) (w w₁ : W) (o : O) (e : Error)
      → Reads
      → (k.namespace new ≡ n.namespace)
      → (k.name new ≡ n.name)
      → ((m : NamespacedName) → S.stored m.namespace m.name w₁ ≡ S.stored m.namespace m.name w)
      → (or_created new (err e, w₁)).0 ≡ ok o
      → Got n w o (or_created new (err e, w₁)).1
  created-Got n new w w₁ o e R ns nm keeps h = elim (Bool-cases (is_not_found e)) [
    | inr failed ↦ absurd (let bad = (rw failed at h) in cc)
    | inl missing ↦
        let (free, at, names) = R.create_lem new o w₁ (rw missing at h) in
        rw missing (
          λ t there _.
              let here : S.stored (k.namespace new) (k.name new) (create new w₁).1 ≡ some t =
                sym (
                  ap (λ x. S.stored x (k.name o) (create new w₁).1) names.0
                  ∙ ap (λ x. S.stored (k.namespace new) x (create new w₁).1) names.1)
                ∙ there in
              cc (here, at),
          names.0 ∙ ns,
          names.1 ∙ nm,
          λ _. inr (sym (keeps n) ∙ (rw (ns, nm) at free)),
          λ m apart.
              R.create_others new m w₁ (elim apart [
                | inl d ↦ inl (λ x. d (sym ns ∙ x))
                | inr d ↦ inr (λ x. d (sym nm ∙ x))
              ])
              ∙ keeps m,
        )
  ]

  or_created-Got :
      (n : NamespacedName) (new : O) (w : W) (o : O) (r : Result O × W)
      → Reads
      → (k.namespace new ≡ n.namespace)
      → (k.name new ≡ n.name)
      → get n w ≡ r
      → (or_created new r).0 ≡ ok o
      → Got n w o (or_created new r).1
  or_created-Got n new w o (ok p, w₁) R ns nm e h =
      let same = ok-injective h in
      let (at, ns', nm') = R.get_lem n w p (ap (λ r. r.0) e) in
      let ran = ap (λ r. r.1) e in
      (
        subst (λ x. IsCurrent k S x w₁) same
            (subst (λ (r : Result O × W). IsCurrent k S p r.1) e at),
        ap k.namespace (sym same) ∙ ns',
        ap k.name (sym same) ∙ nm',
        λ here. inl (sym (R.get_keeps n n w) ∙ ap (S.stored n.namespace n.name) ran ∙ here),
        λ m apart. ap (S.stored m.namespace m.name) (sym ran) ∙ R.get_keeps n m w,
      )
  or_created-Got n new w o (err x, w₁) R ns nm e h =
      created-Got n new w w₁ o x R ns nm
        (λ m. ap (λ r. S.stored m.namespace m.name r.1) (sym e) ∙ R.get_keeps n m w) h

  pub get_or_create-Got :
      (n : NamespacedName) (new : O) (w : W) (o : O)
      → Reads
      → (k.namespace new ≡ n.namespace)
      → (k.name new ≡ n.name)
      → (get_or_create n new w).0 ≡ ok o
      → Got n w o (get_or_create n new w).1
  get_or_create-Got n new w o R ns nm h =
      let same = get_or_create-or_created n new w in
      rw same (or_created-Got n new w o (get n w) R ns nm refl (ap (λ r. r.0) (sym same) ∙ h))

-- ===== src/Tests/Table.antt =====
-- An API that keeps objects under their names.
use k8s_ext_connector.Prelude.{
  Text, Bool, true, Option, none, some, List, [], ◌∷◌, ◌==◌, eq_iff, ◌&&◌, ◌≡◌, ◌≢◌, ◌⊎◌, ◌↔◌, refl,
  sym, ap, ◌∙◌, arith, false, inl, inr, In, Bool-cases, if◌then◌else◌,
}
use k8s_ext_connector.Exec.{Error, Result, ok, err, ok-injective, Exec, api, not_found}
use k8s_ext_connector.Api.{NamespacedName}
use k8s_ext_connector.Operator.Update.Store.{Kind, Store, SameName, SameStatus}
use k8s_ext_connector.Operator.Update.Found.{Reads}

-- The spec of an object is set, and the rest stays.
pub record Setters {C Spec O : Type 0} (k : Kind C Spec O) : Type 0 where
  pub with_spec : Spec → O → O
  pub spec_lem : (s : Spec) (o : O) → k.spec (with_spec s o) ≡ s
  pub with_spec_name : (s : Spec) (o : O) → SameName k (with_spec s o) o
  pub with_spec_status : (s : Spec) (o : O) → SameStatus k (with_spec s o) o

module _ {C Spec O W : Type 0} (k : Kind C Spec O) (s : Setters k) (table : W → List O)
    (set : List O → W → W) where
  abbrev pub is_named : Text → Text → O → Bool
  is_named namespace name o = (k.namespace o == namespace) && (k.name o == name)

  abbrev pub find : Text → Text → List O → Option O
  find namespace name [] = none
  find namespace name (o ∷ os) =
      let rest = find namespace name os in if is_named namespace name o then some o else rest

  abbrev pub replace : O → List O → List O
  replace o [] = o ∷ []
  replace o (p ∷ ps) =
      let rest = replace o ps in if is_named (k.namespace o) (k.name o) p then o ∷ ps else p ∷ rest

  abbrev pub at_name : Text → Text → W → Option O
  at_name namespace name w = find namespace name (table w)

  abbrev pub put : O → W → W
  put o w = set (replace o (table w)) w

  abbrev pub answer : Option O → Result O
  answer none = err not_found
  answer (some o) = ok o

  abbrev pub get : NamespacedName → Exec W O
  get n w = (answer (at_name n.namespace n.name w), w)

  abbrev pub create_at : O → Option O → Exec W O
  create_at o none w = (ok o, put o w)
  create_at o (some _) w = (err (api 409), w)

  abbrev pub create : O → Exec W O
  create o w = create_at o (at_name (k.namespace o) (k.name o) w) w

  -- What is stored, if it has the version.
  abbrev pub matching : Text → Option O → Option O
  matching v none = none
  matching v (some o) = if k.version o == v then some o else none

  abbrev pub put_found : (O → O) → Option O → Exec W O
  put_found f none w = (err (api 409), w)
  put_found f (some old) w = (ok (f old), put (f old) w)

  abbrev pub update : O → Exec W O
  update o w =
      put_found (s.with_spec (k.spec o))
        (matching (k.version o) (at_name (k.namespace o) (k.name o) w)) w

  abbrev pub update_status : O → Exec W O
  update_status o w =
      put_found (λ old. s.with_spec (k.spec old) o)
        (matching (k.version o) (at_name (k.namespace o) (k.name o) w)) w

  is_named_iff :
      (namespace name : Text) (o : O)
      → (is_named namespace name o ≡ true) ↔ ((k.namespace o ≡ namespace) × (k.name o ≡ name))
  is_named_iff namespace name o = (
    λ h. ground (arith, h, eq_iff (k.namespace o) namespace, eq_iff (k.name o) name),
    λ (a, b). ground (arith, eq_iff (k.namespace o) namespace, eq_iff (k.name o) name),
  )

  pub named_names :
      (a b : Text) (os : List O) (o : O)
      → find a b os ≡ some o
      → (k.namespace o ≡ a) × (k.name o ≡ b)
  named_names a b [] o h = absurd cc
  named_names a b (p ∷ os) o h = elim (Bool-cases (is_named a b p)) [
    | inl here ↦
        let same : p ≡ o = cc (rw here at h) in
        let (ns, nm) = (is_named_iff a b p).0 here in
        (ap k.namespace (sym same) ∙ ns, ap k.name (sym same) ∙ nm)
    | inr later ↦ named_names a b os o (rw later at h)
  ]

  -- What is found is in the list.
  pub found-In : (a b : Text) (os : List O) (o : O) → find a b os ≡ some o → In o os
  found-In a b [] o h = absurd cc
  found-In a b (p ∷ os) o h = elim (Bool-cases (is_named a b p)) [
    | inl here ↦ inl (cc (rw here at h))
    | inr later ↦ inr (found-In a b os o (rw later at h))
  ]

  find-replace : (o : O) (os : List O) → find (k.namespace o) (k.name o) (replace o os) ≡ some o
  find-replace o [] = rw ((is_named_iff (k.namespace o) (k.name o) o).1 (refl, refl)) refl
  find-replace o (p ∷ os) =
      let own = (is_named_iff (k.namespace o) (k.name o) o).1 (refl, refl) in
      elim (Bool-cases (is_named (k.namespace o) (k.name o) p)) [
        | inl here ↦ rw here (rw own refl)
        | inr later ↦ rw later (rw later (find-replace o os))
      ]

  find-replace_other :
      (o : O) (a b : Text) (os : List O)
      → is_named a b o ≡ false
      → find a b (replace o os) ≡ find a b os
  find-replace_other o a b [] d = rw d refl
  find-replace_other o a b (p ∷ os) d = elim (Bool-cases (is_named (k.namespace o) (k.name o) p)) [
    | inl here ↦
        let (ns, nm) = (is_named_iff (k.namespace o) (k.name o) p).0 here in
        let other : is_named a b p ≡ false = rw (ns, nm) d in rw here (rw (d, other) refl)
    | inr later ↦ rw later (rw (find-replace_other o a b os d) refl)
  ]

  pub put_found_ran :
      (f : O → O) (found : Option O) (old o : O) (w : W)
      → found ≡ some old
      → (put_found f found w).0 ≡ ok o
      → ((put_found f found w).1 ≡ put o w) × (o ≡ f old)
  put_found_ran f none old o w e h = absurd cc
  put_found_ran f (some old') old o w e h =
      let same : f old' ≡ o = ok-injective h in
      let here : old' ≡ old = cc in (ap (λ x. put x w) same, sym same ∙ ap f here)

  pub put_found_refused :
      (f : O → O) (found : Option O) (e : Error) (w : W)
      → (put_found f found w).0 ≡ err e
      → (put_found f found w).1 ≡ w
  put_found_refused f none e w h = refl
  put_found_refused f (some o) e w h = absurd cc

  pub answer_found : (m : Option O) (o : O) → answer m ≡ ok o → m ≡ some o
  answer_found none o h = absurd cc
  answer_found (some p) o h = ap some (ok-injective h)

  pub matching_found :
      (v : Text) (m : Option O) (o : O) → matching v m ≡ some o → (m ≡ some o) × (k.version o ≡ v)
  matching_found v none o h = absurd cc
  matching_found v (some p) o h = elim (Bool-cases (k.version p == v)) [
    | inl same ↦
        let e : p ≡ o = cc (rw same at h) in
        (ap some e, ap k.version (sym e) ∙ (eq_iff (k.version p) v).0 same)
    | inr other ↦ absurd (let bad = (rw other at h) in cc)
  ]

  -- A write that succeeds found the version stored.
  pub put_found_matched :
      (f : O → O) (v : Text) (m : Option O) (o : O) (w : W)
      → (put_found f (matching v m) w).0 ≡ ok o
      → (old : O) × (m ≡ some old) × (k.version old ≡ v) × (matching v m ≡ some old)
  put_found_matched f v none o w h = absurd cc
  put_found_matched f v (some p) o w h = elim (Bool-cases (k.version p == v)) [
    | inl same ↦ (p, refl, (eq_iff (k.version p) v).0 same, rw same refl)
    | inr other ↦ absurd (let bad = (rw other at h) in cc)
  ]

  pub create_at_ran :
      (o o' : O) (m : Option O) (w : W)
      → (create_at o m w).0 ≡ ok o'
      → (m ≡ none) × ((create_at o m w).1 ≡ put o w) × (o ≡ o')
  create_at_ran o o' none w h = (refl, refl, ok-injective h)
  create_at_ran o o' (some _) w h = absurd cc

  module _ (set_lem : (t : List O) (w : W) → table (set t w) ≡ t) where
    pub at_name-put :
        (o : O) (namespace name : Text) (w : W)
        → (k.namespace o ≡ namespace)
        → (k.name o ≡ name)
        → at_name namespace name (put o w) ≡ some o
    at_name-put o namespace name w ns nm =
        rw set_lem (rw (sym ns, sym nm) (find-replace o (table w)))

    pub at_name-put_other :
        (o : O) (namespace name : Text) (w : W)
        → (k.namespace o ≢ namespace) ⊎ (k.name o ≢ name)
        → at_name namespace name (put o w) ≡ at_name namespace name w
    at_name-put_other o namespace name w d =
        let apart : is_named namespace name o ≡ false =
          ground (arith, d, eq_iff (k.namespace o) namespace, eq_iff (k.name o) name) in
        rw set_lem (find-replace_other o namespace name (table w) apart)

    pub put_found-others :
        (f : O → O) (found : Option O) (a b namespace name : Text) (w : W)
        → ((o : O) → found ≡ some o → (k.namespace (f o) ≡ a) × (k.name (f o) ≡ b))
        → (a ≢ namespace) ⊎ (b ≢ name)
        → at_name namespace name (put_found f found w).1 ≡ at_name namespace name w
    put_found-others f none a b namespace name w own d = refl
    put_found-others f (some o) a b namespace name w own d =
        let (ns, nm) = own o refl in
        at_name-put_other (f o) namespace name w
          (elim d [ inl x ↦ inl (λ e. x (sym ns ∙ e)) | inr x ↦ inr (λ e. x (sym nm ∙ e)) ])

    pub create_at-others :
        (o : O) (m : Option O) (n : NamespacedName) (w : W)
        → (k.namespace o ≢ n.namespace) ⊎ (k.name o ≢ n.name)
        → at_name n.namespace n.name (create_at o m w).1 ≡ at_name n.namespace n.name w
    create_at-others o none n w d = at_name-put_other o n.namespace n.name w d
    create_at-others o (some _) n w d = refl

    abbrev pub table_store : Store k update update_status
    table_store = record {
      stored = at_name;
      update_lem = λ o old o' w e h.
          let m = at_name (k.namespace o) (k.name o) w in
          let (p, found, _, matched) = put_found_matched _ (k.version o) m o' w h in
          let here : matching (k.version o) m ≡ some old = matched ∙ sym found ∙ e in
          let (ran, same) =
            put_found_ran (s.with_spec (k.spec o)) (matching (k.version o) m) old o' w here h in
          let (ns, nm) = named_names _ _ _ old e in
          let (ns', nm') = s.with_spec_name (k.spec o) old in
          let ns'' = ap k.namespace same ∙ ns' ∙ ns in
          let nm'' = ap k.name same ∙ nm' ∙ nm in
          let (c, r, y) = s.with_spec_status (k.spec o) old in
          (
            ap (at_name (k.namespace o) (k.name o)) ran ∙ at_name-put o' _ _ w ns'' nm'',
            (ns'', nm''),
            ap k.spec same ∙ s.spec_lem (k.spec o) old,
            (
              ap k.conditions same ∙ c,
              ap k.rule_generation same ∙ r,
              ap k.sync_generation same ∙ y,
            ),
          );
      status_lem = λ o old o' w e h.
          let m = at_name (k.namespace o) (k.name o) w in
          let (p, found, _, matched) = put_found_matched _ (k.version o) m o' w h in
          let here : matching (k.version o) m ≡ some old = matched ∙ sym found ∙ e in
          let (ran, same) =
            put_found_ran (λ x. s.with_spec (k.spec x) o) (matching (k.version o) m) old o' w here
              h in
          let (ns', nm') = s.with_spec_name (k.spec old) o in
          let ns'' = ap k.namespace same ∙ ns' in
          let nm'' = ap k.name same ∙ nm' in
          let (c, r, y) = s.with_spec_status (k.spec old) o in
          (
            ap (at_name (k.namespace o) (k.name o)) ran ∙ at_name-put o' _ _ w ns'' nm'',
            (ns'', nm''),
            ap k.spec same ∙ s.spec_lem (k.spec old) o,
            (
              ap k.conditions same ∙ c,
              ap k.rule_generation same ∙ r,
              ap k.sync_generation same ∙ y,
            ),
          );
      update_current = λ o o' w h.
          let (p, found, v, _) = put_found_matched _ (k.version o) _ o' w h in (p, found, v);
      status_current = λ o o' w h.
          let (p, found, v, _) = put_found_matched _ (k.version o) _ o' w h in (p, found, v);
      update_others = λ o a b w d.
          put_found-others _ (matching (k.version o) (at_name (k.namespace o) (k.name o) w))
            (k.namespace o) (k.name o) a b w
            (λ old e.
              let (ns, nm) = named_names _ _ _ old (matching_found _ _ old e).0 in
              let (ns', nm') = s.with_spec_name (k.spec o) old in (ns' ∙ ns, nm' ∙ nm))
            d;
      status_others = λ o a b w d.
          put_found-others _ (matching (k.version o) (at_name (k.namespace o) (k.name o) w))
            (k.namespace o) (k.name o) a b w (λ old e. s.with_spec_name (k.spec old) o) d;
    }

    pub table_reads : Reads k table_store get create
    table_reads = record {
      get_lem = λ n w o h.
          let found = answer_found (at_name n.namespace n.name w) o h in
          let (ns, nm) = named_names n.namespace n.name _ o found in
          (
            λ t at _.
                let here : at_name n.namespace n.name w ≡ some t =
                  ap (λ x. at_name x n.name w) (sym ns)
                  ∙ ap (λ x. at_name (k.namespace o) x w) (sym nm)
                  ∙ at in
                cc (here, found),
            ns,
            nm,
          );
      get_keeps = λ n m w. refl;
      create_lem = λ o o' w h.
          let (free, ran, same) = create_at_ran o o' _ w h in
          (
            free,
            ap (at_name (k.namespace o) (k.name o)) ran
                ∙ at_name-put o _ _ w refl refl
                ∙ ap some same,
            (ap k.namespace (sym same), ap k.name (sym same)),
          );
      create_others = λ o m w d. create_at-others o (at_name (k.namespace o) (k.name o) w) m w d;
    }

-- ===== src/Gateway/Protocol/Store.antt =====
-- The API server's optimistic concurrency on one Gateway resource.
use k8s_ext_connector.Prelude.{Text, Option, some, ◌≡◌, ◌⊎◌, inl, inr, sym, ◌∙◌, ap, subst}
use k8s_ext_connector.Exec.{Error, Result, ok, err, ok-injective}
use k8s_ext_connector.Api.{NamespacedName, Gateway}
use k8s_ext_connector.Api.Client.{Client}

abbrev pub version : {C : Type 0} → Gateway C → Text
version g = g.meta.resource_version

-- The answer is the object, or it was lost on the way.
abbrev pub IsAnswer : {C : Type 0} → Result (Gateway C) → Gateway C → Type 0
IsAnswer r g = (r ≡ ok g) ⊎ ((e : Error) × (r ≡ err e))

module _ {C W : Type 0} (stored : W → Option (Gateway C)) (used : W → Text → Type 0) where
  -- A write was applied: the stored object had the version that was sent, and it gets a version
  -- that was never used, unless the write left it as it was.
  pub record IsApplied (w w' : W) (sent before after : Gateway C) : Type 0 where
    pub found : stored w ≡ some before
    pub current : version before ≡ version sent
    pub stores : stored w' ≡ some after
    pub fresh : (after ≡ before) ⊎ (¬ used w (version after))

  -- What became of a write.
  abbrev pub Outcome :
      (Gateway C → Gateway C → Gateway C → Type 0) → Gateway C → W → Result (Gateway C) × W → Type 0
  Outcome Parts sent w r =
      ((stored r.1 ≡ stored w) × ((e : Error) × (r.0 ≡ err e)))
      ⊎ ((before : Gateway C) × (after : Gateway C) × IsApplied w r.1 sent before after
          × Parts sent before after
          × IsAnswer r.0 after)

-- `Update` writes the spec, and keeps the stored status.
abbrev pub WritesSpec : {C : Type 0} → Gateway C → Gateway C → Gateway C → Type 0
WritesSpec sent before after = (after.spec ≡ sent.spec) × (after.status ≡ before.status)

-- `UpdateStatus` writes the status, and keeps the stored spec.
abbrev pub WritesStatus : {C : Type 0} → Gateway C → Gateway C → Gateway C → Type 0
WritesStatus sent before after = (after.spec ≡ before.spec) × (after.status ≡ sent.status)

-- What Kubernetes documents of one object, `name`, with a status subresource: `Get` answers with
-- what is stored; a write is refused unless the object sent has the stored resource version; a
-- write that changes the object gives it a version of its own; a call may fail after it was
-- applied.
pub record VersionedStore {C W : Type 0} (cl : Client C W) (name : NamespacedName) : Type 1 where
  pub stored : W → Option (Gateway C)
  pub used : W → Text → Type 0
  pub stored_used : (w : W) (g : Gateway C) → stored w ≡ some g → used w (version g)
  pub get_lem : (w : W) (g : Gateway C) → (cl.get_gateway name w).0 ≡ ok g → stored w ≡ some g
  pub get_stored : (w : W) → stored (cl.get_gateway name w).1 ≡ stored w
  pub get_used : (w : W) (v : Text) → used w v → used (cl.get_gateway name w).1 v
  pub update_lem :
      (g : Gateway C) (w : W) → Outcome stored used WritesSpec g w (cl.update_gateway g w)
  pub update_used : (g : Gateway C) (w : W) (v : Text) → used w v → used (cl.update_gateway g w).1 v
  pub status_lem :
      (g : Gateway C) (w : W) → Outcome stored used WritesStatus g w (cl.update_gateway_status g w)
  pub status_used :
      (g : Gateway C) (w : W) (v : Text) → used w v → used (cl.update_gateway_status g w).1 v

module _ {C W : Type 0} (stored : W → Option (Gateway C)) (used : W → Text → Type 0) where
  -- The object that is stored is as said, if its version is this one.
  abbrev pub IfStill : W → Text → (Gateway C → Type 0) → Type 0
  IfStill w v P = (g : Gateway C) → stored w ≡ some g → version g ≡ v → P g

  pub some-injective : {a b : Gateway C} → ◌≡◌ {A = Option (Gateway C)} (some a) (some b) → a ≡ b
  some-injective e = cc

  -- A write with its answer left out: it did nothing, or was applied.
  abbrev pub Wrote : (Gateway C → Gateway C → Gateway C → Type 0) → Gateway C → W → W → Type 0
  Wrote Parts sent w w' =
      (stored w' ≡ stored w)
      ⊎ ((before : Gateway C) × (after : Gateway C) × IsApplied stored used w w' sent before after
          × Parts sent before after)

  pub Outcome-Wrote :
      (Parts : Gateway C → Gateway C → Gateway C → Type 0) (sent : Gateway C) (w : W)
      (r : Result (Gateway C) × W)
      → Outcome stored used Parts sent w r
      → Wrote Parts sent w r.1
  Outcome-Wrote Parts sent w r (inl (same, _)) = inl same
  Outcome-Wrote Parts sent w r (inr (before, after, a, parts, _)) = inr (before, after, a, parts)

  -- A write that is answered was applied, and the answer is what is stored.
  pub Outcome-ok :
      (Parts : Gateway C → Gateway C → Gateway C → Type 0) (sent : Gateway C) (w : W)
      (r : Result (Gateway C) × W) (g : Gateway C)
      → Outcome stored used Parts sent w r
      → r.0 ≡ ok g
      → (before : Gateway C) × (after : Gateway C) × IsApplied stored used w r.1 sent before after
        × Parts sent before after
        × (after ≡ g)
  Outcome-ok Parts sent w r g (inl (same, refused)) h = absurd (cc (refused.1, h))
  Outcome-ok Parts sent w r g (inr (before, after, a, parts, inl answered)) h =
      (before, after, a, parts, ok-injective (sym answered ∙ h))
  Outcome-ok Parts sent w r g (inr (before, after, a, parts, inr lost)) h = absurd (cc (lost.1, h))

  -- What is known of a version that was used stays known through every write.
  pub IfStill-Wrote :
      (Parts : Gateway C → Gateway C → Gateway C → Type 0) (sent : Gateway C) (w w' : W) (v : Text)
      (P : Gateway C → Type 0)
      → used w v
      → Wrote Parts sent w w'
      → IfStill w v P
      → IfStill w' v P
  IfStill-Wrote Parts sent w w' v P u (inl same) h g e ev = h g (sym same ∙ e) ev
  IfStill-Wrote Parts sent w w' v P u (inr (before, after, a, _)) h g e ev =
      let same = some-injective (sym a.stores ∙ e) in
      elim a.fresh [
        | inl kept ↦
            subst P (sym kept ∙ same) (h before a.found (ap version (sym kept ∙ same) ∙ ev))
        | inr new ↦ absurd (new (subst (used w) (sym ev ∙ ap version (sym same)) u))
      ]

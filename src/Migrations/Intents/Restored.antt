-- ===== src/Migrations/Intents/Restored.antt =====
-- What the two directions of migrations/versions/0002_close_schema_gaps.py do to execution intents.
use hamicloud.Models.Tenancy.{Uuid}
use mathlib.Core.Path.{ap₂}
use hamicloud.Prelude.{
  refl, [], ◌∷◌, [], ◌∙◌, &&_both, ap, inr, ◌⊎◌, eq_iff, none, ◌∷◌, any, false, inl, not, ◌==◌,
  arith, Bool-cases, if◌then◌else◌, ◌&&◌, true, ◌||◌, some, map, Option, ◌≡◌, Bool, ◌=s=◌, List,
  String,
}
use hamicloud.Migrations.Intents.{
  coalesced, same_target, all_differ, untyped_row, is_status, fits_keys, every, typed, fits_checks,
  upgrade_intents, OldIntent, TypedIntent, downgrade_intents,
}

-- No text is both names of a type.
one_type : (s : String) → s =s= "JOB_ATTEMPT" ≡ true → s =s= "SERVICE_RELEASE" ≡ false
one_type s h = let e : s ≡ "JOB_ATTEMPT" = (eq_iff s "JOB_ATTEMPT").0 h in rw e refl

module _ {Shared : Type 0} where
  abbrev pub is_known : OldIntent Shared → Bool
  is_known i =
      (i.resource_type =s= "JOB_ATTEMPT" || i.resource_type =s= "SERVICE_RELEASE")
      && is_status i.status

  -- The resource of an intent is there.
  abbrev pub is_there : List Uuid → List Uuid → OldIntent Shared → Bool
  is_there attempts releases i =
      if i.resource_type =s= "JOB_ATTEMPT"
      then any (λ k. k == i.resource_id) attempts
      else if i.resource_type =s= "SERVICE_RELEASE"
      then any (λ k. k == i.resource_id) releases
      else true

  abbrev pub same_resource : OldIntent Shared → OldIntent Shared → Bool
  same_resource i j =
      i.resource_type =s= j.resource_type
      && (i.resource_id == j.resource_id && i.target_generation == j.target_generation)

  -- Each row has a known type and status and a resource that is there, and no two have one resource
  -- and generation.
  abbrev pub is_sound : List Uuid → List Uuid → List (OldIntent Shared) → Bool
  is_sound attempts releases rows =
      every (is_there attempts releases) rows
      && (every is_known rows && all_differ same_resource rows)

  abbrev pub then_downgrade : Option (List (TypedIntent Shared)) → Option (List (OldIntent Shared))
  unfolding downgrade_intents
  then_downgrade none = none
  then_downgrade (some rows) = downgrade_intents rows

  typed_fits : (i : OldIntent Shared) → fits_checks (typed i) ≡ is_known i
  unfolding fits_checks typed
  typed_fits i = elim (Bool-cases (i.resource_type =s= "JOB_ATTEMPT")) [
    | inl job ↦ ground (arith, one_type i.resource_type job)
    | inr other ↦ ground arith
  ]

  typed_there :
      (attempts releases : List Uuid) (i : OldIntent Shared)
      → fits_keys attempts releases (typed i) ≡ is_there attempts releases i
  unfolding typed
  typed_there attempts releases i = elim (Bool-cases (i.resource_type =s= "JOB_ATTEMPT")) [
    | inl job ↦ ground (arith, one_type i.resource_type job)
    | inr other ↦ ground arith
  ]

  -- A row of a known type has its resource in one of the two columns.
  typed_columns :
      (i : OldIntent Shared)
      → is_known i ≡ true
      → ((i.resource_type =s= "JOB_ATTEMPT" ≡ true)
          × ((typed i).job_attempt_id ≡ some i.resource_id)
          × ((typed i).release_id ≡ none))
        ⊎ ((i.resource_type =s= "JOB_ATTEMPT" ≡ false)
            × ((typed i).job_attempt_id ≡ none)
            × ((typed i).release_id ≡ some i.resource_id))
  unfolding typed
  typed_columns i h = elim (Bool-cases (i.resource_type =s= "JOB_ATTEMPT")) [
    | inl job ↦ let other = one_type i.resource_type job in inl (job, ground arith, ground arith)
    | inr other ↦ inr (other, ground arith, ground arith)
  ]

  typed_same :
      (i : OldIntent Shared)
      → ((typed i).resource_type ≡ i.resource_type)
        × ((typed i).shared ≡ i.shared)
        × ((typed i).target_generation ≡ i.target_generation)
        × ((typed i).status ≡ i.status)
  unfolding typed
  typed_same i = ground arith

  same_typed :
      (i j : OldIntent Shared)
      → is_known i ≡ true
      → is_known j ≡ true
      → same_target (typed i) (typed j) ≡ same_resource i j
  same_typed i j h k =
      let (ti, _, gi, _) = typed_same i in
      let (tj, _, gj, _) = typed_same j in
      elim (Bool-cases (i.resource_type =s= j.resource_type)) [
        | inr differ ↦ rw (ti, tj, differ) refl
        | inl same ↦
            let e : i.resource_type ≡ j.resource_type = (eq_iff _ _).0 same in
            let one : (i.resource_type =s= "JOB_ATTEMPT") ≡ (j.resource_type =s= "JOB_ATTEMPT") =
              ap (λ t. t =s= "JOB_ATTEMPT") e in
            elim (typed_columns i h) [
              | inl (job, a, r) ↦ elim (typed_columns j k) [
                | inl (job', a', r') ↦ rw (ti, tj, gi, gj, a, r, a', r') refl
                | inr (other', a', r') ↦ absurd (ground arith)
              ]
              | inr (other, a, r) ↦ elim (typed_columns j k) [
                | inl (job', a', r') ↦ absurd (ground arith)
                | inr (other', a', r') ↦ rw (ti, tj, gi, gj, a, r, a', r') refl
              ]
            ]
      ]

  every-map :
      (p : TypedIntent Shared → Bool) (q : OldIntent Shared → Bool) (rows : List (OldIntent Shared))
      → ((i : OldIntent Shared) → p (typed i) ≡ q i)
      → every p (map typed rows) ≡ every q rows
  every-map p q [] h = refl
  every-map p q (i ∷ is) h = ap₂ (λ a b. a && b) (h i) (every-map p q is h)

  none_same :
      (i : OldIntent Shared) (rows : List (OldIntent Shared))
      → is_known i ≡ true
      → every is_known rows ≡ true
      → every (λ t. not (same_target (typed i) t)) (map typed rows)
        ≡ every (λ j. not (same_resource i j)) rows
  none_same i [] h k = refl
  none_same i (j ∷ js) h k =
      let (known, more) = &&_both (is_known j) (every is_known js) k in
      ap₂ (λ a b. not a && b) (same_typed i j h known) (none_same i js h more)

  targets_differ :
      (rows : List (OldIntent Shared))
      → every is_known rows ≡ true
      → all_differ same_target (map typed rows) ≡ all_differ same_resource rows
  targets_differ [] h = refl
  targets_differ (i ∷ is) h =
      let (known, more) = &&_both (is_known i) (every is_known is) h in
      ap₂ (λ a b. a && b) (none_same i is known more) (targets_differ is more)

  -- The constraints take the moved rows exactly if the rows were sound.
  moved_fit :
      (attempts releases : List Uuid) (rows : List (OldIntent Shared))
      → (every (fits_keys attempts releases) (map typed rows)
          && (every fits_checks (map typed rows) && all_differ same_target (map typed rows)))
        ≡ is_sound attempts releases rows
  moved_fit attempts releases rows =
      let there = every-map _ (is_there attempts releases) rows (typed_there attempts releases) in
      let known = every-map fits_checks is_known rows typed_fits in
      ap₂ (λ a b. a && b) there
        (elim (Bool-cases (every is_known rows)) [
          | inl all ↦ ap₂ (λ a b. a && b) known (targets_differ rows all)
          | inr some_other ↦ rw (known, some_other) refl
        ])

  restored_row :
      (i : OldIntent Shared) (rows : List (OldIntent Shared))
      → is_known i ≡ true
      → untyped_row (typed i) (coalesced (typed i).job_attempt_id (typed i).release_id) (some rows)
        ≡ some (i ∷ rows)
  restored_row i rows h =
      let (t, s, g, u) = typed_same i in
      elim (typed_columns i h) [
        | inl (_, a, r) ↦ rw (a, t, s, g, u) refl
        | inr (_, a, r) ↦ rw (a, r, t, s, g, u) refl
      ]

  downgrade-typed :
      (rows : List (OldIntent Shared))
      → every is_known rows ≡ true
      → downgrade_intents (map typed rows) ≡ some rows
  unfolding downgrade_intents
  downgrade-typed [] h = refl
  downgrade-typed (i ∷ is) h =
      let (known, more) = &&_both (is_known i) (every is_known is) h in
      ap (untyped_row (typed i) (coalesced (typed i).job_attempt_id (typed i).release_id))
        (downgrade-typed is more)
      ∙ restored_row i is known

  -- The upgrade of any table of intents, followed by the downgrade, gives back the same rows in their
  -- order, if each has a known type and status and its attempt or release is there, and no two have
  -- the same resource and generation; otherwise a constraint refuses the upgrade.
  pub intents-Restored :
      (attempts releases : List Uuid) (rows : List (OldIntent Shared))
      → then_downgrade (upgrade_intents attempts releases rows)
        ≡ (if is_sound attempts releases rows then some rows else none)
  unfolding upgrade_intents then_downgrade
  intents-Restored attempts releases rows =
      ap (λ b. then_downgrade (if b then some (map typed rows) else none))
        (moved_fit attempts releases rows)
      ∙ elim (Bool-cases (is_sound attempts releases rows)) [
        | inl sound ↦
            let known = (&&_both _ _ (&&_both _ _ sound).1).0 in
            rw sound (downgrade-typed rows known)
        | inr refused ↦ rw refused refl
      ]

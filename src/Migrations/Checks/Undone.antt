-- ===== src/Migrations/Checks/Undone.antt =====
-- What undoing the checks of migrations/versions does to the rows that are there.
use hamicloud.Prelude.{
  some, none, if◌then◌else◌, subst, inr, inl, eq_iff, Bool-cases, delete, arith, not, any, false,
  true, ◌||◌, ◌=s=◌, ◌≡◌, All, Bool, List, String, refl, [], ◌∷◌,
}
use hamicloud.Migrations.Checks.{
  in_values, downgrade_job_states, downgrade_release_statuses, downgrade_roles, old_job_states,
  new_job_states, old_release_statuses, new_release_statuses, old_roles, new_roles,
}

abbrev is_admin : String → Bool
is_admin r = r =s= "ADMIN"

-- A role that the new check accepts and that is not deleted passes the old check.
old_role :
    (r : String) → in_values new_roles r ≡ true → is_admin r ≡ false → in_values old_roles r ≡ true
old_role r h n = ground (arith, eq_iff "ADMIN" r, eq_iff r "ADMIN")

roles_pass :
    (roles : List String)
    → All (λ r. in_values new_roles r ≡ true) roles
    → any (λ s. not (in_values old_roles s)) (delete is_admin roles) ≡ false
roles_pass [] h = refl
roles_pass (r ∷ rs) (h, hs) = elim (Bool-cases (is_admin r)) [
  | inl gone ↦ ground (arith, roles_pass rs hs)
  | inr stays ↦ ground (arith, old_role r h stays, roles_pass rs hs)
]

-- A value that the new check adds.
one_more :
    (old : List String) (new : List String) (added : String) (column : List String)
    → ((s : String) → in_values new s ≡ (in_values old s || added =s= s))
    → in_values old added ≡ false
    → All (λ s. in_values new s ≡ true) column
    → any (λ s. not (in_values old s)) column ≡ any (λ s. added =s= s) column
one_more old new added [] splits absent h = refl
one_more old new added (s ∷ ss) splits absent (h, hs) = elim (Bool-cases (added =s= s)) [
  | inl same ↦
      let e : added ≡ s = (eq_iff added s).0 same in
      let out : in_values old s ≡ false = subst (λ t. in_values old t ≡ false) e absent in
      ground arith
  | inr other ↦ ground (arith, splits s, one_more old new added ss splits absent hs)
]

state_added :
    (s : String)
    → in_values new_job_states s ≡ (in_values old_job_states s || "RECOVERY_PENDING" =s= s)
state_added s = ground arith

status_added :
    (s : String)
    → in_values new_release_statuses s ≡ (in_values old_release_statuses s || "SUPERSEDED" =s= s)
status_added s = ground arith

both_undone :
    (jobs attempts : List String)
    → All (λ s. in_values new_job_states s ≡ true) jobs
    → All (λ s. in_values new_job_states s ≡ true) attempts
    → downgrade_job_states jobs attempts ≡ (
        if any (λ s. "RECOVERY_PENDING" =s= s) jobs || any (λ s. "RECOVERY_PENDING" =s= s) attempts
        then none
        else some (jobs, attempts))
unfolding downgrade_job_states
both_undone jobs attempts hj ha =
    let j = one_more old_job_states new_job_states "RECOVERY_PENDING" jobs state_added refl hj in
    let a =
      one_more old_job_states new_job_states "RECOVERY_PENDING" attempts state_added refl ha in
    elim (Bool-cases (any (λ s. "RECOVERY_PENDING" =s= s) jobs)) [
      | inl pending ↦ rw (j, pending) refl
      | inr free ↦ elim (Bool-cases (any (λ s. "RECOVERY_PENDING" =s= s) attempts)) [
        | inl pending ↦ rw (j, free, a, pending) refl
        | inr quiet ↦ rw (j, free, a, quiet) refl
      ]
    ]

-- On columns that pass the checks of the last revision: undoing 0008 deletes the administrators'
-- roles and keeps the others, and never fails; undoing 0003 fails exactly when some job or some
-- attempt is in RECOVERY_PENDING, and undoing 0006 when some release is SUPERSEDED, and both change
-- no row.
pub downgrades_checked :
    (jobs attempts statuses roles : List String)
    → All (λ s. in_values new_job_states s ≡ true) jobs
    → All (λ s. in_values new_job_states s ≡ true) attempts
    → All (λ s. in_values new_release_statuses s ≡ true) statuses
    → All (λ s. in_values new_roles s ≡ true) roles
    → (downgrade_job_states jobs attempts ≡ (
        if any (λ s. "RECOVERY_PENDING" =s= s) jobs || any (λ s. "RECOVERY_PENDING" =s= s) attempts
        then none
        else some (jobs, attempts)))
      × (downgrade_release_statuses statuses
          ≡ (if any (λ s. "SUPERSEDED" =s= s) statuses then none else some statuses))
      × (downgrade_roles roles ≡ some (delete (λ r. r =s= "ADMIN") roles))
unfolding downgrade_job_states downgrade_release_statuses downgrade_roles
downgrades_checked jobs attempts statuses roles hj ha hr hm = (
  both_undone jobs attempts hj ha,
  rw (
      one_more old_release_statuses new_release_statuses "SUPERSEDED" statuses status_added refl
        hr),
  rw (roles_pass roles hm),
)

-- ===== src/Migrations/DeadLetters/Recorded.antt =====
-- What the trigger and the backfill of migrations/versions/0007_add_dead_letter_records.py ensure.
use hamicloud.Models.Jobs.{JobAttempt, Job, DeadLetterRecord}
use hamicloud.Models.Tenancy.{Time, Uuid}
use hamicloud.Prelude.{
  none, some, subst, ◌==◌, inr, false, Option, true, count, inl, ◌≡◌, update, ℕ, Bool-cases, arith,
  any, ◌≤◌, List, refl, [], ◌∷◌,
}
use hamicloud.Migrations.DeadLetters.{
  of_job, overwritten, insert_or_update, insert_or_nothing, record_failure, dead_letter_of,
}

abbrev pub records_of : Uuid → List DeadLetterRecord → ℕ
records_of k records = count (of_job k) records

-- `uq_dead_letter_records_job_id`
abbrev pub OnePerJob : List DeadLetterRecord → Type 0
OnePerJob records = (k : Uuid) → records_of k records ≤ 1

-- What a change of the records keeps: at most one for a job, and none is lost.
abbrev pub Grows : List DeadLetterRecord → List DeadLetterRecord → Type 0
Grows records later = (k : Uuid) → records_of k records ≤ records_of k later

any_none :
    (k : Uuid) (records : List DeadLetterRecord)
    → any (of_job k) records ≡ false
    → records_of k records ≡ 0
any_none k [] h = refl
any_none k (r ∷ rs) h = ground (arith, any_none k rs)

any_some :
    (k : Uuid) (records : List DeadLetterRecord)
    → any (of_job k) records ≡ true
    → 1 ≤ records_of k records
any_some k [] h = cc
any_some k (r ∷ rs) h = ground (arith, any_some k rs)

count-overwritten :
    (k j : Uuid) (r : DeadLetterRecord) (records : List DeadLetterRecord)
    → records_of k (update (of_job j) (overwritten r) records) ≡ records_of k records
count-overwritten k j r [] = refl
count-overwritten k j r (x ∷ xs) = ground (arith, count-overwritten k j r xs)

add_one :
    (k : Uuid) (r : DeadLetterRecord) (records : List DeadLetterRecord)
    → any (of_job r.job_id) records ≡ false
    → records_of k records ≤ 1
    → records_of k (r ∷ records) ≤ 1
add_one k r records h one = elim (Bool-cases (r.job_id == k)) [
  | inl same ↦
      let e : r.job_id ≡ k = ground arith in
      ground (arith, any_none k records (subst (λ i. any (of_job i) records ≡ false) e h))
  | inr other ↦ ground arith
]

-- Both forms of the insertion.
module _ (r : DeadLetterRecord) (records : List DeadLetterRecord) where
  pub nothing_one : OnePerJob records → OnePerJob (insert_or_nothing r records)
  unfolding insert_or_nothing
  nothing_one one k = elim (Bool-cases (any (of_job r.job_id) records)) [
    | inl there ↦ rw there (one k)
    | inr absent ↦ rw absent (add_one k r records absent (one k))
  ]

  pub nothing-Grows : Grows records (insert_or_nothing r records)
  unfolding insert_or_nothing
  nothing-Grows k = ground arith

  pub nothing_records : 1 ≤ records_of r.job_id (insert_or_nothing r records)
  unfolding insert_or_nothing
  nothing_records = elim (Bool-cases (any (of_job r.job_id) records)) [
    | inl there ↦ rw there (any_some r.job_id records there)
    | inr absent ↦ ground arith
  ]

  update_one : OnePerJob records → OnePerJob (insert_or_update r records)
  unfolding insert_or_update
  update_one one k = elim (Bool-cases (any (of_job r.job_id) records)) [
    | inl there ↦ rw there (omega (arith, one k, count-overwritten k r.job_id r records))
    | inr absent ↦ rw absent (add_one k r records absent (one k))
  ]

  update-Grows : Grows records (insert_or_update r records)
  unfolding insert_or_update
  update-Grows k = ground (arith, count-overwritten k r.job_id r records)

  update_records : 1 ≤ records_of r.job_id (insert_or_update r records)
  unfolding insert_or_update
  update_records = elim (Bool-cases (any (of_job r.job_id) records)) [
    | inl there ↦ rw there (
        omega
          (arith, any_some r.job_id records there, count-overwritten r.job_id r.job_id r records))
    | inr absent ↦ ground arith
  ]

-- What one failure leaves.
pub record Recording (k : Uuid) (records later : List DeadLetterRecord) : Type 0 where
  pub one : OnePerJob later
  pub grows : Grows records later
  pub there : 1 ≤ records_of k later

pub record_failure_lem :
    (id : Uuid) (at : Time) (j : Job) (a : Option JobAttempt) (records : List DeadLetterRecord)
    → OnePerJob records
    → Recording j.id records (record_failure id at j a records)
unfolding record_failure
record_failure_lem id at j none records one =
    let r = dead_letter_of id at j none (some "Job reached FAILED state") in
    record {
      one = nothing_one r records one;
      grows = nothing-Grows r records;
      there = nothing_records r records;
    }
record_failure_lem id at j (some a) records one =
    let r = dead_letter_of id at j a.exit_code a.failure_reason in
    record {
      one = update_one r records one;
      grows = update-Grows r records;
      there = update_records r records;
    }

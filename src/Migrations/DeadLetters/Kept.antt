-- ===== src/Migrations/DeadLetters/Kept.antt =====
-- Every failed job has its record, whatever updates of jobs follow the upgrade.
use hamicloud.Models.Jobs.{Job, JobAttempt, DeadLetterRecord}
use hamicloud.Models.Tenancy.{Time, Uuid}
use hamicloud.Prelude.{
  sym, subst, if◌then◌else◌, inr, inl, update, not, ◌≤◌, select, ◌&&◌, arith, true, Bool,
  Bool-cases, All, ◌≡◌, List, [], ◌∷◌,
}
use hamicloud.Migrations.DeadLetters.{
  is_failed_state, dead_letter_of, fn_jobs_insert_dead_letter, fire_for_each, JobTables,
  update_jobs, backfill_failed, current_attempt, reported_exit, reported_reason, insert_or_nothing,
}
use hamicloud.Migrations.DeadLetters.Recorded.{
  records_of, OnePerJob, Grows, record_failure_lem, nothing_one, nothing-Grows, nothing_records,
}

abbrev pub HasRecord : List DeadLetterRecord → Job → Type 0
HasRecord records j = is_failed_state j.state ≡ true → 1 ≤ records_of j.id records

still_recorded :
    (records later : List DeadLetterRecord) (js : List Job)
    → Grows records later
    → All (HasRecord records) js
    → All (HasRecord later) js
still_recorded records later [] grows h = tt
still_recorded records later (j ∷ js) grows (h, hs) =
    (λ failed. omega (arith, h failed, grows j.id), still_recorded records later js grows hs)

module _ (fresh : Uuid → Uuid) (at : Time) (attempts : List JobAttempt) (change : Job → Job)
    (keeps_id : (j : Job) → (change j).id ≡ j.id) where
  fired_one :
      (old : Job) (records : List DeadLetterRecord)
      → OnePerJob records
      → OnePerJob (fn_jobs_insert_dead_letter fresh at attempts old (change old) records)
        × Grows records (fn_jobs_insert_dead_letter fresh at attempts old (change old) records)
        × (HasRecord records old
            → HasRecord
                (fn_jobs_insert_dead_letter fresh at attempts old (change old) records)
                (change old))
  unfolding fn_jobs_insert_dead_letter
  fired_one old records one =
      let new = change old in
      elim (Bool-cases (is_failed_state new.state && not (is_failed_state old.state))) [
        | inl fails ↦
            let made =
              record_failure_lem (fresh new.id) at new (current_attempt new attempts) records one in
            rw fails (made.one, made.grows, λ had failed. made.there)
        | inr other ↦ rw other (
          one,
          λ k. omega arith,
          λ had failed.
              let was : is_failed_state old.state ≡ true = ground arith in
              rw (keeps_id old) (had was),
        )
      ]

  fire_one :
      (olds : List Job) (records : List DeadLetterRecord)
      → OnePerJob records
      → OnePerJob (fire_for_each fresh at attempts change olds records)
        × Grows records (fire_for_each fresh at attempts change olds records)
  unfolding fire_for_each
  fire_one [] records one = (one, λ k. omega arith)
  fire_one (old ∷ olds) records one =
      let (one', grows, keeps) = fired_one old records one in
      let (last_one, last_grows) =
        fire_one olds (fn_jobs_insert_dead_letter fresh at attempts old (change old) records)
          one' in
      (last_one, λ k. omega (arith, grows k, last_grows k))

  -- The rows of the statement, and those that it leaves.
  updated :
      (chosen : Job → Bool) (js : List Job) (records : List DeadLetterRecord)
      → OnePerJob records
      → All (HasRecord records) js
      → All
          (HasRecord (fire_for_each fresh at attempts change (select chosen js) records))
          (update chosen change js)
  unfolding fire_for_each
  updated chosen [] records one h = tt
  updated chosen (j ∷ js) records one (h, hs) = elim (Bool-cases (chosen j)) [
    | inl hit ↦
        let next = fn_jobs_insert_dead_letter fresh at attempts j (change j) records in
        let (one', grows, keeps) = fired_one j records one in
        let (last_one, last_grows) = fire_one (select chosen js) next one' in
        let rows : select chosen (j ∷ js) ≡ j ∷ select chosen js = rw hit in
        let head : HasRecord (fire_for_each fresh at attempts change (select chosen js) next)
            (if chosen j then change j else j) =
          rw hit (λ failed. omega (arith, keeps h failed, last_grows (change j).id)) in
        subst
          (λ l.
            All (HasRecord (fire_for_each fresh at attempts change l records))
              (update chosen change (j ∷ js)))
          (sym rows) (head, updated chosen js next one' (still_recorded records next js grows hs))
    | inr miss ↦
        let (last_one, last_grows) = fire_one (select chosen js) records one in
        let rows : select chosen (j ∷ js) ≡ select chosen js = rw miss in
        let head : HasRecord (fire_for_each fresh at attempts change (select chosen js) records)
            (if chosen j then change j else j) =
          rw miss (λ failed. omega (arith, h failed, last_grows j.id)) in
        subst
          (λ l.
            All (HasRecord (fire_for_each fresh at attempts change l records))
              (update chosen change (j ∷ js)))
          (sym rows) (head, updated chosen js records one hs)
  ]

-- Each failed job has a record, and each job at most one.
pub record IsRecorded (t : JobTables) : Type 0 where
  pub recorded : All (HasRecord t.dead_letters) t.jobs
  pub one_per_job : OnePerJob t.dead_letters

-- A statement that updates rows of jobs.
pub record Change : Type 0 where
  pub fresh : Uuid → Uuid
  pub at : Time
  pub chosen : Job → Bool
  pub change : Job → Job

abbrev pub KeepsIds : Change → Type 0
KeepsIds c = (j : Job) → (c.change j).id ≡ j.id

abbrev pub apply_change : Change → JobTables → JobTables
apply_change c t = update_jobs c.fresh c.at c.chosen c.change t

abbrev pub apply_changes : List Change → JobTables → JobTables
apply_changes [] t = t
apply_changes (c ∷ cs) t = apply_changes cs (apply_change c t)

change-IsRecorded :
    (c : Change) (t : JobTables) → KeepsIds c → IsRecorded t → IsRecorded (apply_change c t)
unfolding update_jobs
change-IsRecorded c t keeps was = record {
  recorded =
      updated c.fresh c.at t.attempts c.change keeps c.chosen t.jobs t.dead_letters was.one_per_job
        was.recorded;
  one_per_job =
      (fire_one c.fresh c.at t.attempts c.change keeps (select c.chosen t.jobs) t.dead_letters
        was.one_per_job).0;
}

changes-IsRecorded :
    (cs : List Change) (t : JobTables)
    → All KeepsIds cs
    → IsRecorded t
    → IsRecorded (apply_changes cs t)
changes-IsRecorded [] t keep was = was
changes-IsRecorded (c ∷ cs) t (keeps, keep) was =
    changes-IsRecorded cs (apply_change c t) keep (change-IsRecorded c t keeps was)

module _ (fresh : Uuid → Uuid) (updated_at : Job → Time) (attempts : List JobAttempt) where
  abbrev backfilled : Job → DeadLetterRecord
  backfilled j =
      let a = current_attempt j attempts in
      dead_letter_of (fresh j.id) (updated_at j) j (reported_exit a) (reported_reason a)

  abbrev with_one : Job → List DeadLetterRecord → List DeadLetterRecord
  with_one j records =
      if is_failed_state j.state then insert_or_nothing (backfilled j) records else records

  one_backfilled :
      (j : Job) (records : List DeadLetterRecord)
      → OnePerJob records
      → OnePerJob (with_one j records)
        × Grows records (with_one j records)
        × HasRecord (with_one j records) j
  one_backfilled j records one = elim (Bool-cases (is_failed_state j.state)) [
    | inl failed ↦
        let r = backfilled j in
        rw failed
          (nothing_one r records one, nothing-Grows r records, λ _. nothing_records r records)
    | inr other ↦ rw other (one, λ k. omega arith, λ failed. cc)
  ]

  backfill_one :
      (js : List Job) (records : List DeadLetterRecord)
      → OnePerJob records
      → OnePerJob (backfill_failed fresh updated_at attempts js records)
        × Grows records (backfill_failed fresh updated_at attempts js records)
        × All (HasRecord (backfill_failed fresh updated_at attempts js records)) js
  unfolding backfill_failed
  backfill_one [] records one = (one, λ k. omega arith, tt)
  backfill_one (j ∷ js) records one =
      let (one', grows, has) = one_backfilled j records one in
      let (last_one, last_grows, last_all) = backfill_one js (with_one j records) one' in
      (
        last_one,
        λ k. omega (arith, grows k, last_grows k),
        (λ failed. omega (arith, has failed, last_grows j.id), last_all),
      )

  -- After the upgrade of a database without records, and any updates of jobs that keep their
  -- identifiers, every failed job has a record, and no job has two: the trigger misses no failure,
  -- whether or not the failed attempt's own row is there.
  pub failures-IsRecorded :
      (js : List Job) (cs : List Change)
      → All KeepsIds cs
      → IsRecorded (
          apply_changes cs (record {
            jobs = js;
            attempts = attempts;
            dead_letters = backfill_failed fresh updated_at attempts js [];
          }))
  failures-IsRecorded js cs keep =
      let (one, grows, all) = backfill_one js [] (λ k. omega arith) in
      changes-IsRecorded cs _ keep (record { recorded = all; one_per_job = one })

-- ===== src/Api/Webhooks/Answered.antt =====
-- That a new push is processed (apps/api/app/api/v1/webhooks.py).
use hamicloud.Models.Records.{OutboxEvent}
use hamicloud.Api.Webhooks.Rows.{acknowledge, delivery_row, answer, PushPayload, GitHub}
use mathlib.Core.List.{append-nil}
use hamicloud.Session.{◌>>◌, stage, after, commit, Result, ok, serve, alone, ◌>>=◌, Tx, M}
use hamicloud.Api.Apps.Releases.{max_release_number, next_release_number}
use hamicloud.Models.Tenancy.{Uuid}
use hamicloud.Models.Apps.{Release, WebhookDelivery, Repository, Application}
use hamicloud.Env.{Env}
use hamicloud.Prelude.{
  true, text_length, if◌then◌else◌, map, none, inr, inl, is_empty, ◌≤◌, Bool-cases, select, ◌∙◌,
  Bool, some, leb, sym, ◌+◌, ap, ◌&&◌, false, arith, ◌==◌, ◌≡◌, any, count, ◌++◌, All, List, Option,
  String, ℕ, refl, [], ◌∷◌,
}
use hamicloud.Prelude.Counted.{All-every, DistinctKeys}
use hamicloud.Api.Webhooks.Built.{
  news_added, news_for, news_are-Builds, matched-Linked, Builds, inserted,
}
use hamicloud.Api.Webhooks.Staged.{append_two, last_release, build_writes, event_for, release_for}
use hamicloud.Api.Webhooks.Pushes.{delivered, stage_builds, matched_apps, branch_of, process_push}
use hamicloud.Api.Webhooks.Handler.{handle_commit}
use hamicloud.Api.Apps.Numbers.{max_bounds}
use hamicloud.Models.Db.{
  Outcome, fits_columns, Db, Write, write_all, written, write, violated, insert_delivery,
  insert_release, insert_outbox, same_number, same_delivery,
}

abbrev pub app_id : Application → ℕ
app_id a = a.id

no_number :
    (app n : ℕ) (rs : List Release)
    → any (λ (r : Release). r.application_id == app && leb n r.release_number) rs ≡ false
    → any (same_number app n) rs ≡ false
no_number app n [] h = refl
no_number app n (r ∷ rs) h = ground (arith, no_number app n rs)

count-select-le :
    (p q : Application → Bool) (apps : List Application) → count p (select q apps) ≤ count p apps
count-select-le p q [] = omega arith
count-select-le p q (a ∷ apps) = ground (arith, count-select-le p q apps)

select-Distinct :
    (p : Application → Bool) (apps : List Application)
    → DistinctKeys app_id apps
    → DistinctKeys app_id (select p apps)
select-Distinct p [] h = tt
select-Distinct p (a ∷ apps) (h, hs) = elim (Bool-cases (p a)) [
  | inl hit ↦
      rw hit (
        omega (arith, count-select-le (λ b. app_id b == app_id a) p apps),
        select-Distinct p apps hs,
      )
  | inr miss ↦ rw miss (select-Distinct p apps hs)
]

written_one :
    (w : Write) (ws : List Write) (x : Db)
    → fits_columns w ≡ true
    → violated w x ≡ none
    → write_all (w ∷ ws) x ≡ write_all ws (write w x)
unfolding write_all
written_one w ws x k h =
    ap
      (λ b. elim b [
        | false ↦ Outcome.too_long
        | true ↦ elim (violated w x) [
          | some c ↦ Outcome.violates c
          | none ↦ write_all ws (write w x)
        ]
      ])
      k
    ∙ ap (λ o. elim o [ some c ↦ Outcome.violates c | none ↦ write_all ws (write w x) ]) h

written_last :
    (w : Write) (x : Db)
    → fits_columns w ≡ true
    → violated w x ≡ none
    → write_all (w ∷ []) x ≡ written (write w x)
unfolding write_all
written_last w x k h = written_one w [] x k h

module _ (env : Env) (repo : Repository) (branch sha : String) (message : Option String)
    (d : Db) where
  abbrev at_stage : List Write → Tx
  at_stage ws = record { db = d; staged = ws; others = alone }

  -- What the loop stages and returns.
  staged_builds :
      {B : Type 0} (f : Option Uuid → M B) (n : ℕ) (apps : List Application) (ws : List Write)
      (last : Option Uuid)
      → (stage_builds env n repo branch sha message apps last >>= f) (at_stage ws)
        ≡ f
            (last_release env repo branch sha message d n apps last)
            (at_stage (ws ++ build_writes env repo branch sha message d n apps))
  unfolding stage_builds
  staged_builds f n [] ws last = ap (λ l. f last (at_stage l)) (sym (append-nil ws))
  staged_builds f n (app ∷ apps) ws last =
      let rel = insert_release (release_for env repo branch sha message d n app) in
      let e = insert_outbox (event_for env repo branch sha message d n app) in
      let rest = build_writes env repo branch sha message d (n + 3) apps in
      let last' = some (release_for env repo branch sha message d n app).id in
      staged_builds f (n + 3) apps ((ws ++ (rel ∷ [])) ++ (e ∷ [])) last'
      ∙ ap (λ l. f (last_release env repo branch sha message d (n + 3) apps last') (at_stage l))
          (append_two ws rel e rest)

  -- No release has the number that an application gets.
  abbrev IsFree : List Release → Application → Type 0
  IsFree releases a = any (same_number a.id (next_release_number a.id d)) releases ≡ false

  still-IsFree :
      (r : Release) (releases : List Release) (apps : List Application)
      → count (λ a. app_id a == r.application_id) apps ≡ 0
      → All (IsFree releases) apps
      → All (IsFree (r ∷ releases)) apps
  still-IsFree r releases [] h free = tt
  still-IsFree r releases (a ∷ apps) h (free, frees) =
      (ground arith, still-IsFree r releases apps (ground arith) frees)

  -- The changes break no constraint.
  writes_pass :
      (v : WebhookDelivery) (n : ℕ) (apps : List Application) (x : Db)
      → leb (text_length sha) 40 ≡ true
      → leb (text_length branch) 100 ≡ true
      → fits_columns (insert_delivery v) ≡ true
      → DistinctKeys app_id apps
      → All (IsFree x.releases) apps
      → any (same_delivery v.repository_id v.delivery_id) x.deliveries ≡ false
      → (y : Db) × (write_all
            (build_writes env repo branch sha message d n apps ++ (insert_delivery v ∷ []))
            x
          ≡ written y)
  unfolding violated write text_length
  writes_pass v n [] x short_sha short_ref short_row distinct free new =
      let fits : violated (insert_delivery v) x ≡ none = rw new in
      (
        record x { deliveries = v ∷ x.deliveries },
        written_last (insert_delivery v) x short_row fits,
      )
  writes_pass v n (app ∷ apps) x short_sha short_ref short_row (other, distinct) (free, frees) new =
      let r = release_for env repo branch sha message d n app in
      let e = event_for env repo branch sha message d n app in
      let x1 = write (insert_release r) x in
      let x2 = write (insert_outbox e) x1 in
      let rest =
        build_writes env repo branch sha message d (n + 3) apps ++ (insert_delivery v ∷ []) in
      let fits : violated (insert_release r) x ≡ none = rw free in
      let (y, done) =
        writes_pass v (n + 3) apps x2 short_sha short_ref short_row distinct
          (still-IsFree r x.releases apps other frees) new in
      (
        y,
        written_one (insert_release r) (insert_outbox e ∷ rest) x (rw (short_sha, short_ref) refl)
              fits
            ∙ written_one (insert_outbox e) rest x1 refl refl
            ∙ done,
      )

  -- The whole of a processed push.
  processed :
      (lib : GitHub) (id event body : String) (apps : List Application) (x : Db)
      → write_all
          (build_writes env repo branch sha message d 1 apps
            ++ (insert_delivery (delivery_row env lib 0 repo id event body "PROCESSED") ∷ []))
          d
        ≡ written x
      → process_push env lib repo id event body branch sha message apps (at_stage []) ≡ (
        ok (
            answer env 202 id "PROCESSED" event
              (last_release env repo branch sha message d 1 apps none)
              (some sha)),
        after x (at_stage []),
      )
  unfolding process_push commit
  processed lib id event body apps x done =
      staged_builds
        (λ l.
          stage (insert_delivery (delivery_row env lib 0 repo id event body "PROCESSED"))
          >> (commit >>= delivered env event (answer env 202 id "PROCESSED" event l (some sha))))
        1 apps [] none
      ∙ rw done

  newest-IsFree : (a : Application) → IsFree d.releases a
  unfolding next_release_number
  newest-IsFree a =
      no_number a.id (max_release_number a.id d.releases + 1) d.releases
        (max_bounds a.id d.releases (max_release_number a.id d.releases + 1) (omega arith))

matched_distinct :
    (repo : Repository) (branch : String) (d : Db)
    → DistinctKeys app_id d.applications
    → DistinctKeys app_id (matched_apps repo branch d)
unfolding matched_apps
matched_distinct repo branch d h = select-Distinct _ d.applications h

not_ignored :
    {A : Type 0} (apps : List Application) (m k : M A) (t : Tx) {r : Result A × Tx}
    → is_empty apps ≡ false
    → k t ≡ r
    → (if is_empty apps then m else k) t ≡ r
not_ignored [] m k t h e = cc
not_ignored (a ∷ apps) m k t h e = e

-- A new push is processed: where it matches an application, its delivery is not stored, the
-- applications' identifiers are unique, the commit's hash has at most 40 characters, the branch and
-- the delivery's identifier at most 100 and the event's name at most 50, as their columns hold, and
-- no other transaction runs beside, it is answered 202
-- PROCESSED with the last release, and the database has, for each matched application and no other,
-- one REQUESTED release of the pushed commit under its next number and one PENDING event with it.
pub push_processed :
    (env : Env) (lib : GitHub) (repo : Repository) (id event body : String) (push : PushPayload)
    (sha : String) (d : Db)
    → DistinctKeys app_id d.applications
    → any (same_delivery repo.id id) d.deliveries ≡ false
    → is_empty (matched_apps repo (branch_of push.ref) d) ≡ false
    → text_length sha ≤ 40
    → text_length (branch_of push.ref) ≤ 100
    → text_length id ≤ 100
    → text_length event ≤ 50
    → let branch = branch_of push.ref in
      let apps = matched_apps repo branch d in
      (x : Db) × (news : List (Release × OutboxEvent)) × (serve alone
          (handle_commit env lib repo id event body push sha)
          d
        ≡ (
          ok (
              answer env 202 id "PROCESSED" event
                (last_release env repo branch sha push.message d 1 apps none)
                (some sha)),
          x,
        ))
      × (Builds d repo branch sha apps news)
      × (x.releases ≡ inserted (map (λ n. n.0) news) d.releases)
      × (x.outbox ≡ inserted (map (λ n. n.1) news) d.outbox)
unfolding handle_commit process_push serve
push_processed env lib repo id event body push sha d distinct new matched short_sha short_ref
      short_id short_event =
    let branch = branch_of push.ref in
    let apps = matched_apps repo branch d in
    let v = delivery_row env lib 0 repo id event body "PROCESSED" in
    let (x, done) =
      writes_pass env repo branch sha push.message d v 1 apps d (ground arith) (ground arith)
        (ground arith) (matched_distinct repo branch d distinct)
        (All-every _ apps (newest-IsFree env repo branch sha push.message d)) new in
    let (rels, evs) = news_added env repo branch sha push.message d 1 apps v d x done in
    (
      x,
      news_for env repo branch sha push.message d 1 apps,
      ap (λ p. (p.0, p.1.db))
          (not_ignored apps
            (acknowledge env lib repo id event body "IGNORED_NO_MATCHING_APP" (some sha))
            (process_push env lib repo id event body branch sha push.message apps)
            (at_stage env repo branch sha push.message d []) matched
            (processed env repo branch sha push.message d lib id event body apps x done)),
      news_are-Builds env repo branch sha push.message d 1 apps (matched-Linked repo branch d),
      rels,
      evs,
    )

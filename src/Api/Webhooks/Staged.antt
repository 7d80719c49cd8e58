-- ===== src/Api/Webhooks/Staged.antt =====
-- What a push stages (apps/api/app/api/v1/webhooks.py), as a list.
use hamicloud.Session.Written.{written_step}
use hamicloud.Session.Atomic.{quiet_rules, Quiet}
use hamicloud.Api.Webhooks.Rows.{WebhookDeliveryResponse}
use hamicloud.Api.Apps.Builds.{latest_release}
use hamicloud.Api.Apps.Releases.{next_release_number}
use hamicloud.Session.Effect.{stage-Ends, query-Ends, Ends}
use hamicloud.Core.Events.{create_outbox_event}
use hamicloud.Models.Records.{build, app_build_requested, OutboxEvent}
use hamicloud.Models.Tenancy.{Uuid}
use hamicloud.Api.Webhooks.Pushes.{delivered, pushed_payload, pushed_release, stage_builds}
use hamicloud.Models.Db.{
  written, uq_webhook_deliveries_repo_delivery, insert_delivery, write, Constraint, violated,
  write_all, insert_outbox, insert_release, Write, Db,
}
use hamicloud.Prelude.{
  arith, sym, ◌∙◌, subst, ◌≡◌, some, [], ◌+◌, ◌∷◌, ◌++◌, List, ℕ, Option, String,
}
use hamicloud.Models.Apps.{WebhookDelivery, Release, Application, Repository}
use hamicloud.Env.{Env}
use mathlib.Core.List.{append-nil, append_assoc}
use hamicloud.Session.{query, ◌>>◌, stage, M, ◌>>=◌}

pub append_two :
    (ws : List Write) (w v : Write) (rest : List Write)
    → ((ws ++ (w ∷ [])) ++ (v ∷ [])) ++ rest ≡ ws ++ (w ∷ v ∷ rest)
append_two ws w v rest =
    append_assoc (ws ++ (w ∷ [])) (v ∷ []) rest ∙ append_assoc ws (w ∷ []) (v ∷ rest)

module _ (env : Env) (repo : Repository) (branch sha : String) (message : Option String)
    (d : Db) where
  -- The release of an application, as the database has its releases.
  abbrev pub release_for : ℕ → Application → Release
  release_for n app =
      pushed_release env n repo branch sha message app (next_release_number app.id d)
        (latest_release app.id d)

  abbrev pub event_for : ℕ → Application → OutboxEvent
  event_for n app =
      create_outbox_event env (n + 1) app.workspace_id app_build_requested
        (build (pushed_payload repo branch sha app (release_for n app))) [] (env.uuid (n + 2))

  abbrev pub build_writes : ℕ → List Application → List Write
  build_writes n [] = []
  build_writes n (app ∷ apps) =
      insert_release (release_for n app)
      ∷ insert_outbox (event_for n app)
      ∷ build_writes (n + 3) apps

  abbrev pub last_release : ℕ → List Application → Option Uuid → Option Uuid
  last_release n [] last = last
  last_release n (app ∷ apps) last = last_release (n + 3) apps (some (release_for n app).id)

  -- The loop stages these changes, and returns the last release.
  pub stage_builds-Ends :
      {B : Type 0} (P : Db → Type 0) (f : Option Uuid → M B) (n : ℕ) (apps : List Application)
      (ws : List Write) (last : Option Uuid)
      → Ends d (ws ++ build_writes n apps) P (f (last_release n apps last))
      → Ends d ws P (stage_builds env n repo branch sha message apps last >>= f)
  unfolding stage_builds
  stage_builds-Ends P f n [] ws last q = subst (λ l. Ends d l P (f last)) (append-nil ws) q
  stage_builds-Ends {B} P f n (app ∷ apps) ws last q =
      let more : ℕ → Option Release → M B = λ number latest.
        (let rel = pushed_release env n repo branch sha message app number latest in
          stage (insert_release rel)
          >> (stage (
                insert_outbox (
                  create_outbox_event env (n + 1) app.workspace_id app_build_requested
                    (build (pushed_payload repo branch sha app rel)) [] (env.uuid (n + 2))))
              >> (stage_builds env (n + 3) repo branch sha message apps (some rel.id) >>= f))) in
      query-Ends d ws P (next_release_number app.id) (λ k. query (latest_release app.id) >>= more k)
        (query-Ends d ws P (latest_release app.id) (more (next_release_number app.id d)) (
          stage-Ends d ws P (insert_release (release_for n app)) _ (
            stage-Ends d _ P (insert_outbox (event_for n app)) _ (
              stage_builds-Ends P f (n + 3) apps _ (some (release_for n app).id) (
                subst
                  (λ l. Ends d l P (f (last_release (n + 3) apps (some (release_for n app).id))))
                  (sym (
                    append_two ws (insert_release (release_for n app))
                      (insert_outbox (event_for n app)) (build_writes (n + 3) apps)))
                  q)))))

-- The changes of a push end with its delivery's row.
pub builds_then_row :
    (env : Env) (repo : Repository) (branch sha : String) (message : Option String) (d : Db) (n : ℕ)
    (apps : List Application) (v : WebhookDelivery) (d' x : Db)
    → write_all (build_writes env repo branch sha message d n apps ++ (insert_delivery v ∷ [])) d'
      ≡ written x
    → (x.repositories ≡ d'.repositories) × (x.deliveries ≡ v ∷ d'.deliveries)
unfolding write_all violated write
builds_then_row env repo branch sha message d n [] v d' x h = (ground arith, ground arith)
builds_then_row env repo branch sha message d n (app ∷ apps) v d' x h =
    let rel = release_for env repo branch sha message d n app in
    let e = event_for env repo branch sha message d n app in
    let ws = build_writes env repo branch sha message d (n + 3) apps ++ (insert_delivery v ∷ []) in
    let d1 = write (insert_release rel) d' in
    let (_, one) = written_step (insert_release rel) (insert_outbox e ∷ ws) d' x h in
    let (_, two) = written_step (insert_outbox e) ws d1 x one in
    builds_then_row env repo branch sha message d (n + 3) apps v (write (insert_outbox e) d1) x two

pub delivered-Quiet :
    (env : Env) (event : String) (r : WebhookDeliveryResponse) (c : Constraint)
    → Quiet (delivered env event r (some c))
delivered-Quiet env event r uq_webhook_deliveries_repo_delivery = search quiet_rules
delivered-Quiet env event r other = search quiet_rules

-- ===== src/Api/Webhooks/Built.antt =====
-- The builds that a push starts (apps/api/app/api/v1/webhooks.py).
use hamicloud.Models.Tenancy.{Uuid}
use hamicloud.Session.Atomic.{raise-Quiet}
use hamicloud.Session.Effect.{Ends, commit-Ends, stage-Ends, query-Ends, serve-Ends}
use hamicloud.Session.Written.{written_end, written_step}
use hamicloud.Session.{◌>>=◌, commit, ◌>>◌, stage, M, alone, serve}
use hamicloud.Api.Apps.Releases.{next_release_number}
use hamicloud.Api.Webhooks.Staged.{
  delivered-Quiet, stage_builds-Ends, last_release, build_writes, event_for, release_for,
}
use hamicloud.Models.Records.{pending, EventPayload, app_build_requested, OutboxEvent}
use hamicloud.Core.Events.{create_outbox_event}
use hamicloud.Api.Webhooks.Rows.{
  uncaught, delivery_row, answer, WebhookDeliveryResponse, PushPayload, GitHub, acknowledge,
}
use hamicloud.Api.Webhooks.Pushes.{
  names, builds_branch, delivered, pushed_payload, branch_of, process_push, matched_apps,
}
use hamicloud.Prelude.{
  eq_iff, refl, sym, subst, ◌∙◌, none, ap, is_empty, if◌then◌else◌, ◌++◌, some, inr, map, ◌==◌, inl,
  Bool-cases, ==_iff, ◌+◌, select, ℕ, &&_both, ◌⊎◌, true, Option, [], All, ◌∷◌, String, ◌≡◌, Bool,
  List,
}
use hamicloud.Models.Db.{
  insert_outbox, insert_release, written, insert_delivery, write_all, write, Db,
}
use hamicloud.Api.Webhooks.Handler.{handle_commit}
use hamicloud.Models.Apps.{requested, WebhookDelivery, Release, Application, Repository}
use hamicloud.Env.{Env}

-- The rows of a table after these were inserted one by one.
abbrev pub inserted {ℓ} : {A : Type ℓ} → List A → List A → List A
inserted [] rows = rows
inserted (x ∷ xs) rows = inserted xs (x ∷ rows)

-- An application that builds a branch of a repository: of its workspace, linked to it, and with this
-- branch or with none configured.
abbrev pub Linked : Repository → String → Application → Type 0
Linked repo branch app =
    (app.workspace_id ≡ repo.workspace_id)
    × (app.repository_id ≡ some repo.id)
    × ((app.git_branch ≡ none) ⊎ (app.git_branch ≡ some branch))

-- A release that a push starts for an application, and the event that has it built.
abbrev pub BuildOf :
    Db → Repository → String → String → Application → Release × OutboxEvent → Type 0
BuildOf d repo branch sha app (r, e) =
    Linked repo branch app
    × (r.application_id ≡ app.id)
    × (r.workspace_id ≡ repo.workspace_id)
    × (r.release_number ≡ next_release_number app.id d)
    × (r.commit_sha ≡ some sha)
    × (r.git_ref ≡ some branch)
    × (r.status ≡ requested)
    × (e.status ≡ pending)
    × (e.topic ≡ app_build_requested)
    × (e.workspace_id ≡ repo.workspace_id)
    × (e.payload_json ≡ EventPayload.build (pushed_payload repo branch sha app r))

-- One build for each application, in order.
abbrev pub Builds :
    Db → Repository → String → String → List Application → List (Release × OutboxEvent) → Type 0
Builds d repo branch sha [] [] = Unit
Builds d repo branch sha (app ∷ apps) (n ∷ news) =
    BuildOf d repo branch sha app n × Builds d repo branch sha apps news
Builds d repo branch sha apps news = ⊥

-- What a push has done: nothing at all; or, where it matches no application, no more than its
-- delivery's row; or one release and one event for each matched application.
abbrev pub Built : Db → Repository → String → String → List Application → Db → Type 0
Built d repo branch sha apps x =
    (x ≡ d)
    ⊎ ((apps ≡ []) × (x.releases ≡ d.releases) × (x.outbox ≡ d.outbox))
    ⊎ ((news : List (Release × OutboxEvent)) × (Builds d repo branch sha apps news)
        × (x.releases ≡ inserted (map (λ n. n.0) news) d.releases)
        × (x.outbox ≡ inserted (map (λ n. n.1) news) d.outbox))

module _ (env : Env) (repo : Repository) (branch sha : String) (message : Option String)
    (d : Db) where
  abbrev pub news_for : ℕ → List Application → List (Release × OutboxEvent)
  news_for n [] = []
  news_for n (app ∷ apps) =
      (
        release_for env repo branch sha message d n app,
        event_for env repo branch sha message d n app,
      )
      ∷ news_for (n + 3) apps

  pub news_added :
      (n : ℕ) (apps : List Application) (v : WebhookDelivery) (d' x : Db)
      → write_all (build_writes env repo branch sha message d n apps ++ (insert_delivery v ∷ [])) d'
        ≡ written x
      → (x.releases ≡ inserted (map (λ n. n.0) (news_for n apps)) d'.releases)
        × (x.outbox ≡ inserted (map (λ n. n.1) (news_for n apps)) d'.outbox)
  unfolding write
  news_added n [] v d' x h =
      let (_, e) = written_step (insert_delivery v) [] d' x h in
      let same = written_end _ x e in (ap (λ y. y.releases) same, ap (λ y. y.outbox) same)
  news_added n (app ∷ apps) v d' x h =
      let rel = release_for env repo branch sha message d n app in
      let e = event_for env repo branch sha message d n app in
      let ws =
        build_writes env repo branch sha message d (n + 3) apps ++ (insert_delivery v ∷ []) in
      let d1 = write (insert_release rel) d' in
      let (_, one) = written_step (insert_release rel) (insert_outbox e ∷ ws) d' x h in
      let (_, two) = written_step (insert_outbox e) ws d1 x one in
      news_added (n + 3) apps v (write (insert_outbox e) d1) x two

  pub news_are-Builds :
      (n : ℕ) (apps : List Application)
      → All (Linked repo branch) apps
      → Builds d repo branch sha apps (news_for n apps)
  unfolding create_outbox_event
  news_are-Builds n [] h = tt
  news_are-Builds n (app ∷ apps) h = (
    (h.0, refl, h.0.0, refl, refl, refl, refl, refl, refl, h.0.0, refl),
    news_are-Builds (n + 3) apps h.1,
  )

All-select :
    {A : Type 0} (P : A → Type 0) (p : A → Bool) (xs : List A)
    → ((x : A) → p x ≡ true → P x)
    → All P (select p xs)
All-select P p [] h = tt
All-select P p (x ∷ xs) h = elim (Bool-cases (p x)) [
  | inl hit ↦
      let both : P x × All P (select p xs) = (h x hit, All-select P p xs h) in
      subst (λ b. All P (if b then x ∷ select p xs else select p xs)) (sym hit) both
  | inr miss ↦
      subst (λ b. All P (if b then x ∷ select p xs else select p xs)) (sym miss)
        (All-select P p xs h)
]

named : (o : Option Uuid) (id : Uuid) → names o id ≡ true → o ≡ some id
named none id h = absurd (cc)
named (some r) id h = ap some ((==_iff r id).0 h)

branch_built :
    (branch : String) (o : Option String)
    → builds_branch branch o ≡ true
    → (o ≡ none) ⊎ (o ≡ some branch)
branch_built branch none h = inl refl
branch_built branch (some b) h = inr (ap some ((eq_iff b branch).0 h))

pub matched-Linked :
    (repo : Repository) (branch : String) (d : Db)
    → All (Linked repo branch) (matched_apps repo branch d)
unfolding matched_apps
matched-Linked repo branch d = All-select _ _ d.applications (λ a h.
    let (linked, builds) = &&_both _ _ h in
    let (own, repository) = &&_both (a.workspace_id == repo.workspace_id) _ linked in
    (
      (==_iff a.workspace_id repo.workspace_id).0 own,
      named a.repository_id repo.id repository,
      branch_built branch a.git_branch builds,
    ))

empty-Ends :
    {A : Type 0} (d : Db) (P : Db → Type 0) (apps : List Application) (m k : M A)
    → (apps ≡ [] → Ends d [] P m)
    → Ends d [] P k
    → Ends d [] P (if is_empty apps then m else k)
empty-Ends d P [] m k p q = p refl
empty-Ends d P (a ∷ apps) m k p q = q

-- A push of a commit that no other transaction runs beside either changes nothing; or, where it
-- matches no application, adds no release and no event; or adds, for each matched application and
-- for no other, one REQUESTED release of the pushed commit under the application's next number, and
-- one PENDING event that carries it, both in the repository's workspace. A matched application is of
-- this workspace, linked to the repository, and builds the pushed branch or every branch.
pub push-Built :
    (env : Env) (lib : GitHub) (repo : Repository) (id event body : String) (push : PushPayload)
    (sha : String) (d : Db)
    → Built d repo
        (branch_of push.ref)
        sha
        (matched_apps repo (branch_of push.ref) d)
        (serve alone (handle_commit env lib repo id event body push sha) d).1
unfolding handle_commit acknowledge process_push
push-Built env lib repo id event body push sha d =
    let branch = branch_of push.ref in
    let apps = matched_apps repo branch d in
    let P = Built d repo branch sha apps in
    let start : List Application → M WebhookDeliveryResponse = λ apps.
      (if is_empty apps
        then acknowledge env lib repo id event body "IGNORED_NO_MATCHING_APP" (some sha)
        else process_push env lib repo id event body branch sha push.message apps) in
    let r = answer env 200 id "IGNORED_NO_MATCHING_APP" event none (some sha) in
    let ignored = delivery_row env lib 0 repo id event body "IGNORED_NO_MATCHING_APP" in
    let row = delivery_row env lib 0 repo id event body "PROCESSED" in
    let last =
      answer env 202 id "PROCESSED" event
        (last_release env repo branch sha push.message d 1 apps none) (some sha) in
    serve-Ends d P _ (
      query-Ends d [] P (matched_apps repo branch) start (
        empty-Ends d P apps _ _
          (λ none_matched. stage-Ends d [] P (insert_delivery ignored) _ (
            commit-Ends d _ P (uncaught r) r refl (λ c. raise-Quiet 500 _) (inl refl)
              (λ d' x beside h.
                let (rels, evs) =
                  news_added env repo branch sha push.message d 0 [] ignored d' x h in
                inr (inl (none_matched, rels ∙ beside.2, evs ∙ beside.1)))))
          (stage_builds-Ends env repo branch sha push.message d P
            (λ l.
              stage (insert_delivery row)
              >> (commit
                  >>= delivered env event (answer env 202 id "PROCESSED" event l (some sha))))
            1 apps [] none
            (stage-Ends d _ P (insert_delivery row) _ (
              commit-Ends d _ P (delivered env event last) last refl
                (delivered-Quiet env event last) (inl refl)
                (λ d' x beside h.
                  let (rels, evs) =
                    news_added env repo branch sha push.message d 1 apps row d' x h in
                  let news = news_for env repo branch sha push.message d 1 apps in
                  inr (
                    inr (
                      news,
                      news_are-Builds env repo branch sha push.message d 1 apps
                          (matched-Linked repo branch d),
                      rels ∙ ap (inserted (map (λ n. n.0) news)) beside.2,
                      evs ∙ ap (inserted (map (λ n. n.1) news)) beside.1,
                    ))))))))

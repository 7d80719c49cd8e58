-- ===== src/Api/Webhooks/Once.antt =====
-- Redelivery to `handle_github_webhook` of apps/api/app/api/v1/webhooks.py.
use hamicloud.Session.Atomic.{pure-Quiet, raise-Quiet}
use hamicloud.Session.Effect.{
  if-Ends, raise_if-Neutral, query-Neutral, found-Neutral, query-Ends, bind-Ends, bind_ok-Ends,
  Quiet-Ends, serve-Ends, commit-Ends, stage-Ends, Ends,
}
use hamicloud.Api.Webhooks.Pushes.{branch_of, matched_apps, delivered, process_push}
use hamicloud.Api.Webhooks.Handler.{
  or_unknown, handle_commit, handle_push, unless_stored, handle_event, handle_github_webhook,
}
use hamicloud.Session.{
  text, Tx, Detail, raise_if, found, query, ◌>>=◌, commit, ◌>>◌, stage, ok, alone, M, serve,
}
use hamicloud.Models.Tenancy.{Uuid}
use hamicloud.Session.Written.{passed}
use hamicloud.Api.Webhooks.Rows.{
  event_name, PushPayload, uncaught, delivery_row, answer, acknowledge, stored_delivery,
  is_blank_option, verify_github_signature, duplicate_of, WebhookDeliveryResponse, Delivery, GitHub,
}
use hamicloud.Api.Webhooks.Staged.{
  builds_then_row, delivered-Quiet, last_release, stage_builds-Ends,
}
use hamicloud.Models.Apps.{WebhookDelivery, Application, Repository}
use hamicloud.Prelude.{
  ℕ, not-not, not, is_empty, if◌then◌else◌, Bool, refl, ◌∙◌, ap, eq_iff, none, ◌=s=◌, first-eq_some,
  sym, subst, or_default, false, true, some, ◌==◌, first, ◌⊎◌, inr, inl, [], ◌∷◌, List, Option,
  String, ◌≡◌,
}
use hamicloud.Models.Db.{insert_delivery, Db}
use hamicloud.Env.{Env}

-- What a test for none let through.
found_is :
    {A : Type 0} (o : Option A) (a : A) (t : Tx) (n : ℕ) (e : Detail)
    → (found o n e t).0 ≡ ok a
    → o ≡ some a
found_is none a t n e h = absurd (cc)
found_is (some b) a t n e h = cc

module _ (env later : Env) (lib : GitHub) (repository_id : Uuid) (v : Delivery) where
  abbrev again : M WebhookDeliveryResponse
  again = handle_github_webhook later lib repository_id v

  -- Nothing has changed, or the same delivery again is answered as the duplicate of a row.
  abbrev pub Once : Db → Db → Type 0
  Once d x =
      (x ≡ d)
      ⊎ ((id : String) × (row : WebhookDelivery) × (serve alone again x
            ≡ (ok (duplicate_of id row), x)))

  -- A delivery whose row is stored.
  again_answers :
      (repo : Repository) (row : WebhookDelivery) (x : Db)
      → first (λ (r : Repository). r.id == repository_id) x.repositories ≡ some repo
      → verify_github_signature lib v.body repo.webhook_secret v.x_hub_signature_256 ≡ some true
      → is_blank_option v.x_github_delivery ≡ false
      → stored_delivery repository_id (or_default v.x_github_delivery "") x ≡ some row
      → serve alone again x ≡ (ok (duplicate_of (or_default v.x_github_delivery "") row), x)
  unfolding serve handle_github_webhook
  again_answers repo row x h sig key stored = rw (h, sig, key, stored)

  -- What the steps before have found.
  row_is :
      (d : Db) (row : Option Repository) (repo : Repository) (t s : Tx) (e : Detail)
      → t.db ≡ d
      → (query (λ x. first (λ (r : Repository). r.id == repository_id) x.repositories) t).0 ≡ ok row
      → (found row 404 e s).0 ≡ ok repo
      → first (λ (r : Repository). r.id == repository_id) d.repositories ≡ some repo
  row_is d none repo t s e same r q = absurd (cc)
  row_is d (some row) repo t s e same r q =
      subst (λ x. first (λ (r : Repository). r.id == repository_id) x.repositories ≡ some repo) same
        (cc)

  -- A found repository whose signature and identifier of the delivery passed.
  module _ (d : Db) (repo : Repository)
      (here : first (λ (r : Repository). r.id == repository_id) d.repositories ≡ some repo)
      (sig : verify_github_signature lib v.body repo.webhook_secret v.x_hub_signature_256
        ≡ some true)
      (key : is_blank_option v.x_github_delivery ≡ false) where
    abbrev id : String
    id = or_default v.x_github_delivery ""

    row_answers :
        (x : Db) (row : WebhookDelivery) (rest : List WebhookDelivery)
        → x.repositories ≡ d.repositories
        → x.deliveries ≡ row ∷ rest
        → row.repository_id ≡ repo.id
        → row.delivery_id ≡ id
        → Once d x
    row_answers x row rest same rows r k =
        let own : (row.repository_id == repository_id) ≡ true =
          subst (λ i. (i == repository_id) ≡ true) (sym r)
            (first-eq_some (λ (q : Repository). q.id == repository_id) d.repositories repo here) in
        let named : (row.delivery_id =s= id) ≡ true = (eq_iff _ _).1 k in
        let kept : stored_delivery repository_id id x ≡ some row = rw (rows, own, named) in
        inr (
          id,
          row,
          again_answers repo row x
              (ap (λ l. first (λ (q : Repository). q.id == repository_id) l) same ∙ here) sig key
              kept,
        )

    acknowledge-Ends :
        (event body status : String) (sha : Option String)
        → Ends d [] (Once d) (acknowledge env lib repo id event body status sha)
    unfolding acknowledge
    acknowledge-Ends event body status sha =
        let r = answer env 200 id status event none sha in
        let row = delivery_row env lib 0 repo id event body status in
        stage-Ends d [] (Once d) (insert_delivery row) _ (
          commit-Ends d _ (Once d) (uncaught r) r refl (λ c. raise-Quiet 500 _) (inl refl)
            (λ d' x beside h.
              let (same, rows) = builds_then_row env repo "" "" none d 0 [] row d' x h in
              row_answers x row d'.deliveries (same ∙ beside.5) rows refl refl))

    process_push-Ends :
        (event body branch sha : String) (message : Option String) (apps : List Application)
        → Ends d [] (Once d) (process_push env lib repo id event body branch sha message apps)
    unfolding process_push
    process_push-Ends event body branch sha message apps =
        let row = delivery_row env lib 0 repo id event body "PROCESSED" in
        let last : List Application → WebhookDeliveryResponse = λ l.
          answer env 202 id "PROCESSED" event (last_release env repo branch sha message d 1 l none)
            (some sha) in
        stage_builds-Ends env repo branch sha message d (Once d)
          (λ last.
            stage (insert_delivery row)
            >> (commit
                >>= delivered env event (answer env 202 id "PROCESSED" event last (some sha))))
          1 apps [] none
          (stage-Ends d _ (Once d) (insert_delivery row) _ (
            commit-Ends d _ (Once d) (delivered env event (last apps)) (last apps) refl
              (delivered-Quiet env event (last apps)) (inl refl)
              (λ d' x beside h.
                let (same, rows) =
                  builds_then_row env repo branch sha message d 1 apps row d' x h in
                row_answers x row d'.deliveries (same ∙ beside.5) rows refl refl)))

    handle_commit-Ends :
        (event body sha : String) (push : PushPayload)
        → Ends d [] (Once d) (handle_commit env lib repo id event body push sha)
    unfolding handle_commit
    handle_commit-Ends event body sha push =
        let branch = branch_of push.ref in
        let rest : List Application → M WebhookDeliveryResponse = λ apps.
          (if is_empty apps
            then acknowledge env lib repo id event body "IGNORED_NO_MATCHING_APP" (some sha)
            else process_push env lib repo id event body branch sha push.message apps) in
        query-Ends d [] (Once d) (matched_apps repo branch) rest (
          if-Ends d [] (Once d) (is_empty (matched_apps repo branch d)) _ _
            (acknowledge-Ends event body "IGNORED_NO_MATCHING_APP" (some sha))
            (process_push-Ends event body branch sha push.message (matched_apps repo branch d)))

    handle_push-Ends :
        (event body : String) (push : PushPayload)
        → Ends d [] (Once d) (handle_push env lib repo id event body push)
    unfolding handle_push
    handle_push-Ends event body push =
        if-Ends d [] (Once d) _ _ _ (acknowledge-Ends event body "IGNORED_BRANCH_DELETED" none)
          (handle_commit-Ends event body (or_default push.after "") push)

    handle_event-Ends :
        (event body : String) → Ends d [] (Once d) (handle_event env lib repo id event body)
    unfolding handle_event
    handle_event-Ends event body =
        if-Ends d [] (Once d) (event =s= "ping") _ _
          (acknowledge-Ends "ping" body "PING_ACKNOWLEDGED" none)
          (if-Ends d [] (Once d) (not (event =s= "push")) _ _
            (acknowledge-Ends (or_unknown event) body "IGNORED_NON_PUSH_EVENT" none)
            (bind-Ends d (Once d) (found (lib.parse_push body) 400 (text "Invalid JSON payload")) _
              (inl refl) (found-Neutral (lib.parse_push body) 400 _)
              (λ push. handle_push-Ends event body push)))

    unless_stored-Ends :
        (o : Option WebhookDelivery) (m : M WebhookDeliveryResponse)
        → Ends d [] (Once d) m
        → Ends d [] (Once d) (unless_stored id o m)
    unless_stored-Ends none m q = q
    unless_stored-Ends (some row) m q = Quiet-Ends d [] _ _ (inl refl) (pure-Quiet _)

  -- A delivery that no other transaction runs beside either leaves the database as it was, or the same
  -- delivery made again, whatever the environment then is, gets the answer of a duplicate and leaves
  -- the database as the first one left it.
  pub webhook-Once :
      (d : Db) → Once d (serve alone (handle_github_webhook env lib repository_id v) d).1
  unfolding handle_github_webhook
  webhook-Once d =
      let P = Once d in
      let id = or_default v.x_github_delivery "" in
      let signed : Repository → Option Bool =
        λ repo. verify_github_signature lib v.body repo.webhook_secret v.x_hub_signature_256 in
      let unsigned = text "Invalid or missing X-Hub-Signature-256 header" in
      let unnamed = text "Missing X-GitHub-Delivery header" in
      let look : Repository → M WebhookDeliveryResponse = λ repo.
        (query (stored_delivery repository_id id)
          >>= (λ o. unless_stored id o (handle_event env lib repo id (event_name v) v.body))) in
      let check : Repository → M WebhookDeliveryResponse =
        λ repo. (raise_if (is_blank_option v.x_github_delivery) 400 unnamed >> look repo) in
      let broken = text "An unexpected internal platform error occurred." in
      let pass : Repository → Bool → M WebhookDeliveryResponse =
        λ repo b. (raise_if (not b) 401 unsigned >> check repo) in
      let verify : Repository → M WebhookDeliveryResponse =
        λ repo. (found (signed repo) 500 broken >>= pass repo) in
      let find : Db → Option Repository =
        λ x. first (λ (r : Repository). r.id == repository_id) x.repositories in
      let missing = text "Repository not found" in
      serve-Ends d P _ (
        bind_ok-Ends d P (query find) (λ row. found row 404 missing >>= verify) (inl refl)
          (query-Neutral find)
          (λ row t e r.
            bind_ok-Ends d P (found row 404 missing) verify (inl refl)
              (found-Neutral row 404 missing)
              (λ repo t2 e2 r2.
                bind_ok-Ends d P (found (signed repo) 500 broken) (pass repo) (inl refl)
                  (found-Neutral (signed repo) 500 broken)
                  (λ b tb eb rb.
                    bind_ok-Ends d P (raise_if (not b) 401 unsigned) (λ _. check repo) (inl refl)
                      (raise_if-Neutral _ 401 unsigned)
                      (λ u t3 e3 r3.
                        bind_ok-Ends d P (raise_if _ 400 unnamed) (λ _. look repo) (inl refl)
                          (raise_if-Neutral _ 400 unnamed)
                          (λ w t4 e4 r4.
                            bind-Ends d P (query (stored_delivery repository_id id)) _ (inl refl)
                              (query-Neutral (stored_delivery repository_id id))
                              (λ o.
                                let here = row_is d row repo t t2 missing e r r2 in
                                let yes = not-not _ (passed _ 401 unsigned t3 r3) in
                                let sig = found_is (signed repo) b tb 500 broken rb ∙ ap some yes in
                                let key = passed _ 400 unnamed t4 r4 in
                                unless_stored-Ends d repo here sig key o _ (
                                  handle_event-Ends d repo here sig key (event_name v)
                                    v.body))))))))

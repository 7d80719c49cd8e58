-- ===== src/Api/Jobs/Race.antt =====
-- Two requests under one Idempotency-Key: `handle_idempotency_race` of
use hamicloud.Models.Tenancy.{Uuid}
use hamicloud.Env.{Env}
use hamicloud.Models.Records.{AcceptedOperationResponse, IdempotencyRecord}
use hamicloud.Session.{idempotency_conflict, after, raised, Tx, ok, Result, commit}
use hamicloud.Core.Idempotency.{
  stored, is_idempotency_violation, handle_idempotency_race, create_idempotency_record, Request,
}
use hamicloud.Api.Jobs.{commit_or_replay}
use hamicloud.Models.Db.{
  write, same_key, uq_idempotency_workspace_key, violates, insert_idempotency, written, Db, Write,
  violated, write_all,
}
use hamicloud.Prelude.{
  refl, subst, ◌∙◌, arith, [], true, ◌∷◌, any, ◌++◌, ◌=s=◌, some, if◌then◌else◌, ℕ, ◌≡◌, first,
  List, Bool,
}

-- apps/api/app/core/idempotency.py, as the handlers of apps/api/app/api/v1 call it.

write_all-snoc :
    (ws : List Write) (w : Write) (d d' : Db)
    → write_all ws d ≡ written d'
    → write_all (ws ++ (w ∷ [])) d ≡ write_all (w ∷ []) d'
unfolding write_all
write_all-snoc [] w d d' h =
    let same : d ≡ d' = cc in subst (λ x. write_all (w ∷ []) d ≡ write_all (w ∷ []) x) same refl
write_all-snoc (v ∷ ws) w d d' h = ground (arith, write_all-snoc ws w (write v d) d')

any-first :
    {A : Type 0} (p : A → Bool) (xs : List A) (a : A) → first p xs ≡ some a → any p xs ≡ true
any-first p [] a h = cc
any-first p (x ∷ xs) a h = ground (arith, any-first p xs a)

key_taken :
    (env : Env) (n : ℕ) (req : Request) (op : Uuid) (d : Db) (existing : IdempotencyRecord)
    → stored req d ≡ some existing
    → write_all (insert_idempotency (create_idempotency_record env n req 202 op) ∷ []) d
      ≡ violates uq_idempotency_workspace_key
unfolding write_all violated create_idempotency_record
key_taken env n req op d existing h =
    let taken =
      any-first (same_key req.workspace_id req.endpoint req.idempotency_key) d.idempotency existing
        h in
    ground arith

-- What the request that comes second gets.
abbrev pub second_answer : Request → IdempotencyRecord → Result AcceptedOperationResponse
second_answer req existing =
    if existing.request_hash =s= req.payload_hash
    then ok existing.response_body
    else raised (record { status = 409; detail = idempotency_conflict })

-- A commit that finds the key taken by another transaction, where the changes staged before it break
-- no constraint, gives the other request's response if the payloads have the same digest and 409 if
-- not, and leaves the database as the other transactions made it.
pub race_answers :
    (env : Env) (n : ℕ) (req : Request) (op : Uuid) (t : Tx) (d' : Db)
    (existing : IdempotencyRecord)
    → write_all t.staged (t.others t.db) ≡ written d'
    → stored req d' ≡ some existing
    → stored req (t.others t.db) ≡ some existing
    → commit_or_replay env n req op t ≡ (second_answer req existing, after (t.others t.db) t)
unfolding commit_or_replay commit handle_idempotency_race is_idempotency_violation
race_answers env n req op t d' existing h k s =
    let broken : write_all
          (t.staged ++ (insert_idempotency (create_idempotency_record env n req 202 op) ∷ []))
          (t.others t.db)
        ≡ violates uq_idempotency_workspace_key =
      write_all-snoc t.staged _ (t.others t.db) d' h ∙ key_taken env n req op d' existing k in
    rw (broken, s) (ground arith)

-- ===== src/Session/Effect.antt =====
-- What a handler has done to the database when it ends, proved by following its steps. The services
-- before a handler's own changes (idempotency, rate limit, quota) stage only neutral changes: those
-- that break no constraint and touch the idempotency records and the reservations alone.
use hamicloud.Prelude.{
  refl, none, some, [], false, ◌∷◌, All, true, if◌then◌else◌, sym, ◌++◌, ap, ◌≡◌, Option, List,
  subst, ℕ, ◌∙◌, Bool,
}
use mathlib.Core.List.{append-nil, append_assoc}
use mathlib.Core.Path.{ap₂}
use hamicloud.Session.{
  alone, serve, after, commit, ◌>>◌, committed, raise_if, found, raise, Detail, M, Tx, Result, ok,
  raised, ◌>>=◌, continue, pure, query, stage,
}
use hamicloud.Session.Atomic.{raise-Quiet, stage-Quiet, pure-Quiet, bind-Quiet, query-Quiet, Quiet}
use hamicloud.Models.Db.{
  too_long, violates, written, Outcome, Constraint, Db, Write, write_all, violated, write,
}

abbrev pub is_neutral : Write → Bool
is_neutral (Write.delete_idempotency _) = true
is_neutral (Write.expire_reservations _ _) = true
is_neutral (Write.insert_reservation _) = true
is_neutral _ = false

abbrev pub AllNeutral : List Write → Type 0
AllNeutral ws = All (λ w. is_neutral w ≡ true) ws

-- An action that commits nothing and stages only neutral changes.
pub record Neutral {A : Type 0} (m : M A) : Type 0 where
  pub quiet : Quiet m
  pub stages : (t : Tx) → AllNeutral t.staged → AllNeutral (m t).1.staged

-- An action that makes `P` hold of the database, when it is run on `d` after neutral changes and
-- then the changes `ws`, and no other transaction runs beside it.
pub record Ends {A : Type 0} (d : Db) (ws : List Write) (P : Db → Type 0) (m : M A) : Type 0 where
  pub at :
      (t : Tx) (ns : List Write)
      → t.db ≡ d
      → t.staged ≡ ns ++ ws
      → AllNeutral ns
      → ((e : Db) → t.others e ≡ e)
      → P (m t).1.db

All-append : (ws vs : List Write) → AllNeutral ws → AllNeutral vs → AllNeutral (ws ++ vs)
All-append [] vs h k = k
All-append (w ∷ ws) vs h k = (h.0, All-append ws vs h.1 k)

pub stage-Neutral : (w : Write) → is_neutral w ≡ true → Neutral (stage w)
stage-Neutral w n = record {
  quiet = stage-Quiet w;
  stages = λ t h. All-append t.staged (w ∷ []) h (n, tt);
}

module _ {A : Type 0} where
  pub pure-Neutral : (a : A) → Neutral (pure a)
  pure-Neutral a = record { quiet = pure-Quiet a; stages = λ t h. h }

  pub raise-Neutral : (n : ℕ) (e : Detail) → Neutral (raise {A = A} n e)
  raise-Neutral n e = record { quiet = raise-Quiet n e; stages = λ t h. h }

  pub query-Neutral : (f : Db → A) → Neutral (query f)
  query-Neutral f = record { quiet = query-Quiet f; stages = λ t h. h }

  pub found-Neutral : (o : Option A) (n : ℕ) (e : Detail) → Neutral (found o n e)
  found-Neutral none n e = raise-Neutral n e
  found-Neutral (some a) n e = pure-Neutral a

  pub if-Neutral : (b : Bool) (m k : M A) → Neutral m → Neutral k → Neutral (if b then m else k)
  if-Neutral true m k p q = p
  if-Neutral false m k p q = q

  pub Quiet-Ends :
      (d : Db) (ws : List Write) (P : Db → Type 0) (m : M A) → P d → Quiet m → Ends d ws P m
  Quiet-Ends d ws P m h q = record { at = λ t ns e s n o. subst P (sym (q.same_db t ∙ e)) h }

  pub if-Ends :
      (d : Db) (ws : List Write) (P : Db → Type 0) (b : Bool) (m k : M A)
      → Ends d ws P m
      → Ends d ws P k
      → Ends d ws P (if b then m else k)
  if-Ends d ws P true m k p q = p
  if-Ends d ws P false m k p q = q

pub raise_if-Neutral : (b : Bool) (n : ℕ) (e : Detail) → Neutral (raise_if b n e)
raise_if-Neutral true n e = raise-Neutral n e
raise_if-Neutral false n e = pure-Neutral tt

module _ {A B : Type 0} where
  continue_stages :
      (f : A → M B) (r : Result A) (t : Tx)
      → ((a : A) → Neutral (f a))
      → AllNeutral t.staged
      → AllNeutral (continue f r t).1.staged
  continue_stages f (ok a) t q h = (q a).stages t h
  continue_stages f (raised e) t q h = h

  pub bind-Neutral :
      (m : M A) (f : A → M B) → Neutral m → ((a : A) → Neutral (f a)) → Neutral (m >>= f)
  bind-Neutral m f p q = record {
    quiet = bind-Quiet m f p.quiet (λ a. (q a).quiet);
    stages = λ t h. continue_stages f (m t).0 (m t).1 q (p.stages t h);
  }

  continue_ends :
      (d : Db) (P : Db → Type 0) (f : A → M B) (r : Result A) (t : Tx)
      → P d
      → ((a : A) → r ≡ ok a → Ends d [] P (f a))
      → t.db ≡ d
      → AllNeutral t.staged
      → ((e : Db) → t.others e ≡ e)
      → P (continue f r t).1.db
  continue_ends d P f (ok a) t h q e n o =
      (q a refl).at t t.staged e (sym (append-nil t.staged)) n o
  continue_ends d P f (raised x) t h q e n o = subst P (sym e) h

  -- Neutral steps first, whose result is known; where one raises, the database is still `d`.
  pub bind_ok-Ends :
      (d : Db) (P : Db → Type 0) (m : M A) (f : A → M B)
      → P d
      → Neutral m
      → ((a : A) (t : Tx) → t.db ≡ d → (m t).0 ≡ ok a → Ends d [] P (f a))
      → Ends d [] P (m >>= f)
  bind_ok-Ends d P m f h p q = record {
    at = λ t ns e s n o.
        continue_ends d P f (m t).0 (m t).1 h (λ a r. q a t e r) (p.quiet.same_db t ∙ e)
          (p.stages t (subst AllNeutral (sym (s ∙ append-nil ns)) n))
          (λ x. ap (λ g. g x) (p.quiet.same_others t) ∙ o x);
  }

  pub bind-Ends :
      (d : Db) (P : Db → Type 0) (m : M A) (f : A → M B)
      → P d
      → Neutral m
      → ((a : A) → Ends d [] P (f a))
      → Ends d [] P (m >>= f)
  bind-Ends d P m f h p q = bind_ok-Ends d P m f h p (λ a t e r. q a)

  -- What is read is read from `d`.
  pub query-Ends :
      (d : Db) (ws : List Write) (P : Db → Type 0) (g : Db → A) (f : A → M B)
      → Ends d ws P (f (g d))
      → Ends d ws P (query g >>= f)
  query-Ends d ws P g f q = record {
    at = λ t ns e s n o. subst (λ x. P (f (g x) t).1.db) (sym e) (q.at t ns e s n o);
  }

-- A staged change is one more of the changes at the end.
pub stage-Ends :
    {B : Type 0} (d : Db) (ws : List Write) (P : Db → Type 0) (w : Write) (k : M B)
    → Ends d (ws ++ (w ∷ [])) P k
    → Ends d ws P (stage w >> k)
stage-Ends d ws P w k q = record {
  at = λ t ns e s n o.
      q.at (record t { staged = t.staged ++ (w ∷ []) }) ns e
        (ap (λ l. l ++ (w ∷ [])) s ∙ append_assoc ns ws (w ∷ [])) n o;
}

-- The database under the neutral changes: the same but for reservations and idempotency records.
abbrev pub Beside : Db → Db → Type 0
Beside d d' =
    (d'.jobs ≡ d.jobs)
    × (d'.outbox ≡ d.outbox)
    × (d'.releases ≡ d.releases)
    × (d'.applications ≡ d.applications)
    × (d'.memberships ≡ d.memberships)
    × (d'.repositories ≡ d.repositories)
    × (d'.deliveries ≡ d.deliveries)

pub write_all_neutral :
    (ns ws : List Write) (d : Db)
    → AllNeutral ns
    → (d' : Db) × (write_all (ns ++ ws) d ≡ write_all ws d') × Beside d d'
unfolding write_all violated write
write_all_neutral [] ws d h = (d, refl, (refl, refl, refl, refl, refl, refl, refl))
write_all_neutral (Write.delete_idempotency i ∷ ns) ws d h =
    write_all_neutral ns ws (write (Write.delete_idempotency i) d) h.1
write_all_neutral (Write.expire_reservations w t ∷ ns) ws d h =
    write_all_neutral ns ws (write (Write.expire_reservations w t) d) h.1
write_all_neutral (Write.insert_reservation r ∷ ns) ws d h =
    write_all_neutral ns ws (write (Write.insert_reservation r) d) h.1
write_all_neutral (w ∷ ns) ws d h = absurd (cc)

-- A request that no other transaction runs beside.
pub serve-Ends :
    {A : Type 0} (d : Db) (P : Db → Type 0) (m : M A) → Ends d [] P m → P (serve alone m d).1
unfolding serve
serve-Ends d P m q =
    q.at (record { db = d; staged = []; others = alone }) [] refl refl tt (λ e. refl)

-- A handler's end: if the commit writes, `P` holds of what it wrote; if not, of `d`.
module _ {B : Type 0} (d : Db) (ws : List Write) (P : Db → Type 0) (f : Option Constraint → M B)
    (b : B) where
  committed_ends :
      (o : Outcome) (t : Tx)
      → f none ≡ pure b
      → ((c : Constraint) → Quiet (f (some c)))
      → P (t.others t.db)
      → ((x : Db) → o ≡ written x → P x)
      → P (continue f (committed o t).0 (committed o t).1).1.db
  committed_ends (written x) t done q h k =
      subst (λ m. P (m (after x t)).1.db) (sym done) (k x refl)
  committed_ends (violates c) t done q h k =
      subst P (sym ((q c).same_db (after (t.others t.db) t))) h
  committed_ends too_long t done q h k = h

  pub commit-Ends :
      f none ≡ pure b
      → ((c : Constraint) → Quiet (f (some c)))
      → P d
      → ((d' x : Db) → Beside d d' → write_all ws d' ≡ written x → P x)
      → Ends d ws P (commit >>= f)
  unfolding commit
  commit-Ends done q h k = record {
    at = λ t ns e s n o.
        let same : t.others t.db ≡ d = o t.db ∙ e in
        let (d', eq, beside) = write_all_neutral ns ws d n in
        committed_ends (write_all t.staged (t.others t.db)) t done q (subst P (sym same) h)
          (λ x w. k d' x beside (sym eq ∙ ap₂ write_all (sym s) (sym same) ∙ w));
  }

pub ruleset neutral_rules = (
  pure-Neutral, raise-Neutral, query-Neutral, found-Neutral, raise_if-Neutral, if-Neutral,
  bind-Neutral,
)

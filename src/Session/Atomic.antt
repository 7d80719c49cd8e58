-- ===== src/Session/Atomic.antt =====
-- Which actions leave the database alone when they raise, with a rule for each way to build one.
use hamicloud.Prelude.{
  false, inr, ◌∙◌, none, ◌∙◌, refl, true, subst, some, if◌then◌else◌, ◌⊎◌, ◌≡◌, Bool, inl, Option,
  ℕ,
}
use hamicloud.Session.{
  after, committed, continue, M, Tx, Result, ok, raised, HttpError, Detail, ◌>>=◌, pure, raise,
  raise_if, query, found, stage, commit, rollback,
}
use hamicloud.Models.Db.{too_long, Outcome, Db, Write, Constraint, written, violates, write_all}

-- An action that commits nothing: the database and the other transactions stay as they were.
pub record Quiet {A : Type 0} (m : M A) : Type 0 where
  pub same_db : (t : Tx) → (m t).1.db ≡ t.db
  pub same_others : (t : Tx) → (m t).1.others ≡ t.others

-- An action that, where it raises, leaves the database as it was or as the others made it.
pub record Atomic {A : Type 0} (m : M A) : Type 0 where
  pub unchanged :
      (t : Tx) (e : HttpError)
      → (m t).0 ≡ raised e
      → ((m t).1.db ≡ t.db) ⊎ ((m t).1.db ≡ t.others t.db)

module _ {A : Type 0} where
  pub pure-Quiet : (a : A) → Quiet (pure a)
  pure-Quiet a = record { same_db = λ t. refl; same_others = λ t. refl }

  pub raise-Quiet : (n : ℕ) (d : Detail) → Quiet (raise {A = A} n d)
  raise-Quiet n d = record { same_db = λ t. refl; same_others = λ t. refl }

  pub query-Quiet : (f : Db → A) → Quiet (query f)
  query-Quiet f = record { same_db = λ t. refl; same_others = λ t. refl }

  pub found-Quiet : (o : Option A) (n : ℕ) (d : Detail) → Quiet (found o n d)
  found-Quiet none n d = raise-Quiet n d
  found-Quiet (some a) n d = pure-Quiet a

  pub Quiet-Atomic : {m : M A} → Quiet m → Atomic m
  Quiet-Atomic q = record { unchanged = λ t e h. inl (q.same_db t) }

pub raise_if-Quiet : (b : Bool) (n : ℕ) (d : Detail) → Quiet (raise_if b n d)
raise_if-Quiet true n d = raise-Quiet n d
raise_if-Quiet false n d = pure-Quiet tt

pub stage-Quiet : (w : Write) → Quiet (stage w)
stage-Quiet w = record { same_db = λ t. refl; same_others = λ t. refl }

pub rollback-Quiet : Quiet rollback
rollback-Quiet = record { same_db = λ t. refl; same_others = λ t. refl }

pub if-Quiet : {A : Type 0} (b : Bool) (m k : M A) → Quiet m → Quiet k → Quiet (if b then m else k)
if-Quiet true m k p q = p
if-Quiet false m k p q = q

ok-ne-raised : {A : Type 0} {a : A} {e : HttpError} → ok a ≡ raised e → ⊥
ok-ne-raised h = cc

module _ {A B : Type 0} where
  continue_db :
      (f : A → M B) (r : Result A) (t : Tx)
      → ((a : A) → Quiet (f a))
      → ((continue f r t).1.db ≡ t.db) × ((continue f r t).1.others ≡ t.others)
  continue_db f (ok a) t q = ((q a).same_db t, (q a).same_others t)
  continue_db f (raised e) t q = (refl, refl)

  pub bind-Quiet : (m : M A) (f : A → M B) → Quiet m → ((a : A) → Quiet (f a)) → Quiet (m >>= f)
  bind-Quiet m f p q = record {
    same_db = λ t. (continue_db f (m t).0 (m t).1 q).0 ∙ p.same_db t;
    same_others = λ t. (continue_db f (m t).0 (m t).1 q).1 ∙ p.same_others t;
  }

  continue_unchanged :
      (f : A → M B) (r : Result A) (t : Tx) (e : HttpError)
      → ((a : A) → Atomic (f a))
      → (continue f r t).0 ≡ raised e
      → ((continue f r t).1.db ≡ t.db) ⊎ ((continue f r t).1.db ≡ t.others t.db)
  continue_unchanged f (ok a) t e q h = (q a).unchanged t e h
  continue_unchanged f (raised e') t e q h = inl refl

  pub bind-Atomic : (m : M A) (f : A → M B) → Quiet m → ((a : A) → Atomic (f a)) → Atomic (m >>= f)
  bind-Atomic m f p q = record {
    unchanged = λ t e h.
        subst (λ d. ((m >>= f) t).1.db ≡ d ⊎ ((m >>= f) t).1.db ≡ t.others d) (p.same_db t)
          (subst (λ o. ((m >>= f) t).1.db ≡ (m t).1.db ⊎ ((m >>= f) t).1.db ≡ o (m t).1.db)
            (p.same_others t) (continue_unchanged f (m t).0 (m t).1 e q h));
  }

pub if-Atomic :
    {A : Type 0} (b : Bool) (m k : M A) → Atomic m → Atomic k → Atomic (if b then m else k)
if-Atomic true m k p q = p
if-Atomic false m k p q = q

-- A handler's end: a commit that wrote answers at once, and what follows one that broke a constraint
-- commits nothing more.
module _ {A : Type 0} (f : Option Constraint → M A) (b : A) where
  committed_unchanged :
      (o : Outcome) (t : Tx) (e : HttpError)
      → f none ≡ pure b
      → ((c : Constraint) → Quiet (f (some c)))
      → (continue f (committed o t).0 (committed o t).1).0 ≡ raised e
      → (continue f (committed o t).0 (committed o t).1).1.db ≡ t.others t.db
  committed_unchanged (written d) t e done q h =
      absurd (ok-ne-raised (subst (λ m. (m (after d t)).0 ≡ raised e) done h))
  committed_unchanged (violates c) t e done q h = (q c).same_db (after (t.others t.db) t)
  committed_unchanged too_long t e done q h = refl

  pub commit-Atomic :
      f none ≡ pure b → ((c : Constraint) → Quiet (f (some c))) → Atomic (commit >>= f)
  unfolding commit
  commit-Atomic done q = record {
    unchanged =
        λ t e h. inr (committed_unchanged (write_all t.staged (t.others t.db)) t e done q h);
  }

pub ruleset quiet_rules = (
  pure-Quiet, raise-Quiet, query-Quiet, found-Quiet, raise_if-Quiet, stage-Quiet, rollback-Quiet,
  if-Quiet, bind-Quiet,
)

pub ruleset atomic_rules = (quiet_rules, Quiet-Atomic, bind-Atomic, if-Atomic)

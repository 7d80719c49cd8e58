-- ===== src/Session.antt =====
-- A request's database session (apps/api/app/db/session.py) and its errors. A handler reads the
-- database as it was when the request came, and stages changes; `commit` writes them to the
-- database as the other transactions have left it by then (`others`), and what is not committed is
-- dropped when the session closes, so a handler that raises changes nothing.
pub mod Atomic
pub mod Effect
pub mod Written
use hamicloud.Prelude.{ℕ, String, Bool, true, false, Option, some, none, List, [], ◌∷◌, ◌++◌}
use hamicloud.Models.Db.{too_long, Outcome, Db, Write, Constraint, written, violates, write_all}

-- The bodies of fastapi's HTTPException in this program: a text, or a dictionary with an error code.
pub data Detail : Type 0 where
  text : String → Detail
  idempotency_conflict : Detail
  quota_exceeded : String → ℕ → ℕ → Detail
  rate_limited : ℕ → Detail
  image_policy_violation : String → List String → Detail

pub record HttpError : Type 0 where
  pub status : ℕ
  pub detail : Detail

pub data Result {ℓ} (A : Type ℓ) : Type ℓ where
  ok : A → Result A
  raised : HttpError → Result A

pub record Tx : Type 0 where
  pub db : Db
  pub staged : List Write
  pub others : Db → Db

abbrev pub M : Type 0 → Type 0
M A = Tx → Result A × Tx

-- What follows an action that ended in a result: an exception skips it.
abbrev pub continue : {A B : Type 0} → (A → M B) → Result A → Tx → Result B × Tx
continue f (ok a) t = f a t
continue f (raised e) t = (raised e, t)

infixl 5 ◌>>=◌ ◌>>◌
abbrev pub ◌>>=◌ : {A B : Type 0} → M A → (A → M B) → M B
◌>>=◌ m f t = continue f (m t).0 (m t).1

abbrev pub ◌>>◌ : {A B : Type 0} → M A → M B → M B
m >> k = m >>= λ _. k

module _ {A : Type 0} where
  abbrev pub pure : A → M A
  pure a t = (ok a, t)

  abbrev pub raise : ℕ → Detail → M A
  raise status detail t = (raised (record { status = status; detail = detail }), t)

  -- What the session reads.
  abbrev pub query : (Db → A) → M A
  query f t = (ok (f t.db), t)

  -- `scalar_one_or_none()`, where the handler raises on none.
  abbrev pub found : Option A → ℕ → Detail → M A
  found none status detail = raise status detail
  found (some a) _ _ = pure a

abbrev pub raise_if : Bool → ℕ → Detail → M (Unit {0})
raise_if true status detail = raise status detail
raise_if false _ _ = pure tt

-- `db.add`, `db.delete`, an assignment to a column, an executed UPDATE.
abbrev pub stage : Write → M (Unit {0})
stage w t = (ok tt, record t { staged = t.staged ++ (w ∷ []) })

-- The session after its transaction: nothing staged, and the others' changes seen.
abbrev pub after : Db → Tx → Tx
after d t = record t { db = d; staged = []; others = λ d'. d' }

abbrev pub committed : Outcome → Tx → Result (Option Constraint) × Tx
committed (written d) t = (ok none, after d t)
committed (violates c) t = (ok (some c), after (t.others t.db) t)
committed too_long t = (
  raised (record { status = 500; detail = text "An unexpected internal platform error occurred." }),
  after (t.others t.db) t,
)

-- `db.commit()`: none, or the constraint of the IntegrityError; no handler catches the DataError of a
-- text that is too long.
unfoldable pub commit : M (Option Constraint)
commit t = committed (write_all t.staged (t.others t.db)) t

-- `db.rollback()`
abbrev pub rollback : M (Unit {0})
rollback t = (ok tt, record t { staged = [] })

-- One request, while the other transactions change the database by `others`.
unfoldable pub serve : {A : Type 0} → (Db → Db) → M A → Db → Result A × Db
serve others m d = let (r, t) = m (record { db = d; staged = []; others = others }) in (r, t.db)

-- A request that no other transaction runs beside.
abbrev pub alone : Db → Db
alone d = d

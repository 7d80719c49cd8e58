-- ===== src/Session/Written.antt =====
-- The steps of a commit that wrote its changes.
use hamicloud.Session.{◌>>◌, raised, continue, Result, ◌>>=◌, M, ok, raise_if, Tx, Detail}
use hamicloud.Prelude.{refl, true, false, ℕ, Bool, arith, none, ◌∷◌, ◌≡◌, List, []}
use hamicloud.Models.Db.{write, violated, written, Write, write_all, Db}

-- The first change broke nothing, and the others were written after it.
pub written_step :
    (w : Write) (ws : List Write) (d x : Db)
    → write_all (w ∷ ws) d ≡ written x
    → (violated w d ≡ none) × (write_all ws (write w d) ≡ written x)
unfolding write_all
written_step w ws d x h = ground arith

pub written_end : (d x : Db) → write_all [] d ≡ written x → x ≡ d
unfolding write_all
written_end d x h = cc

-- A test that raised nothing was false.
pub passed : (b : Bool) (n : ℕ) (e : Detail) (t : Tx) → (raise_if b n e t).0 ≡ ok tt → b ≡ false
passed true n e t h = cc
passed false n e t h = refl

-- An action in two parts that gave a result: both gave one.
pub bind_ok :
    {A B : Type 0} (m : M A) (f : A → M B) (t : Tx) (b : B)
    → ((m >>= f) t).0 ≡ ok b
    → (a : A) × ((m t).0 ≡ ok a) × ((f a (m t).1).0 ≡ ok b)
bind_ok {A} {B} m f t b h = continued (m t).0 (m t).1 h
  where
    continued :
        (r : Result A) (s : Tx)
        → (continue f r s).0 ≡ ok b
        → (a : A) × (r ≡ ok a) × ((f a s).0 ≡ ok b)
    continued (ok a) s e = (a, refl, e)
    continued (raised x) s e = absurd (cc)

-- A guard and what follows it gave a result: the guard's test was false.
pub guard_ok :
    {B : Type 0} (b : Bool) (n : ℕ) (e : Detail) (k : M B) (t : Tx) (x : B)
    → ((raise_if b n e >> k) t).0 ≡ ok x
    → (b ≡ false) × ((k t).0 ≡ ok x)
guard_ok true n e k t x h = absurd (cc)
guard_ok false n e k t x h = (refl, h)

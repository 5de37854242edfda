-- ===== src/Exec.antt =====
-- A method of a service or a repository: it reads and writes the database, may fail, and what was
-- written before a failure stays written. Each round trip to PostgreSQL may fail by itself: the list
-- of faults says which of the coming ones do; where the list ends, no more of them fail.
pub mod Keeps
pub mod Triples
pub mod Runs
use meetgo_dating_server.Prelude.{Bool, true, false, List, [], ◌∷◌, Option, none, some}
use meetgo_dating_server.Http.{Failure, internal, api, ApiError, Result, ok, err, Response, respond}
use meetgo_dating_server.Schema.{Db}

abbrev pub Faults : Type 0
Faults = List Bool

abbrev pub Exec {ℓ} : Type ℓ → Type ℓ
Exec A = Faults → Db → Result A × Db × Faults

module _ {ℓ} {A : Type ℓ} where
  unfoldable pub pure : A → Exec A
  pure a fs d = (ok a, d, fs)

  unfoldable pub raise : Failure → Exec A
  raise e fs d = (err e, d, fs)

  unfoldable pub throw : ApiError → Exec A
  throw e fs d = (err (api e), d, fs)

  unfoldable pub lift : Result A → Exec A
  lift r fs d = (r, d, fs)

  -- `if x == nil { return e }`
  unfoldable pub or_throw : Option A → ApiError → Exec A
  unfolding pure throw
  or_throw none e = throw e
  or_throw (some a) e = pure a

  -- One SQL statement: a fault leaves the database alone.
  unfoldable pub statement : (Db → Result A × Db) → Exec A
  statement f [] d = ((f d).0, (f d).1, [])
  statement f (false ∷ fs) d = ((f d).0, (f d).1, fs)
  statement f (true ∷ fs) d = (err internal, d, fs)

  unfoldable pub query : (Db → A) → Exec A
  unfolding statement
  query f = statement (λ d. (ok (f d), d))

  -- COMMIT, or the deferred ROLLBACK, of a transaction that began at `d`
  abbrev pub commit : Db → Result A × Db × Faults → Result A × Db × Faults
  commit d (err e, d', fs) = (err e, d, fs)
  commit d (ok a, d', []) = (ok a, d', [])
  commit d (ok a, d', false ∷ fs) = (ok a, d', fs)
  commit d (ok a, d', true ∷ fs) = (err internal, d, fs)

  -- inTx: BEGIN, the body, COMMIT
  unfoldable pub in_tx : Exec A → Exec A
  in_tx m [] d = commit d (m [] d)
  in_tx m (false ∷ fs) d = commit d (m fs d)
  in_tx m (true ∷ fs) d = (err internal, d, fs)

-- `if b { return e }`
unfoldable pub throw_if : Bool → ApiError → Exec (Unit {0})
unfolding pure throw
throw_if true e = throw e
throw_if false e = pure tt

unfoldable pub execute : (Db → Db) → Exec (Unit {0})
unfolding statement
execute f = statement (λ d. (ok tt, f d))

module _ {ℓ κ} {A : Type ℓ} {B : Type κ} where
  abbrev pub continue : Result A → (A → Exec B) → Exec B
  continue (ok a) f fs d = f a fs d
  continue (err e) f fs d = (err e, d, fs)

  infixl 10 ◌>>=◌
  unfoldable pub ◌>>=◌ : Exec A → (A → Exec B) → Exec B
  unfolding pure raise throw lift or_throw throw_if statement query execute in_tx
  ◌>>=◌ m f fs d = let r = m fs d in continue r.0 f r.2 r.1

  -- `_ = e`: an error that the source drops
  unfoldable pub ignore_then : Exec A → Exec B → Exec B
  ignore_then m k fs d = let r = m fs d in k r.2 r.1

module _ {κ} {B : Type κ} where
  infixl 10 ◌>>◌
  unfoldable pub ◌>>◌ : Exec (Unit {0}) → Exec B → Exec B
  unfolding ◌>>=◌
  m >> k = m >>= λ _. k

-- A handler: the method, and the response that is written from its result.
abbrev pub Handler {ℓ} : Type ℓ → Type ℓ
Handler B = Faults → Db → Response B × Db × Faults

abbrev pub answer {ℓ κ} : {A : Type ℓ} {B : Type κ} → (A → Response B) → Exec A → Handler B
answer f m fs d = let r = m fs d in (respond f r.0, r.1, r.2)

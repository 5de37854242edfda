-- ===== src/Exec/Keeps.antt =====
-- Invariants of methods.
use meetgo_dating_server.Prelude.{
  Option, none, some, ◌≡◌, refl, Bool, true, false, if◌then◌else◌, [], ◌∷◌,
}
use meetgo_dating_server.Http.{Failure, ApiError, Result, ok, err}
use meetgo_dating_server.Schema.{Db}
use meetgo_dating_server.Exec.{
  Faults, Exec, pure, raise, throw, lift, statement, query, execute, ◌>>=◌, ◌>>◌, ignore_then,
  or_throw, throw_if, continue,
}

-- `m` keeps `P`, whether it returns or fails.
pub record Keeps {ℓ κ} {A : Type ℓ} (P : Db → Type κ) (m : Exec A) : Type (ℓ ⊔ κ) where
  pub at : (fs : Faults) (d : Db) → P d → P (m fs d).1

module _ {ℓ κ} {A : Type ℓ} {P : Db → Type κ} where
  pub Keeps-pure : (a : A) → Keeps P (pure a)
  unfolding pure
  Keeps-pure a = record { at = λ fs d h. h }

  pub Keeps-raise : (e : Failure) → Keeps P (raise {A = A} e)
  unfolding raise
  Keeps-raise e = record { at = λ fs d h. h }

  pub Keeps-throw : (e : ApiError) → Keeps P (throw {A = A} e)
  unfolding throw
  Keeps-throw e = record { at = λ fs d h. h }

  pub Keeps-lift : (r : Result A) → Keeps P (lift r)
  unfolding lift
  Keeps-lift r = record { at = λ fs d h. h }

  pub Keeps-statement :
      (f : Db → Result A × Db) → ((d : Db) → P d → P (f d).1) → Keeps P (statement f)
  unfolding statement
  Keeps-statement f k = record { at = go }
    where
      go : (fs : Faults) (d : Db) → P d → P (statement f fs d).1
      go [] d h = k d h
      go (true ∷ fs) d h = h
      go (false ∷ fs) d h = k d h

  pub Keeps-query : (f : Db → A) → Keeps P (query f)
  unfolding query
  Keeps-query f = Keeps-statement (λ d. (ok (f d), d)) (λ d h. h)

  pub Keeps-or_throw : (o : Option A) (e : ApiError) → Keeps P (or_throw o e)
  unfolding or_throw
  Keeps-or_throw none e = Keeps-throw e
  Keeps-or_throw (some a) e = Keeps-pure a

  pub Keeps-if :
      (test : Bool) (left right : Exec A)
      → (test ≡ true → Keeps P left)
      → (test ≡ false → Keeps P right)
      → Keeps P (if test then left else right)
  Keeps-if true left right on_true on_false = on_true refl
  Keeps-if false left right on_true on_false = on_false refl

pub Keeps-throw_if {κ} : {P : Db → Type κ} (b : Bool) (e : ApiError) → Keeps P (throw_if b e)
unfolding throw_if
Keeps-throw_if true e = Keeps-throw e
Keeps-throw_if false e = Keeps-pure tt

pub Keeps-execute {κ} :
    {P : Db → Type κ} (f : Db → Db) → ((d : Db) → P d → P (f d)) → Keeps P (execute f)
unfolding execute
Keeps-execute f k = Keeps-statement (λ d. (ok tt, f d)) k

module _ {ℓ ℓ' κ} {A : Type ℓ} {B : Type ℓ'} {P : Db → Type κ} where
  resume :
      (r : Result A) (f : A → Exec B) (fs : Faults) (d : Db)
      → ((a : A) → Keeps P (f a))
      → P d
      → P (continue r f fs d).1
  resume (ok a) f fs d kf h = (kf a).at fs d h
  resume (err e) f fs d kf h = h

  pub Keeps-bind :
      (first_call : Exec A) (rest : A → Exec B)
      → Keeps P first_call
      → ((x : A) → Keeps P (rest x))
      → Keeps P (first_call >>= rest)
  unfolding ◌>>=◌
  Keeps-bind first_call rest kept kept_rest = record {
    at = λ fs d h. let r = first_call fs d in resume r.0 rest r.2 r.1 kept_rest (kept.at fs d h);
  }

  pub Keeps-ignore : (m : Exec A) (k : Exec B) → Keeps P m → Keeps P k → Keeps P (ignore_then m k)
  unfolding ignore_then
  Keeps-ignore m k km kk = record { at = λ fs d h. let r = m fs d in kk.at r.2 r.1 (km.at fs d h) }

pub Keeps-then {ℓ κ} :
    {B : Type ℓ} {P : Db → Type κ} (m : Exec (Unit {0})) (k : Exec B)
    → Keeps P m
    → Keeps P k
    → Keeps P (m >> k)
unfolding ◌>>◌
Keeps-then m k km kk = Keeps-bind m (λ _. k) km (λ _. kk)

pub ruleset keeps_rules = (
  Keeps-pure, Keeps-raise, Keeps-throw, Keeps-lift, Keeps-query, Keeps-if, Keeps-bind, Keeps-then,
  Keeps-ignore, Keeps-or_throw, Keeps-throw_if,
)

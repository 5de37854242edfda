-- ===== src/Exec/Triples.antt =====
-- Triples for methods: from `Pre` a call returns into `Post`, which may speak of the answer, or
-- fails into `Fail`.
use meetgo_dating_server.Prelude.{
  Option, none, some, ◌≡◌, refl, subst, if◌then◌else◌, Bool, true, false, [], ◌∷◌,
}
use meetgo_dating_server.Http.{ApiError, Result, ok, err}
use meetgo_dating_server.Schema.{Db}
use meetgo_dating_server.Exec.{
  Faults, Exec, pure, throw, lift, query, ◌>>=◌, ◌>>◌, or_throw, throw_if, continue, statement,
  execute, in_tx, commit,
}
use meetgo_dating_server.Exec.Keeps.{Keeps}

abbrev pub Ends {ℓ κ} :
    {A : Type ℓ} → (A → Db → Type κ) → (Db → Type κ) → Result A × Db × Faults → Type κ
Ends Post Fail (ok a, d, fs) = Post a d
Ends Post Fail (err e, d, fs) = Fail d

pub record Triple {ℓ κ} {A : Type ℓ} (Pre : Db → Type κ) (Post : A → Db → Type κ)
    (Fail : Db → Type κ) (m : Exec A) : Type (ℓ ⊔ κ) where
  pub at : (fs : Faults) (d : Db) → Pre d → Ends Post Fail (m fs d)

Ends-ok {ℓ κ} :
    {A : Type ℓ} (Post : A → Db → Type κ) (Fail : Db → Type κ) (r : Result A × Db × Faults) (a : A)
    → Ends Post Fail r
    → r.0 ≡ ok a
    → Post a r.1
Ends-ok Post Fail (ok b, d, fs) a h e = let same : b ≡ a = cc e in subst (λ c. Post c d) same h
Ends-ok Post Fail (err f, d, fs) a h e = absurd (cc e)

-- What a triple says of a call that has returned.
pub Triple-ok {ℓ κ} :
    {A : Type ℓ} {Pre Fail : Db → Type κ} {Post : A → Db → Type κ} (m : Exec A)
    → Triple Pre Post Fail m
    → (fs : Faults) (d : Db) (a : A) → Pre d
    → (m fs d).0 ≡ ok a
    → Post a (m fs d).1
Triple-ok {Fail} {Post} m t fs d a h e = Ends-ok Post Fail (m fs d) a (t.at fs d h) e

-- The same on both ways out.
Ends_both {ℓ κ} :
    {A : Type ℓ} (P : Db → Type κ) (r : Result A × Db × Faults) → Ends (λ _. P) P r → P r.1
Ends_both P (ok a, d, fs) h = h
Ends_both P (err e, d, fs) h = h

pub Keeps-of_Triple {ℓ κ} :
    {A : Type ℓ} {P : Db → Type κ} (m : Exec A) → Triple P (λ _. P) P m → Keeps P m
Keeps-of_Triple {P} m t = record { at = λ fs d h. Ends_both P (m fs d) (t.at fs d h) }

pub both_Ends {ℓ κ} :
    {A : Type ℓ} (P : Db → Type κ) (r : Result A × Db × Faults) → P r.1 → Ends (λ _. P) P r
both_Ends P (ok a, d, fs) h = h
both_Ends P (err e, d, fs) h = h

pub Triple-of_Keeps {ℓ κ} :
    {A : Type ℓ} {P : Db → Type κ} (m : Exec A) → Keeps P m → Triple P (λ _. P) P m
Triple-of_Keeps {P} m k = record { at = λ fs d h. both_Ends P (m fs d) (k.at fs d h) }

-- A fact that does not depend on the database becomes a hypothesis of the proof.
pub Triple-given {ℓ κ} :
    {A : Type ℓ} {F : Type κ} {Pre Fail : Db → Type κ} {Post : A → Db → Type κ} (m : Exec A)
    → (F → Triple Pre Post Fail m)
    → Triple (λ d. Pre d × F) Post Fail m
Triple-given m k = record { at = λ fs d h. (k h.1).at fs d h.0 }

module _ {κ} {A : Type κ} {Pre Fail : Db → Type κ} where
  pub Triple-pure :
      {Post : A → Db → Type κ} (a : A)
      → ((d : Db) → Pre d → Post a d)
      → Triple Pre Post Fail (pure a)
  unfolding pure
  Triple-pure a k = record { at = λ fs d h. k d h }

  pub Triple-if :
      {Post : A → Db → Type κ} (test : Bool) (left right : Exec A)
      → (test ≡ true → Triple Pre Post Fail left)
      → (test ≡ false → Triple Pre Post Fail right)
      → Triple Pre Post Fail (if test then left else right)
  Triple-if true left right on_true on_false = on_true refl
  Triple-if false left right on_true on_false = on_false refl

  pub Triple-post :
      {Mid Post : A → Db → Type κ} (m : Exec A)
      → ((a : A) (d : Db) → Mid a d → Post a d)
      → Triple Pre Mid Fail m
      → Triple Pre Post Fail m
  Triple-post {Mid} {Post} m weak t = record { at = λ fs d h. go (m fs d) (t.at fs d h) }
    where
      go : (r : Result A × Db × Faults) → Ends Mid Fail r → Ends Post Fail r
      go (ok a, d, fs) h = weak a d h
      go (err e, d, fs) h = h

  pub Triple-pre :
      {Pre' : Db → Type κ} {Post : A → Db → Type κ} (m : Exec A)
      → ((d : Db) → Pre' d → Pre d)
      → Triple Pre Post Fail m
      → Triple Pre' Post Fail m
  Triple-pre m strong t = record { at = λ fs d h. t.at fs d (strong d h) }

  pub Triple-fail :
      {Fail' : Db → Type κ} {Post : A → Db → Type κ} (m : Exec A)
      → ((d : Db) → Fail d → Fail' d)
      → Triple Pre Post Fail m
      → Triple Pre Post Fail' m
  Triple-fail {Fail'} {Post} m weak t = record { at = λ fs d h. go (m fs d) (t.at fs d h) }
    where
      go : (r : Result A × Db × Faults) → Ends Post Fail r → Ends Post Fail' r
      go (ok a, d, fs) h = h
      go (err e, d, fs) h = weak d h

  pub Triple-throw :
      {Post : A → Db → Type κ} (e : ApiError)
      → ((d : Db) → Pre d → Fail d)
      → Triple Pre Post Fail (throw e)
  unfolding throw
  Triple-throw e k = record { at = λ fs d h. k d h }

  pub Triple-lift :
      (r : Result A)
      → ((d : Db) → Pre d → Fail d)
      → Triple Pre (λ a d. Pre d × (r ≡ ok a)) Fail (lift r)
  unfolding lift
  Triple-lift (ok a) k = record { at = λ fs d h. (h, refl) }
  Triple-lift (err e) k = record { at = λ fs d h. k d h }

  pub Triple-or_throw :
      (o : Option A) (e : ApiError)
      → ((d : Db) → Pre d → Fail d)
      → Triple Pre (λ a d. Pre d × (o ≡ some a)) Fail (or_throw o e)
  unfolding or_throw
  Triple-or_throw none e k = record { at = λ fs d h. k d h }
  Triple-or_throw (some a) e k = record { at = λ fs d h. (h, refl) }

  pub Triple-statement :
      {Post : A → Db → Type κ} (f : Db → Result A × Db)
      → ((d : Db) → Pre d → Fail d)
      → ((d : Db) → Pre d → Ends Post Fail ((f d).0, (f d).1, []))
      → Triple Pre Post Fail (statement f)
  unfolding statement
  Triple-statement {Post} f weak k = record { at = go }
    where
      same :
          (r : Result A) (d : Db) (fs : Faults)
          → Ends Post Fail (r, d, [])
          → Ends Post Fail (r, d, fs)
      same (ok a) d fs h = h
      same (err e) d fs h = h

      go : (fs : Faults) (d : Db) → Pre d → Ends Post Fail (statement f fs d)
      go [] d h = k d h
      go (true ∷ fs) d h = weak d h
      go (false ∷ fs) d h = same (f d).0 (f d).1 fs (k d h)

  pub Triple-query :
      (f : Db → A)
      → ((d : Db) → Pre d → Fail d)
      → Triple Pre (λ a d. Pre d × (a ≡ f d)) Fail (query f)
  unfolding query
  Triple-query f weak = Triple-statement (λ d. (ok (f d), d)) weak (λ d h. (h, refl))

  pub Triple-in_tx :
      {Post : A → Db → Type κ} {Broken : Db → Type κ} (m : Exec A)
      → ((d : Db) → Pre d → Fail d)
      → Triple Pre Post Broken m
      → Triple Pre Post Fail (in_tx m)
  unfolding in_tx
  Triple-in_tx {Post} {Broken} m weak t = record { at = go }
    where
      rest :
          (d : Db) (r : Result A × Db × Faults)
          → Pre d
          → Ends Post Broken r
          → Ends Post Fail (commit d r)
      rest d (err e, d', fs) h k = weak d h
      rest d (ok a, d', []) h k = k
      rest d (ok a, d', true ∷ fs) h k = weak d h
      rest d (ok a, d', false ∷ fs) h k = k

      go : (fs : Faults) (d : Db) → Pre d → Ends Post Fail (in_tx m fs d)
      go [] d h = rest d (m [] d) h (t.at [] d h)
      go (false ∷ fs) d h = rest d (m fs d) h (t.at fs d h)
      go (true ∷ fs) d h = weak d h

module _ {Pre Fail : Db → Type 0} where
  pub Triple-throw_if :
      (b : Bool) (e : ApiError)
      → ((d : Db) → Pre d → Fail d)
      → Triple Pre (λ _ d. Pre d × (b ≡ false)) Fail (throw_if b e)
  unfolding throw_if
  Triple-throw_if true e k = record { at = λ fs d h. k d h }
  Triple-throw_if false e k = record { at = λ fs d h. (h, refl) }

  pub Triple-execute :
      {Post : Db → Type 0} (f : Db → Db)
      → ((d : Db) → Pre d → Fail d)
      → ((d : Db) → Pre d → Post (f d))
      → Triple Pre (λ _. Post) Fail (execute f)
  unfolding execute
  Triple-execute f weak k = Triple-statement (λ d. (ok tt, f d)) weak k

module _ {ℓ ℓ' κ} {A : Type ℓ} {B : Type ℓ'} {Pre : Db → Type κ} {Mid : A → Db → Type κ}
    {Post : B → Db → Type κ} {Fail : Db → Type κ} where
  pub Triple-bind :
      (m : Exec A) (f : A → Exec B)
      → Triple Pre Mid Fail m
      → ((a : A) → Triple (Mid a) Post Fail (f a))
      → Triple Pre Post Fail (m >>= f)
  unfolding ◌>>=◌
  Triple-bind m f tm tf = record { at = λ fs d h. go (m fs d) (tm.at fs d h) }
    where
      go : (r : Result A × Db × Faults) → Ends Mid Fail r → Ends Post Fail (continue r.0 f r.2 r.1)
      go (ok a, d, fs) h = (tf a).at fs d h
      go (err e, d, fs) h = h

module _ {ℓ' κ} {B : Type ℓ'} {Pre : Db → Type κ} {Mid : Unit {0} → Db → Type κ}
    {Post : B → Db → Type κ} {Fail : Db → Type κ} where
  pub Triple-then :
      (m : Exec (Unit {0})) (k : Exec B)
      → Triple Pre Mid Fail m
      → Triple (Mid tt) Post Fail k
      → Triple Pre Post Fail (m >> k)
  unfolding ◌>>◌
  Triple-then m k tm tk = Triple-bind m (λ _. k) tm (λ _. tk)

pub Keeps-tx : {A : Type 0} {P : Db → Type 0} (m : Exec A) → Keeps P m → Keeps P (in_tx m)
Keeps-tx m k = Keeps-of_Triple _ (Triple-in_tx m (λ d h. h) (Triple-of_Keeps m k))

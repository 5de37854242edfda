-- ===== src/Auth/Rotation.antt =====
-- internal/auth/service.go, Refresh: the rotation of refresh tokens.
use meetgo_dating_server.Prelude.{
  ℕ, Text, first, exists, update_rows, ==_refl, Bool-cases, true, false, Option, none, some, List,
  [], ◌∷◌, ◌++◌, ◌≡◌, refl, sym, ap, subst, ◌∙◌, first-some, ==_iff, inl, inr, arith, first-update,
  first-append_some,
}
use meetgo_dating_server.Http.{ok, err, api}
use meetgo_dating_server.Schema.{Uuid, Time, User, Session, Db}
use meetgo_dating_server.Exec.{Faults, ◌>>=◌, ◌>>◌}
use meetgo_dating_server.Exec.Triples.{
  Triple, Triple-pure, Triple-lift, Triple-or_throw, Triple-statement, Triple-query, Triple-post,
  Triple-ok, Triple-given, Triple-in_tx, Triple-throw_if, Triple-execute, Triple-bind, Triple-then,
}
use meetgo_dating_server.Auth.Errors.{session_revoked}
use meetgo_dating_server.Auth.External.{External}
use meetgo_dating_server.Auth.Token.{hash_token, new_refresh_token}
use meetgo_dating_server.Auth.Repository.{
  has_session_id, has_hash, has_user_id, user_by_id, revoke, new_session, rotate_session,
  session_by_hash, session_conflict, revoke_session, insert_session, insert_session_row,
}
use meetgo_dating_server.Auth.Service.{
  Service, Env, TokenResponse, issue_pair, usable_session, replace_session, refresh_tokens,
}

-- the sessions after the rotation of the session `old` into `t`
abbrev pub rotated : Time → Uuid → Session → List Session → List Session
rotated now old t xs = update_rows (has_session_id old) (revoke now) xs ++ t ∷ []

abbrev pub Any : Db → Type 0
Any d = Unit

-- What the rotation leaves in the table when it returns.
module _ (now : Time) (id old u : Uuid) (hash : Text) (t : Time) (xs : List Session) where
  pub add_to :
      Triple
        (λ d. d.refresh_sessions ≡ xs)
        (λ _ d. d.refresh_sessions ≡ xs ++ new_session id u hash t ∷ [])
        Any
        (insert_session id u hash t)
  unfolding insert_session insert_session_row
  add_to =
      Triple-statement _ (λ d h. tt)
        λ d h.
          elim (Bool-cases
            (exists (session_conflict (new_session id u hash t)) d.refresh_sessions)) [
              | inl e ↦ rw e tt
              | inr e ↦ rw e (rw h)
            ]

module _ (now : Time) (id old u : Uuid) (hash : Text) (t : Time) (xs : List Session) where
  rotate_session-Rotates :
      Triple
        (λ d. d.refresh_sessions ≡ xs)
        (λ _ d. d.refresh_sessions ≡ rotated now old (new_session id u hash t) xs)
        Any
        (rotate_session now id old u hash t)
  unfolding rotate_session revoke_session
  rotate_session-Rotates =
      Triple-in_tx _ (λ d h. tt)
        (Triple-then _ _
          (Triple-execute _ (λ d h. tt)
            (λ d h. ap (update_rows (has_session_id old) (revoke now)) h))
          (add_to now id old u hash t _))

pair_hash :
    (x : External) (bytes : Option (List ℕ)) (p : Text × Text)
    → new_refresh_token x bytes ≡ ok p
    → p.1 ≡ hash_token x p.0
unfolding new_refresh_token
pair_hash x none p h = absurd (cc h)
pair_hash x (some b) p h = ground arith

owner_id :
    (u : Uuid) (user : User) (us : List User) → first (has_user_id u) us ≡ some user → user.id ≡ u
unfolding has_user_id
owner_id u user us h = (==_iff _ _).0 (first-some (has_user_id u) us user h).0

-- A run that returns has read a session that may be used, and goes on from it.
module _ (x : External) (c : Service) (e : Env) where
  usable_session-ok :
      (token : Text) (d : Db) (s : Session)
      → (usable_session x c e token [] d).0 ≡ ok s
      → (first (has_hash (hash_token x token)) d.refresh_sessions ≡ some s) × (s.revoked_at ≡ none)
  unfolding usable_session session_by_hash ◌>>=◌ ◌>>◌
  usable_session-ok token d s h = ground arith

  -- The pair of a successful call: the refresh token and its hash.
  pub issue_pair-Hash :
      (u : Uuid) (P : Db → Type 0)
      → Triple P (λ p d. P d × (p.2 ≡ hash_token x p.1)) Any (issue_pair x c e u)
  unfolding issue_pair
  issue_pair-Hash u P = Triple-bind _ _ (Triple-lift _ (λ d h. tt)) λ access.
      Triple-bind _ _ (Triple-lift _ (λ d h. tt))
        λ pair. Triple-pure _ (λ d h. (h.0.0, pair_hash x e.random_bytes pair h.1))

  -- What a successful call leaves: the old session revoked, and the new one, of the returned token.
  abbrev pub Replaced : Session → List Session → TokenResponse → Db → Type 0
  Replaced s xs r d =
      (t : Session) × (d.refresh_sessions ≡ rotated e.clock.db s.id t xs)
      × (t.revoked_at ≡ none)
      × (t.id ≡ e.session_id)
      × (t.user_id ≡ s.user_id)
      × (t.token_hash ≡ hash_token x r.refresh_token)

  pub replace_session-Replaced :
      (s : Session) (xs : List Session)
      → Triple (λ d. d.refresh_sessions ≡ xs) (Replaced s xs) Any (replace_session x c e s)
  unfolding replace_session user_by_id
  replace_session-Replaced s xs = Triple-bind _ _ (Triple-query _ (λ d h. tt)) λ found.
      Triple-bind _ _
        (Triple-post _ (λ user d h. (h.0.0, owner_id s.user_id user d.users (cc (h.0.1, h.1))))
          (Triple-or_throw found _ (λ d h. tt)))
        λ user. Triple-given _ λ same.
          Triple-bind _ _ (issue_pair-Hash user.id (λ d. d.refresh_sessions ≡ xs))
            λ (access, token, hash). Triple-given _ λ hashed.
              Triple-then _ _ (rotate_session-Rotates _ _ s.id user.id hash _ xs)
                (Triple-pure _ (λ d h. (new_session _ user.id hash _, h, refl, refl, same, hashed)))

  -- What a successful refresh found and left.
  abbrev pub Refreshed : Text → List Session → TokenResponse → Db → Type 0
  Refreshed token xs r d =
      (s : Session) × (first (has_hash (hash_token x token)) xs ≡ some s)
      × (s.revoked_at ≡ none)
      × Replaced s xs r d

  pub usable_session-Found :
      (token : Text) (xs : List Session)
      → Triple
          (λ d. d.refresh_sessions ≡ xs)
          (λ s d.
            (d.refresh_sessions ≡ xs)
            × ((first (has_hash (hash_token x token)) xs ≡ some s) × (s.revoked_at ≡ none)))
          Any
          (usable_session x c e token)
  unfolding usable_session session_by_hash
  usable_session-Found token xs = Triple-bind _ _ (Triple-query _ (λ d h. tt)) λ found.
      Triple-bind _ _ (Triple-or_throw found _ (λ d h. tt)) λ s.
        Triple-then _ _ (Triple-throw_if _ _ (λ d h. tt)) (
          Triple-then _ _ (Triple-throw_if _ _ (λ d h. tt)) (
            Triple-pure s (λ d h.
              (h.0.0.0.0, (at xs found s d h.0.0.0.0 h.0.0.0.1 h.0.0.1, unrevoked s h.0.1)))))
    where
      at :
          (xs : List Session) (found : Option Session) (s : Session) (d : Db)
          → d.refresh_sessions ≡ xs
          → found ≡ first (has_hash (hash_token x token)) d.refresh_sessions
          → found ≡ some s
          → first (has_hash (hash_token x token)) xs ≡ some s
      at xs found s d h k l =
          subst (λ ys. first (has_hash (hash_token x token)) ys ≡ some s) h (sym k ∙ l)

      unrevoked :
          (s : Session)
          → (elim s.revoked_at [ none ↦ false | some _ ↦ true ]) ≡ false
          → s.revoked_at ≡ none
      unrevoked s h = ground arith

  pub refresh_tokens-Refreshed :
      (token : Text) (xs : List Session)
      → Triple (λ d. d.refresh_sessions ≡ xs) (Refreshed token xs) Any (refresh_tokens x c e token)
  unfolding refresh_tokens
  refresh_tokens-Refreshed token xs = Triple-bind _ _ (usable_session-Found token xs) λ s.
      Triple-given _
        λ found. Triple-post _ (λ r d h. (s, found.0, found.1, h)) (replace_session-Replaced s xs)

-- Revocation and insertion keep the row that a token finds, but for its revocation.
first-rotated :
    (h : Text) (now : Time) (s t : Session) (xs : List Session)
    → first (has_hash h) xs ≡ some s
    → first (has_hash h) (rotated now s.id t xs) ≡ some (revoke now s)
unfolding has_hash has_session_id
first-rotated h now s t xs found = first-append_some (has_hash h) _ (t ∷ []) _ (
    first-update (has_hash h) (has_session_id s.id) (revoke now) xs (λ r. ground arith)
    ∙ rw found (rw (==_refl s.id)))

module _ (x : External) (c : Service) where
  revoked_refused :
      (e : Env) (token : Text) (d : Db) (s : Session) (now : Time)
      → first (has_hash (hash_token x token)) d.refresh_sessions ≡ some (revoke now s)
      → (refresh_tokens x c e token [] d).0 ≡ err (api session_revoked)
  unfolding refresh_tokens session_by_hash ◌>>=◌ ◌>>◌
  revoked_refused e token d s now h = rw h

  -- A used refresh token is dead: after a refresh that returned, whichever of its round trips
  -- failed, a second refresh with the same token, in a run without faults, is refused as revoked.
  pub reuse_refused :
      (e e' : Env) (token : Text) (fs : Faults) (d : Db) (r : TokenResponse)
      → (refresh_tokens x c e token fs d).0 ≡ ok r
      → (refresh_tokens x c e' token [] (refresh_tokens x c e token fs d).1).0
        ≡ err (api session_revoked)
  reuse_refused e e' token fs d r h =
      let (s, found, live, replaced) =
        Triple-ok _ (refresh_tokens-Refreshed x c e token d.refresh_sessions) fs d r refl h in
      revoked_refused e' token _ s e.clock.db
        (rw replaced.1 (first-rotated _ _ s replaced.0 d.refresh_sessions found))

-- ===== src/Auth/Login.antt =====
-- internal/auth/service.go, CheckCode with the right code: the user and the session of a login.
use meetgo_dating_server.Prelude.{
  true, false, ◌≤◌, All, All-mono, Memᴰ, first_is_in, first_nothing, ◌≢◌, ◌⊎◌, ◌+◌, Text, text_eq,
  text_eq_iff, first, count, update_rows, exists, ltb, leb, ==_refl, Bool-cases, Option, none, some,
  List, [], ◌∷◌, ◌++◌, ◌≡◌, refl, ap, inl, inr, arith, count-append, count_one, count-update_zero,
  first-some,
}
use meetgo_dating_server.Http.{Result, ok, err}
use meetgo_dating_server.Schema.{Uuid, Time, User, Otp, Session, Db}
use meetgo_dating_server.Exec.{Faults, throw, ignore_then}
use meetgo_dating_server.Exec.Triples.{
  Triple, Ends, Triple-ok, Triple-pure, Triple-given, Triple-pre, Triple-post, Triple-or_throw,
  Triple-query, Triple-statement, Triple-execute, Triple-in_tx, Triple-bind, Triple-then,
}
use meetgo_dating_server.Auth.External.{External}
use meetgo_dating_server.Auth.Email.{canonical_email}
use meetgo_dating_server.Auth.Token.{hash_token, hash_otp}
use meetgo_dating_server.Auth.Repository.{
  has_canonical, user_by_canonical_email, create_user, insert_user, new_user, conflicts_with,
  otp_of, otp_by_email, delete_otp, active_of, revoke, new_session, revoke_user_sessions,
  reset_session, insert_session, insert_session_row, session_conflict,
}
use meetgo_dating_server.Auth.Service.{
  Service, Env, TokenResponse, ensure_user, log_in, wrong_code, check_code,
}
use meetgo_dating_server.Auth.Sessions.{active_of-revoke}
use meetgo_dating_server.Auth.Rotation.{Any, issue_pair-Hash}

end_anywhere : {A : Type 0} (r : Result A × Db × Faults) → Ends (λ _ _. Unit) Any r
end_anywhere (ok a, d, fs) = tt
end_anywhere (err f, d, fs) = tt

module _ (x : External) (c : Service) (e : Env) (email : Text) (us : List User)
    (xs : List Session) where
  abbrev Rows : Db → Type 0
  Rows d = (d.users ≡ us) × (d.refresh_sessions ≡ xs)

  -- Whose login it is: a row with the canonical email, or a new one where there is none.
  abbrev pub IsUserOf : User → List User → Type 0
  IsUserOf user vs =
      (Memᴰ user us × (user.canonical_email ≡ canonical_email email) × (vs ≡ us))
      ⊎ (All (λ u. u.canonical_email ≢ canonical_email email) us
          × (user.id ≡ e.user_id)
          × (user.canonical_email ≡ canonical_email email)
          × (vs ≡ us ++ user ∷ []))

  -- What a login leaves: the sessions of the user revoked, and one more, of the returned token.
  pub record LoggedIn (r : TokenResponse) (d : Db) : Type 0 where
    pub user : User
    pub session : Session
    pub known : IsUserOf user d.users
    pub owner : session.user_id ≡ user.id
    pub live : session.revoked_at ≡ none
    pub token : session.token_hash ≡ hash_token x r.refresh_token
    pub ends : session.expires_at ≡ e.clock.app + c.refresh_ttl
    pub table :
        d.refresh_sessions ≡ update_rows (active_of user.id) (revoke e.clock.db) xs ++ session ∷ []
    pub mark : r.is_created_profile ≡ user.is_created_profile
    pub step : r.onboarding_step ≡ user.onboarding_step

  reset_session-Resets :
      (P : List User → Type 0) (u : Uuid) (hash : Text) (t : Time)
      → Triple
          (λ d. (d.refresh_sessions ≡ xs) × P d.users)
          (λ _ d.
            (d.refresh_sessions
              ≡ update_rows (active_of u) (revoke e.clock.db) xs
                ++ new_session e.session_id u hash t ∷ [])
            × P d.users)
          Any
          (reset_session e.clock.db e.session_id u hash t)
  unfolding reset_session revoke_user_sessions insert_session insert_session_row
  reset_session-Resets P u hash t =
      Triple-in_tx _ (λ d h. tt)
        (Triple-then
          {Mid = λ _ d.
            (d.refresh_sessions ≡ update_rows (active_of u) (revoke e.clock.db) xs) × P d.users}
          _ _
          (Triple-execute _ (λ d h. tt)
            (λ d h. (ap (update_rows (active_of u) (revoke e.clock.db)) h.0, h.1)))
          (Triple-statement _ (λ d h. tt)
            λ d h.
              elim (Bool-cases (
                exists (session_conflict (new_session e.session_id u hash t)) d.refresh_sessions)) [
                  | inl q ↦ rw q tt
                  | inr q ↦ rw q (ap (λ ss. ss ++ new_session e.session_id u hash t ∷ []) h.0, h.1)
                ]))

  ensure_user-IsUserOf :
      (found : Option User)
      → Triple
          (λ d. Rows d × (found ≡ first (has_canonical (canonical_email email)) d.users))
          (λ user d. (d.refresh_sessions ≡ xs) × IsUserOf user d.users)
          Any
          (ensure_user x c e email found)
  unfolding ensure_user create_user insert_user has_canonical
  ensure_user-IsUserOf none =
      Triple-statement _ (λ d h. tt)
        λ d h.
          elim (Bool-cases
            (exists (conflicts_with (new_user e.user_id email (canonical_email email))) d.users)) [
              | inl t ↦ rw t tt
              | inr t ↦
                  let nobody : first (has_canonical (canonical_email email)) us ≡ none =
                    cc (h.1, h.0.0) in
                  rw t (
                    h.0.1,
                    inr (
                      All-mono us (λ u other same. absurd (cc (other, (text_eq_iff _ _).1 same)))
                          (first_nothing (has_canonical (canonical_email email)) us nobody),
                      refl,
                      refl,
                      ap (λ vs. vs ++ new_user e.user_id email (canonical_email email) ∷ []) h.0.0,
                    ),
                  )
            ]
  ensure_user-IsUserOf (some user) = Triple-pure user (λ d h.
      let found : first (has_canonical (canonical_email email)) us ≡ some user = cc (h.1, h.0.0) in
      (
        h.0.1,
        inl (
          first_is_in (has_canonical (canonical_email email)) us user found,
          (text_eq_iff _ _).0 (first-some (has_canonical (canonical_email email)) us user found).0,
          h.0.0,
        ),
      ))

  log_in-LoggedIn : Triple Rows LoggedIn Any (log_in x c e email)
  unfolding log_in delete_otp user_by_canonical_email
  log_in-LoggedIn = Triple-then {Mid = λ _. Rows} _ _ (Triple-execute _ (λ d h. tt) (λ d h. h)) (
      Triple-bind _ _ (Triple-query _ (λ d h. tt)) λ found.
        Triple-bind _ _ (ensure_user-IsUserOf found) λ user.
          Triple-bind _ _
            (issue_pair-Hash x c e user.id (λ d. (d.refresh_sessions ≡ xs) × IsUserOf user d.users))
            λ (access, token, hash). Triple-given _ λ hashed.
              Triple-then _ _
                (reset_session-Resets (IsUserOf user) user.id hash (e.clock.app + c.refresh_ttl))
                (Triple-pure _ (λ d h. record {
                  user = user;
                  session = new_session e.session_id user.id hash (e.clock.app + c.refresh_ttl);
                  known = h.1;
                  owner = refl;
                  live = refl;
                  token = hashed;
                  ends = refl;
                  table = h.0;
                  mark = refl;
                  step = refl;
                })))

  only_session :
      (r : TokenResponse) (d : Db) (m : LoggedIn r d)
      → count (active_of m.user.id) d.refresh_sessions ≡ 1
  unfolding active_of
  only_session r d m =
      rw (m.table, count-append (active_of m.user.id))
        (omega (
          arith,
          count-update_zero (active_of m.user.id) (active_of m.user.id) (revoke e.clock.db) xs
              (λ s. ground (arith, active_of-revoke m.user.id e.clock.db s)),
          added,
        ))
    where
      added : count (active_of m.user.id) (m.session ∷ []) ≡ 1
      added = rw count_one (rw (m.owner, m.live) (rw (==_refl m.user.id)))

module _ (x : External) (e : Env) (email code : Text) where
  -- The code was stored for the email and had not expired.
  pub record HadCode (d : Db) : Type 0 where
    pub otp : Otp
    pub is_row : Memᴰ otp d.otp_codes
    pub of_email : otp.email ≡ email
    pub right : otp.code_hash ≡ hash_otp x email code
    pub in_time : e.clock.app ≤ otp.expires_at

  had_code :
      (d0 d : Db) (found : Option Otp) (otp : Otp)
      → d ≡ d0
      → found ≡ first (otp_of email) d.otp_codes
      → found ≡ some otp
      → ltb otp.expires_at e.clock.app ≡ false
      → text_eq otp.code_hash (hash_otp x email code) ≡ true
      → HadCode d0
  unfolding otp_of
  had_code d0 d found otp same p f live q =
      let stored : first (otp_of email) d0.otp_codes ≡ some otp = cc (same, p, f) in
      record {
        otp = otp;
        is_row = first_is_in (otp_of email) d0.otp_codes otp stored;
        of_email =
            (text_eq_iff otp.email email).0 (first-some (otp_of email) d0.otp_codes otp stored).0;
        right = (text_eq_iff otp.code_hash (hash_otp x email code)).0 q;
        in_time = ground (arith, live);
      }

module _ (x : External) (c : Service) (e : Env) (email code : Text) where
  wrong_code-Fails :
      {P : Db → Type 0} {Post : TokenResponse → Db → Type 0}
      → Triple P Post Any (wrong_code x c e email)
  unfolding wrong_code ignore_then throw
  wrong_code-Fails =
      Triple-bind {Mid = λ _ _. Unit} _ _ (record { at = λ fs d h. end_anywhere _ })
        λ n. elim (Bool-cases (leb 5 n)) [
          | inl t ↦ rw t (record { at = λ fs d h. tt })
          | inr t ↦ rw t (record { at = λ fs d h. tt })
        ]

  check_code-Post :
      (d0 : Db)
      → Triple
          (λ d. d ≡ d0)
          (λ r d. HadCode x e email code d0 × LoggedIn x c e email d0.users d0.refresh_sessions r d)
          Any
          (check_code x c e email code)
  unfolding check_code otp_by_email ignore_then throw
  check_code-Post d0 = Triple-bind _ _ (Triple-query _ (λ d h. tt)) λ found.
      Triple-bind _ _ (Triple-or_throw found _ (λ d h. tt)) λ otp.
        elim (Bool-cases (ltb otp.expires_at e.clock.app)) [
          | inl t ↦ rw t (record { at = λ fs d h. tt })
          | inr t ↦ rw t (elim (Bool-cases (text_eq otp.code_hash (hash_otp x email code))) [
            | inl q ↦ rw q (
                Triple-pre _
                  (λ d ((same, p), f). (
                    (ap (λ e. e.users) same, ap (λ e. e.refresh_sessions) same),
                    had_code x e email code d0 d found otp same p f t q,
                  ))
                  (Triple-given _ λ had.
                    Triple-post _ (λ r d m. (had, m))
                      (log_in-LoggedIn x c e email d0.users d0.refresh_sessions)))
            | inr q ↦ rw q wrong_code-Fails
          ])
        ]

module _ (x : External) (c : Service) (e : Env) where
  -- Whichever round trips fail: a check of a code that returns had the code of a stored row of the
  -- email that had not expired, and is a login of a user that was a row with the canonical email, the
  -- table of users then unchanged, or, where no row had it, of a user who is appended with it. It
  -- revokes the sessions of that user and adds one, of the returned refresh token, so that this is the
  -- only session of the user that is not revoked; the answer has the mark and the step of the user.
  pub check_code-LoggedIn :
      (email code : Text) (fs : Faults) (d : Db) (r : TokenResponse)
      → (check_code x c e email code fs d).0 ≡ ok r
      → HadCode x e email code d
        × ((m : LoggedIn x c e email d.users d.refresh_sessions r
              (check_code x c e email code fs d).1)
            × (count (active_of m.user.id) (check_code x c e email code fs d).1.refresh_sessions
                ≡ 1))
  check_code-LoggedIn email code fs d r h =
      let (had, m) = Triple-ok _ (check_code-Post x c e email code d) fs d r refl h in
      (
        had,
        (
          m,
          only_session x c e email d.users d.refresh_sessions r (check_code x c e email code fs d).1
              m,
        ),
      )

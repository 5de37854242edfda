-- ===== src/Auth/Sessions.antt =====
-- internal/auth/service.go and repository.go: what the calls do to the sessions of a user.
pub mod Requests
use meetgo_dating_server.Prelude.{
  ℕ, ◌+◌, ◌≤◌, Text, first, count, update_rows, exists, ==_iff, ◌==◌, if◌then◌else◌, Bool-cases,
  Bool, true, false, ◌&&◌, Option, none, some, List, [], ◌∷◌, ◌++◌, ◌≡◌, refl, subst, ==_refl, sym,
  inl, inr, arith, &&_elim, count-append, count_one, count-update_zero, count-update_le,
  count-update_out, first-some, first-count,
}
use native.Mathlib.Nat.{le_trans}
use meetgo_dating_server.Http.{Result, ok, err}
use meetgo_dating_server.Schema.{Uuid, Time, User, Session, Db}
use meetgo_dating_server.Exec.{
  Faults, Exec, pure, throw, lift, or_throw, throw_if, in_tx, ◌>>=◌, ◌>>◌, execute, statement,
}
use meetgo_dating_server.Exec.Keeps.{
  Keeps, Keeps-execute, Keeps-statement, Keeps-if, Keeps-pure, Keeps-bind, Keeps-lift, keeps_rules,
}
use meetgo_dating_server.Exec.Triples.{
  Triple, Ends, Keeps-of_Triple, Triple-of_Keeps, Triple-pure, Triple-lift, Triple-or_throw,
  Triple-statement, Triple-query, Triple-post, Triple-in_tx, Triple-throw_if, Triple-execute,
  Triple-bind, Triple-then,
}
use meetgo_dating_server.Auth.External.{External}
use meetgo_dating_server.Auth.Token.{issue_access, new_refresh_token, hash_token}
use meetgo_dating_server.Auth.Repository.{
  is_active, active_of, has_session_id, has_hash, revoke, new_session, revoke_user_sessions,
  revoke_session, insert_session_row, session_conflict, insert_session, reset_session,
  rotate_session, session_by_hash, user_by_id, has_user_id, create_user, insert_user, upsert_otp,
  increment_otp_attempts, bump_attempts, delete_otp, insert_send_event, otp_by_email,
  user_by_canonical_email, last_send_at, count_sends_by_email_since, count_sends_by_ip_since,
}
use meetgo_dating_server.Auth.Service.{
  Service, Env, send_code, send_mail, check_code, wrong_code, log_in, ensure_user, issue_pair,
  usable_session, replace_session, refresh_tokens, logout,
}

abbrev pub IsSingle : Db → Type 0
IsSingle d = (u : Uuid) → count (active_of u) d.refresh_sessions ≤ 1

pub active_of-revoke : (v : Uuid) (now : Time) (s : Session) → active_of v (revoke now s) ≡ false
unfolding active_of
active_of-revoke v now s = ground arith

active_of-new_session :
    (v id u : Uuid) (hash : Text) (t : Time) → active_of v (new_session id u hash t) ≡ (u == v)
unfolding active_of
active_of-new_session v id u hash t = ground arith

-- Revoke all sessions of `u`; then add one.
abbrev HasNone : Uuid → Db → Type 0
HasNone u d = IsSingle d × (count (active_of u) d.refresh_sessions ≡ 0)

revoke_all-HasNone :
    (now : Time) (u : Uuid) → Triple IsSingle (λ _. HasNone u) IsSingle (revoke_user_sessions now u)
unfolding revoke_user_sessions
revoke_all-HasNone now u =
    Triple-execute _ (λ d h. h)
      λ d h. (
        λ v.
            le_trans
              (count-update_le (active_of v) (active_of u) (revoke now) d.refresh_sessions
                (still v))
              (h v),
        count-update_zero (active_of u) (active_of u) (revoke now) d.refresh_sessions all,
      )
  where
    still :
        (v : Uuid) (s : Session)
        → active_of v (if active_of u s then revoke now s else s) ≡ true
        → active_of v s ≡ true
    still v s = ground (arith, active_of-revoke v now s)

    all : (s : Session) → active_of u (if active_of u s then revoke now s else s) ≡ false
    all s = ground (arith, active_of-revoke u now s)

module _ (id u : Uuid) (hash : Text) (t : Time) where
  count-add :
      (v : Uuid) (xs : List Session)
      → count (active_of v) (xs ++ new_session id u hash t ∷ [])
        ≡ count (active_of v) xs + (if u == v then 1 else 0)
  count-add v xs = rw (count-append (active_of v), count_one, active_of-new_session) refl

  add-IsSingle : Triple (HasNone u) (λ _. IsSingle) IsSingle (insert_session id u hash t)
  unfolding insert_session insert_session_row
  add-IsSingle =
      Triple-statement _ (λ d h. h.0)
        λ d h.
          elim (Bool-cases
            (exists (session_conflict (new_session id u hash t)) d.refresh_sessions)) [
              | inl e ↦ rw e h.0
              | inr e ↦ rw e (λ v. rw count-add (ground (arith, h.0 v, h.1, ==_iff u v)))
            ]

-- Logging in: whatever fails, at most one session is left active.
pub reset_session-IsSingle :
    (now : Time) (id u : Uuid) (hash : Text) (t : Time)
    → Keeps IsSingle (reset_session now id u hash t)
unfolding reset_session
reset_session-IsSingle now id u hash t = Keeps-of_Triple _ (
    Triple-in_tx _ (λ d h. h)
      (Triple-then _ _ (revoke_all-HasNone now u) (add-IsSingle id u hash t)))

pub revoke_user_sessions-IsSingle :
    (now : Time) (u : Uuid) → Keeps IsSingle (revoke_user_sessions now u)
revoke_user_sessions-IsSingle now u =
    Keeps-of_Triple _ (Triple-post _ (λ _ d h. h.0) (revoke_all-HasNone now u))

-- Rotation: the session that is replaced is active, and belongs to the user of the new one.
abbrev pub Owns : Session → Db → Type 0
Owns s d =
    IsSingle d
    × (1 ≤ count (λ r. active_of s.user_id r && has_session_id s.id r) d.refresh_sessions)

revoke_one-HasNone :
    (now : Time) (s : Session)
    → Triple (Owns s) (λ _. HasNone s.user_id) IsSingle (revoke_session now s.id)
unfolding revoke_session
revoke_one-HasNone now s =
    Triple-execute _ (λ d h. h.0)
      λ d h. (
        λ v.
            le_trans
              (count-update_le (active_of v) (has_session_id s.id) (revoke now) d.refresh_sessions
                (still v))
              (h.0 v),
        omega (
          arith,
          h.0 s.user_id,
          h.1,
          count-update_out (active_of s.user_id) (has_session_id s.id) (revoke now)
              d.refresh_sessions (λ r _. active_of-revoke s.user_id now r),
        ),
      )
  where
    still :
        (v : Uuid) (r : Session)
        → active_of v (if has_session_id s.id r then revoke now r else r) ≡ true
        → active_of v r ≡ true
    still v r = ground (arith, active_of-revoke v now r)

rotate_session-IsSingle :
    (now : Time) (id : Uuid) (s : Session) (hash : Text) (t : Time)
    → Triple (Owns s) (λ _. IsSingle) IsSingle (rotate_session now id s.id s.user_id hash t)
unfolding rotate_session
rotate_session-IsSingle now id s hash t =
    Triple-in_tx _ (λ d h. h.0)
      (Triple-then _ _ (revoke_one-HasNone now s) (add-IsSingle id s.user_id hash t))

-- What `usable_session` returns was found, is not revoked, and so is owned.
module _ (x : External) (c : Service) (e : Env) where
  pub found-Owns :
      (d : Db) (hash : Text) (s : Session)
      → IsSingle d
      → first (has_hash hash) d.refresh_sessions ≡ some s
      → (elim s.revoked_at [ none ↦ false | some _ ↦ true ]) ≡ false
      → Owns s d
  unfolding active_of has_session_id
  found-Owns d hash s h found live = (
    h,
    first-count (has_hash hash) (λ r. active_of s.user_id r && has_session_id s.id r)
        d.refresh_sessions s found (ground (arith, live, ==_refl s.user_id, ==_refl s.id)),
  )

  pub usable_session-Owns :
      (token : Text) → Triple IsSingle (λ s. Owns s) IsSingle (usable_session x c e token)
  unfolding usable_session session_by_hash
  usable_session-Owns token = Triple-bind _ _ (Triple-query _ (λ d h. h)) λ found.
      Triple-bind _ _ (Triple-or_throw found _ (λ d h. h.0)) λ s.
        Triple-then _ _ (Triple-throw_if _ _ (λ d h. h.0.0)) (
          Triple-then _ _ (Triple-throw_if _ _ (λ d h. h.0.0.0)) (
            Triple-pure s
              λ d h. found-Owns d (hash_token x token) s h.0.0.0.0 (cc (h.0.0.0.1, h.0.0.1)) h.0.1))

  -- Issuing the tokens touches no table.
  issue_pair-Triple :
      {Pre Fail : Db → Type 0} (u : Uuid)
      → ((d : Db) → Pre d → Fail d)
      → Triple Pre (λ _. Pre) Fail (issue_pair x c e u)
  unfolding issue_pair
  issue_pair-Triple u weak = Triple-bind _ _ (Triple-lift _ weak) λ access.
      Triple-bind _ _ (Triple-lift _ (λ d h. weak d h.0)) λ pair. Triple-pure _ (λ d h. h.0.0)

  owner-Owns :
      (s : Session) (user : User) (d : Db)
      → first (has_user_id s.user_id) d.users ≡ some user
      → Owns s d
      → (s.user_id ≡ user.id) × Owns s d
  unfolding has_user_id
  owner-Owns s user d p h =
      (sym ((==_iff _ _).0 (first-some (has_user_id s.user_id) d.users user p).0), h)

  rotate_for-IsSingle :
      (s : Session) (u : Uuid) (hash : Text) (t : Time)
      → Triple
          (λ d. (s.user_id ≡ u) × Owns s d)
          (λ _. IsSingle)
          IsSingle
          (rotate_session e.clock.db e.session_id s.id u hash t)
  rotate_for-IsSingle s u hash t = record {
    at = λ fs d h.
        subst
          (λ v.
            Ends (λ _. IsSingle) IsSingle
              (rotate_session e.clock.db e.session_id s.id v hash t fs d))
          h.0 ((rotate_session-IsSingle e.clock.db e.session_id s hash t).at fs d h.1);
  }

  replace_session-IsSingle :
      (s : Session) → Triple (Owns s) (λ _. IsSingle) IsSingle (replace_session x c e s)
  unfolding replace_session user_by_id
  replace_session-IsSingle s = Triple-bind _ _ (Triple-query _ (λ d h. h.0)) λ found.
      Triple-bind _ _
        (Triple-post _ (λ user d h. owner-Owns s user d (cc (h.0.1, h.1)) h.0.0)
          (Triple-or_throw found _ (λ d h. h.0.0)))
        λ user.
          Triple-bind _ _ (issue_pair-Triple user.id (λ d h. h.1.0)) λ (access, refresh, hash).
            Triple-then _ _ (rotate_for-IsSingle s user.id hash _) (Triple-pure _ (λ d h. h))

  pub refresh_tokens-IsSingle : (token : Text) → Keeps IsSingle (refresh_tokens x c e token)
  unfolding refresh_tokens
  refresh_tokens-IsSingle token =
      Keeps-of_Triple _ (Triple-bind _ _ (usable_session-Owns token) replace_session-IsSingle)

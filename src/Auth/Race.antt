-- ===== src/Auth/Race.antt =====
-- internal/auth/service.go, Refresh, in two interleaved calls: each reads the session before the
-- other replaces it.
use meetgo_dating_server.Prelude.{
  ◌+◌, ◌≤◌, Text, count, update_rows, ==_refl, Bool, ◌&&◌, none, List, [], ◌∷◌, ◌≡◌, ◌≢◌, refl, ap,
  sym, ◌∙◌, arith, count-append, count_one, count-update_out, count-update_zero, count_mono,
}
use meetgo_dating_server.Http.{ok}
use meetgo_dating_server.Schema.{Uuid, Time, Session, Db}
use meetgo_dating_server.Exec.{Faults}
use meetgo_dating_server.Exec.Triples.{Triple-ok}
use meetgo_dating_server.Auth.External.{External}
use meetgo_dating_server.Auth.Token.{hash_token}
use meetgo_dating_server.Auth.Repository.{active_of, has_session_id, revoke}
use meetgo_dating_server.Auth.Service.{Service, Env, TokenResponse, usable_session, replace_session}
use meetgo_dating_server.Auth.Sessions.{IsSingle, found-Owns, active_of-revoke}
use meetgo_dating_server.Auth.Rotation.{rotated, usable_session-Found, replace_session-Replaced}

active_and_named : Uuid → Uuid → Session → Bool
active_and_named u old r = active_of u r && has_session_id old r

-- Counting through one rotation, by whether the session `old` was active.
count-rotated :
    (now : Time) (u old : Uuid) (t : Session) (xs : List Session)
    → t.user_id ≡ u
    → t.revoked_at ≡ none
    → count (active_of u) (rotated now old t xs) + count (active_and_named u old) xs
      ≡ count (active_of u) xs + 1
unfolding active_and_named active_of
count-rotated now u old t xs own live = omega (
  arith,
  count-append (active_of u) (update_rows (has_session_id old) (revoke now) xs) (t ∷ []),
  added,
  count-update_out (active_of u) (has_session_id old) (revoke now) xs
      (λ r _. active_of-revoke u now r),
)
  where
    added : count (active_of u) (t ∷ []) ≡ 1
    added = rw count_one (rw (own, live) (rw (==_refl u)))

-- After a rotation no active session has the old id, unless the new one has.
count-named_rotated :
    (now : Time) (u old : Uuid) (t : Session) (xs : List Session)
    → t.id ≢ old
    → count (active_and_named u old) (rotated now old t xs) ≡ 0
unfolding active_and_named active_of has_session_id
count-named_rotated now u old t xs fresh = omega (
  arith,
  count-append (active_and_named u old) (update_rows (has_session_id old) (revoke now) xs) (t ∷ []),
  added,
  count-update_zero (active_and_named u old) (has_session_id old) (revoke now) xs
      (λ r. ground arith),
)
  where
    added : count (active_and_named u old) (t ∷ []) ≡ 0
    added = rw count_one (ground arith)

named-le-active :
    (u old : Uuid) (xs : List Session) → count (active_and_named u old) xs ≤ count (active_of u) xs
unfolding active_and_named
named-le-active u old xs = count_mono (active_and_named u old) (active_of u) xs (λ r. ground arith)

module _ (x : External) (c : Service) (e e1 e2 : Env) (token : Text) (fs fs1 fs2 : Faults) (d : Db)
    (s : Session) where
  -- From a database where every user has at most one session that is not revoked, two refreshes
  -- read the same usable session, and then both replace it. If both return, and the id of the
  -- first new session is not that of the old one, then the user has two sessions that are not
  -- revoked.
  pub double_refresh :
      (r1 r2 : TokenResponse)
      → IsSingle d
      → (usable_session x c e token fs d).0 ≡ ok s
      → e1.session_id ≢ s.id
      → (replace_session x c e1 s fs1 d).0 ≡ ok r1
      → (replace_session x c e2 s fs2 (replace_session x c e1 s fs1 d).1).0 ≡ ok r2
      → count
          (active_of s.user_id)
          (replace_session x c e2 s fs2 (replace_session x c e1 s fs1 d).1).1.refresh_sessions
        ≡ 2
  unfolding active_and_named
  double_refresh r1 r2 h read fresh ok1 ok2 =
      let (found, live) =
        (Triple-ok _ (usable_session-Found x c e token d.refresh_sessions) fs d s refl read).1 in
      let (single, owned) = found-Owns x c e d (hash_token x token) s h found (rw live) in
      let (t1, after1, live1, id1, owner1, _) =
        Triple-ok _ (replace_session-Replaced x c e1 s d.refresh_sessions) fs1 d r1 refl ok1 in
      let d1 = (replace_session x c e1 s fs1 d).1 in
      let (t2, after2, live2, id2, owner2, _) =
        Triple-ok _ (replace_session-Replaced x c e2 s d1.refresh_sessions) fs2 d1 r2 refl ok2 in
      rw after2 (
        omega (
          arith,
          single s.user_id,
          owned,
          named-le-active s.user_id s.id d.refresh_sessions,
          count-rotated e1.clock.db s.user_id s.id t1 d.refresh_sessions owner1 live1,
          count-rotated e2.clock.db s.user_id s.id t2 d1.refresh_sessions owner2 live2,
          ap (count (active_of s.user_id)) after1,
          ap (count (active_and_named s.user_id s.id)) after1,
          count-named_rotated e1.clock.db s.user_id s.id t1 d.refresh_sessions
              (λ p. fresh (sym id1 ∙ p)),
        ))

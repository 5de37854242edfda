-- ===== src/Meeting/Acceptance.antt =====
-- internal/meeting/candidate_service.go, Accept.
use meetgo_dating_server.Prelude.{
  Bool, first, exists, update_rows, ◌==◌, Bool, Bool-cases, true, ◌&&◌, some, [], ◌∷◌, ◌++◌, ◌≡◌,
  refl, sym, ap, arith, inl, inr, ◌∙◌, &&_elim, first-update, first-some,
}
use meetgo_dating_server.Http.{ok, err, api}
use meetgo_dating_server.Schema.{Uuid, Candidate, pending, accepted, Db}
use meetgo_dating_server.Exec.{Faults, ◌>>=◌, ◌>>◌}
use meetgo_dating_server.Exec.Triples.{
  Triple, Triple-ok, Triple-or_throw, Triple-statement, Triple-query, Triple-given, Triple-post,
  Triple-in_tx, Triple-throw_if, Triple-bind, Triple-then,
}
use meetgo_dating_server.Meeting.Errors.{like_not_pending}
use meetgo_dating_server.Meeting.Repository.{profile_for_user, profile_of_user}
use meetgo_dating_server.Meeting.Rows.{
  IsProfileOf, profile_of_user-IsProfileOf, IsLikeOn, first-IsLikeOn, is_pending_lem,
}
use meetgo_dating_server.Meeting.Candidates.{
  is_pending, authored_by, candidate_for_author, pending_named, set_like, decide_like,
  chat_conflict, insert_chat, accept_candidate, require_own_candidate, accept,
}

abbrev Any : Db → Type 0
Any d = Unit

-- What an acceptance leaves: the like accepted and its chat at the end of the table.
abbrev pub accepted_db : Uuid → Uuid → Db → Db
accepted_db chat_id id d = record d {
  meeting_candidates =
      update_rows (λ c. c.id == id && is_pending c.status) (λ c. record c { status = accepted })
        d.meeting_candidates;
  chats = d.chats ++ record { id = chat_id; meeting_candidate_id = id } ∷ [];
}

module _ (user_id id : Uuid) where
  -- The user's profile is the author of the ad of the like, and the like is the one with the id.
  pub record OwnLike (d : Db) : Type 0 where
    pub author : Uuid
    pub is_complete : Bool
    pub cand : Candidate
    pub has_profile : profile_of_user user_id d ≡ some (author, is_complete)
    pub has_like :
        first (λ c. c.id == id && authored_by author d.meeting_ads c) d.meeting_candidates
        ≡ some cand

  require-OwnLike :
      (d0 : Db)
      → Triple
          (λ d. d ≡ d0)
          (λ c d. (d ≡ d0) × ((m : OwnLike d0) × (m.cand ≡ c)))
          Any
          (require_own_candidate user_id id)
  unfolding require_own_candidate profile_for_user candidate_for_author
  require-OwnLike d0 = Triple-bind _ _ (Triple-query _ (λ d h. tt)) λ found.
      Triple-bind _ _ (Triple-or_throw found _ (λ d h. tt)) λ (author, is_complete).
        Triple-bind _ _ (Triple-query _ (λ d h. tt)) λ found_like.
          Triple-post _
            (λ c d ((((same, p), f), q), g). (
              same,
              (
                record {
                  author = author;
                  is_complete = is_complete;
                  cand = c;
                  has_profile = cc (same, p, f);
                  has_like =
                      sym (
                        ap
                          (λ e.
                            first (λ c. c.id == id && authored_by author e.meeting_ads c)
                              e.meeting_candidates)
                          same)
                      ∙ (sym q ∙ g);
                },
                refl,
              ),
            ))
            (Triple-or_throw found_like _ (λ d h. tt))

  accept_candidate-Post :
      (chat_id : Uuid) (d0 : Db)
      → Triple
          (λ d. d ≡ d0)
          (λ _ d. d ≡ accepted_db chat_id id d0)
          Any
          (accept_candidate chat_id id)
  unfolding accept_candidate decide_like insert_chat
  accept_candidate-Post chat_id d0 =
      Triple-in_tx _ (λ d h. tt)
        (Triple-then
          {Mid = λ _ d. d ≡ record d0 {
            meeting_candidates =
                update_rows (pending_named id) (set_like accepted) d0.meeting_candidates;
          }}
          _ _
          (Triple-statement _ (λ d h. tt)
            λ d h. elim (Bool-cases (exists (pending_named id) d.meeting_candidates)) [
              | inl e ↦ rw e (
                  ap {A = Db}
                    (λ d. record d {
                      meeting_candidates =
                          update_rows (pending_named id) (set_like accepted) d.meeting_candidates;
                    })
                    h)
              | inr e ↦ rw e tt
            ])
          (Triple-statement _ (λ d h. tt)
            λ d h.
              elim (Bool-cases (
                exists (chat_conflict (record { id = chat_id; meeting_candidate_id = id }))
                  d.chats)) [
                    | inl e ↦ rw e tt
                    | inr e ↦ rw e (
                        ap {A = Db}
                          (λ d. record d {
                            chats =
                                d.chats ++ record { id = chat_id; meeting_candidate_id = id } ∷ [];
                          })
                          h)
                  ]))

  accept-Post :
      (chat_id : Uuid) (d0 : Db)
      → Triple
          (λ d. d ≡ d0)
          (λ _ d.
            (m : OwnLike d0) × (is_pending m.cand.status ≡ true) × (d ≡ accepted_db chat_id id d0))
          Any
          (accept chat_id user_id id)
  unfolding accept
  accept-Post chat_id d0 = Triple-bind _ _ (require-OwnLike d0) λ c.
      Triple-given {F = (m : OwnLike d0) × (m.cand ≡ c)} {Pre = λ d. d ≡ d0} _ λ (m, same).
        Triple-then _ _ (Triple-throw_if _ _ (λ d h. tt)) (
          Triple-given _ λ p.
            Triple-post _ (λ _ d h. (m, ground (arith, p, same), h))
              (accept_candidate-Post chat_id d0))

  still_own :
      (chat_id : Uuid) (d : Db) (m : OwnLike d)
      → is_pending m.cand.status ≡ true
      → first
          (λ c. c.id == id && authored_by m.author d.meeting_ads c)
          (update_rows
            (λ c. c.id == id && is_pending c.status)
            (λ c. record c { status = accepted })
            d.meeting_candidates)
        ≡ some (set_like accepted m.cand)
  unfolding pending_named authored_by
  still_own chat_id d m was =
      let named : (m.cand.id == id) ≡ true =
        (&&_elim _ _
          (first-some (λ c. c.id == id && authored_by m.author d.meeting_ads c) d.meeting_candidates
            m.cand m.has_like).0).0 in
      let wanted : pending_named id m.cand ≡ true = ground (arith, named, was) in
      first-update (λ c. c.id == id && authored_by m.author d.meeting_ads c) (pending_named id)
        (set_like accepted) d.meeting_candidates (λ c. ground arith)
      ∙ rw m.has_like (rw wanted refl)

  accepted_refused :
      (chat_id chat' : Uuid) (d : Db) (m : OwnLike d)
      → is_pending m.cand.status ≡ true
      → (accept chat' user_id id [] (accepted_db chat_id id d)).0 ≡ err (api like_not_pending)
  unfolding accept require_own_candidate profile_for_user candidate_for_author profile_of_user ◌>>=◌
      ◌>>◌
  accepted_refused chat_id chat' d m was = rw (m.has_profile, still_own chat_id d m was) refl

  -- A like is accepted once: after an acceptance that returned, whichever of its round trips
  -- failed, another acceptance of the same like by the same user, in a run without faults, is
  -- refused as already handled.
  pub accept_once :
      (chat_id chat' : Uuid) (fs : Faults) (d : Db) (r : Uuid)
      → (accept chat_id user_id id fs d).0 ≡ ok r
      → (accept chat' user_id id [] (accept chat_id user_id id fs d).1).0
        ≡ err (api like_not_pending)
  accept_once chat_id chat' fs d r h =
      let (m, was, after) = Triple-ok _ (accept-Post chat_id d) fs d r refl h in
      rw after (accepted_refused chat_id chat' d m was)

  -- Who may accept: the user whose profile is the author of the ad of the like, while it is pending.
  pub record MayAccept (d : Db) : Type 0 where
    pub author : Uuid
    pub mark : Bool
    pub cand : Candidate
    pub has_profile : IsProfileOf user_id author mark d
    pub is_like : IsLikeOn author id cand d
    pub was_pending : cand.status ≡ pending

  may_accept : (d : Db) (m : OwnLike d) → is_pending m.cand.status ≡ true → MayAccept d
  may_accept d m was = record {
    author = m.author;
    mark = m.is_complete;
    cand = m.cand;
    has_profile = profile_of_user-IsProfileOf user_id m.author m.is_complete d m.has_profile;
    is_like = first-IsLikeOn m.author id m.cand d m.has_like;
    was_pending = is_pending_lem m.cand.status was;
  }

  -- Whatever round trips fail: an acceptance that returns was by the user whose profile is the author of
  -- the ad of the like, which is a row with that id and was pending. Afterwards the like is a row with the
  -- status accepted, the other rows of likes are unchanged, and a chat of the like is appended
  -- with the id that the database generates; nothing else is changed.
  pub accept-MayAccept :
      (chat_id : Uuid) (fs : Faults) (d : Db) (r : Uuid)
      → (accept chat_id user_id id fs d).0 ≡ ok r
      → MayAccept d × ((accept chat_id user_id id fs d).1 ≡ accepted_db chat_id id d)
  accept-MayAccept chat_id fs d r h =
      let (m, was, after) = Triple-ok _ (accept-Post chat_id d) fs d r refl h in
      (may_accept d m was, after)

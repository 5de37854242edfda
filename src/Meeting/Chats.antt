-- ===== src/Meeting/Chats.antt =====
-- internal/meeting/candidate_service.go and candidate_repository.go: the likes and their chats.
use meetgo_dating_server.Prelude.{
  ◌+◌, ◌≤◌, count, exists, update_rows, ==_iff, ◌==◌, if◌then◌else◌, Bool, Bool-cases, true, false,
  ◌&&◌, List, ◌≡◌, inl, inr, arith, count-append, count_one, count-update_in, count-update_eq,
  count_mono,
}
use meetgo_dating_server.Schema.{
  Uuid, Time, Clock, Candidate, LikeStatus, pending, accepted, rejected, Db,
}
use meetgo_dating_server.Exec.{statement}
use meetgo_dating_server.Exec.Keeps.{Keeps, Keeps-statement, keeps_rules}
use meetgo_dating_server.Exec.Triples.{
  Triple, Keeps-of_Triple, Triple-statement, Triple-in_tx, Triple-then,
}
use meetgo_dating_server.Meeting.Repository.{profile_for_user, ad_by_id}
use meetgo_dating_server.Meeting.Candidates.{
  has_candidate_id, response_to, insert_candidate, create_candidate, pending_named, set_like,
  decide_like, chat_of, chat_conflict, insert_chat, accept_candidate, reject_candidate,
  candidate_for_author, like, accept, reject, require_own_candidate,
}

abbrev pub is_accepted : LikeStatus → Bool
is_accepted pending = false
is_accepted accepted = true
is_accepted rejected = false

unfoldable pub accepted_named : Uuid → Candidate → Bool
accepted_named id c = c.id == id && is_accepted c.status

-- Ids of likes are unique, and the chats of a like are as many as it is accepted.
pub record ChatsMatch (d : Db) : Type 0 where
  pub one_row : (id : Uuid) → count (has_candidate_id id) d.meeting_candidates ≤ 1
  pub chats :
      (id : Uuid) → count (chat_of id) d.chats ≡ count (accepted_named id) d.meeting_candidates

module _ (id : Uuid) (cs : List Candidate) where
  count-decided_id :
      (status : LikeStatus) (j : Uuid)
      → count (has_candidate_id j) (update_rows (pending_named id) (set_like status) cs)
        ≡ count (has_candidate_id j) cs
  unfolding has_candidate_id
  count-decided_id status j =
      count-update_eq (has_candidate_id j) (pending_named id) (set_like status) cs
        (λ c. ground arith)

  count-rejected :
      (j : Uuid)
      → count (accepted_named j) (update_rows (pending_named id) (set_like rejected) cs)
        ≡ count (accepted_named j) cs
  unfolding accepted_named pending_named
  count-rejected j =
      count-update_eq (accepted_named j) (pending_named id) (set_like rejected) cs
        (λ c. ground arith)

  count-accepted_self :
      count (accepted_named id) (update_rows (pending_named id) (set_like accepted) cs)
      ≡ count (accepted_named id) cs + count (pending_named id) cs
  unfolding accepted_named pending_named
  count-accepted_self =
      count-update_in (accepted_named id) (pending_named id) (set_like accepted) cs
        (λ c. ground arith)

  count-accepted_other :
      (j : Uuid)
      → (id == j) ≡ false
      → count (accepted_named j) (update_rows (pending_named id) (set_like accepted) cs)
        ≡ count (accepted_named j) cs
  unfolding accepted_named pending_named
  count-accepted_other j ne =
      count-update_eq (accepted_named j) (pending_named id) (set_like accepted) cs
        (λ c. ground arith)

  pending-le-id : count (pending_named id) cs ≤ count (has_candidate_id id) cs
  unfolding pending_named has_candidate_id
  pending-le-id = count_mono (pending_named id) (has_candidate_id id) cs (λ c. ground arith)

  count-accepted :
      (j : Uuid)
      → count (has_candidate_id id) cs ≤ 1
      → exists (pending_named id) cs ≡ true
      → count (accepted_named j) (update_rows (pending_named id) (set_like accepted) cs)
        ≡ count (accepted_named j) cs + (if id == j then 1 else 0)
  count-accepted j one found = elim (Bool-cases (id == j)) [
    | inl e ↦ ground (arith, e, (==_iff id j).0 e, one, found, pending-le-id, count-accepted_self)
    | inr e ↦ ground (arith, e, count-accepted_other j e)
  ]

-- After the UPDATE of an acceptance one chat is missing, that of `id`.
record OneMissing (id : Uuid) (d : Db) : Type 0 where
  one_row : (j : Uuid) → count (has_candidate_id j) d.meeting_candidates ≤ 1
  chats :
      (j : Uuid)
      → count (chat_of j) d.chats + (if id == j then 1 else 0)
        ≡ count (accepted_named j) d.meeting_candidates

abbrev Any : Db → Type 0
Any d = Unit

accept-OneMissing :
    (id : Uuid) → Triple ChatsMatch (λ _. OneMissing id) Any (statement (decide_like id accepted))
unfolding decide_like
accept-OneMissing id =
    Triple-statement _ (λ d h. tt)
      λ d h. elim (Bool-cases (exists (pending_named id) d.meeting_candidates)) [
        | inl e ↦ rw e (record {
          one_row = λ j. rw count-decided_id (h.one_row j);
          chats = λ j. rw (count-accepted id d.meeting_candidates j (h.one_row id) e) (rw h.chats);
        })
        | inr e ↦ rw e tt
      ]

chat-ChatsMatch :
    (chat_id id : Uuid)
    → Triple
        (OneMissing id)
        (λ _. ChatsMatch)
        Any
        (statement (insert_chat (record { id = chat_id; meeting_candidate_id = id })))
unfolding insert_chat
chat-ChatsMatch chat_id id =
    Triple-statement _ (λ d h. tt)
      λ d h.
        elim (Bool-cases
          (exists (chat_conflict (record { id = chat_id; meeting_candidate_id = id })) d.chats)) [
            | inl e ↦ rw e tt
            | inr e ↦ rw e (record {
              one_row = h.one_row;
              chats = λ j. rw (count-append (chat_of j), count_one) (unfold chat_of in h.chats j);
            })
          ]

-- Accepting is atomic: a fault leaves the likes and the chats as they were.
pub accept_candidate-ChatsMatch :
    (chat_id id : Uuid) → Keeps ChatsMatch (accept_candidate chat_id id)
unfolding accept_candidate
accept_candidate-ChatsMatch chat_id id = Keeps-of_Triple _ (
    Triple-in_tx _ (λ d h. h) (Triple-then _ _ (accept-OneMissing id) (chat-ChatsMatch chat_id id)))

pub reject_candidate-ChatsMatch : (id : Uuid) → Keeps ChatsMatch (reject_candidate id)
unfolding reject_candidate decide_like
reject_candidate-ChatsMatch id = Keeps-statement _ λ d h.
    elim (Bool-cases (exists (pending_named id) d.meeting_candidates)) [
      | inl e ↦ rw e (record {
        one_row = λ j. rw count-decided_id (h.one_row j);
        chats = λ j. rw count-rejected (h.chats j);
      })
      | inr e ↦ rw e h
    ]

create_candidate-ChatsMatch :
    (now : Time) (id ad_id profile_id : Uuid)
    → Keeps ChatsMatch (create_candidate now id ad_id profile_id)
unfolding create_candidate insert_candidate
create_candidate-ChatsMatch now id ad_id profile_id = Keeps-statement _ λ d h.
    elim (Bool-cases (exists (response_to ad_id profile_id) d.meeting_candidates)) [
      | inl e ↦ rw e h
      | inr e ↦ rw e (elim (Bool-cases (exists (has_candidate_id id) d.meeting_candidates)) [
        | inl t ↦ rw t h
        | inr t ↦ rw t (record {
          one_row = λ j.
              rw (count-append (has_candidate_id j), count_one)
                (unfold has_candidate_id in ground (arith, h.one_row j, (==_iff id j).0, t));
          chats = λ j.
              rw (count-append (accepted_named j), count_one)
                (unfold accepted_named in ground (arith, h.chats j));
        })
      ])
    ]

ruleset chat_rules = (
  keeps_rules, accept_candidate-ChatsMatch, reject_candidate-ChatsMatch,
  create_candidate-ChatsMatch,
)

-- A like, whatever fails, leaves the chats matching.
pub like-ChatsMatch :
    (clock : Clock) (id user_id ad_id : Uuid) → Keeps ChatsMatch (like clock id user_id ad_id)
unfolding like profile_for_user ad_by_id
like-ChatsMatch clock id user_id ad_id = search chat_rules depth 16

require_own_candidate-ChatsMatch :
    (user_id id : Uuid) → Keeps ChatsMatch (require_own_candidate user_id id)
unfolding require_own_candidate profile_for_user candidate_for_author
require_own_candidate-ChatsMatch user_id id = search chat_rules depth 8

pub accept-ChatsMatch : (chat_id user_id id : Uuid) → Keeps ChatsMatch (accept chat_id user_id id)
unfolding accept
accept-ChatsMatch chat_id user_id id = search (chat_rules, require_own_candidate-ChatsMatch) depth 8

pub reject-ChatsMatch : (user_id id : Uuid) → Keeps ChatsMatch (reject user_id id)
unfolding reject
reject-ChatsMatch user_id id = search (chat_rules, require_own_candidate-ChatsMatch) depth 8

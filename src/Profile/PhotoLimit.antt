-- ===== src/Profile/PhotoLimit.antt =====
-- internal/profile/photo_service.go and photo_repository.go: the number of photos of a profile.
use native.Mathlib.Nat.{le_trans}
use meetgo_dating_server.Prelude.{
  ℕ, ◌+◌, ◌≤◌, Text, first, count, exists, ==_iff, leb, ◌==◌, if◌then◌else◌, Bool-cases,
  Option-cases, false, ◌&&◌, Option, List, [], ◌∷◌, ◌≡◌, sym, inl, inr, arith, count-append,
  count_one, count-update_eq, count-delete_le,
}
use meetgo_dating_server.Schema.{Uuid, Crop, Db}
use meetgo_dating_server.Exec.{Faults, statement}
use meetgo_dating_server.Exec.Keeps.{Keeps, Keeps-statement, Keeps-pure, Keeps-then, keeps_rules}
use meetgo_dating_server.Exec.Runs.{run_all, run_all-Keeps}
use meetgo_dating_server.Exec.Triples.{
  Triple, Keeps-tx, Keeps-of_Triple, Triple-of_Keeps, Triple-pure, Triple-lift, Triple-or_throw,
  Triple-statement, Triple-query, Triple-pre, Triple-given, Triple-throw_if, Triple-bind,
  Triple-then,
}
use meetgo_dating_server.Profile.Repository.{profile_by_user_id}
use meetgo_dating_server.Profile.Photos.{
  photo_of, photo_named, photo_conflict, insert_photo, insert_photo_row, new_photo, next_position,
  update_photo_crop, set_crop_of, delete_photo_row, shift_photos, shift_meets, shift_position,
  taken, place_photo, place_at, place_photos, reorder_photos, photos_by_profile_id, count_photos,
  max_photos,
}
use meetgo_dating_server.Profile.PhotoService.{
  require_profile, profile_for_photos, upload_photo, set_crop, reorder, delete_photo,
}
use meetgo_dating_server.Profile.Reading.{onboarding_step-Keeps}

abbrev pub AtMostFive : Db → Type 0
AtMostFive d = (p : Uuid) → count (photo_of p) d.photos ≤ max_photos

-- Room for one more photo of the profile `p`.
abbrev HasRoom : Uuid → Db → Type 0
HasRoom p d = AtMostFive d × (count (photo_of p) d.photos + 1 ≤ max_photos)

insert_photo-AtMostFive :
    (id p : Uuid) (key url : Text)
    → Triple (HasRoom p) (λ _. AtMostFive) AtMostFive (insert_photo id p key url)
unfolding insert_photo insert_photo_row photo_of
insert_photo-AtMostFive id p key url =
    Triple-statement _ (λ d h. h.0)
      λ d (five, room).
        elim (Bool-cases
          (exists (photo_conflict (new_photo id p key url (next_position p d.photos))) d.photos)) [
            | inl e ↦ rw e five
            | inr e ↦ rw e (λ q. rw (count-append (photo_of q), count_one) (added q d five room))
          ]
  where
    added :
        (q : Uuid) (d : Db)
        → AtMostFive d
        → count (photo_of p) d.photos + 1 ≤ max_photos
        → count (photo_of q) d.photos
            + (if photo_of q (new_photo id p key url (next_position p d.photos)) then 1 else 0)
          ≤ max_photos
    added q d five room = elim (Bool-cases (p == q)) [
      | inl e ↦ rw (sym ((==_iff p q).0 e)) (ground (arith, room))
      | inr e ↦ rw e (ground (arith, five q))
    ]

update_photo_crop-AtMostFive :
    (p id : Uuid) (c : Option Crop) → Keeps AtMostFive (update_photo_crop p id c)
unfolding update_photo_crop
update_photo_crop-AtMostFive p id c = Keeps-statement _ λ d h.
    elim (Option-cases (first (photo_named p id) d.photos)) [
      | inl e ↦ rw (e, update_photo_crop) h
      | inr (a, e) ↦
          rw (e, update_photo_crop)
            (λ q.
              rw
                (count-update_eq (photo_of q) (photo_named p id) (set_crop_of c) d.photos
                  (λ a. unfold photo_of in ground arith))
                (h q))
    ]

delete_photo_row-AtMostFive : (p id : Uuid) → Keeps AtMostFive (delete_photo_row p id)
unfolding delete_photo_row
delete_photo_row-AtMostFive p id = Keeps-statement _ λ d h.
    elim (Option-cases (first (photo_named p id) d.photos)) [
      | inl e ↦ rw (e, delete_photo_row) h
      | inr (a, e) ↦
          rw (e, delete_photo_row)
            (λ q. le_trans (count-delete_le (photo_of q) (photo_named p id) d.photos) (h q))
    ]

shift_photos-AtMostFive : (p : Uuid) → Keeps AtMostFive (statement (shift_photos p))
unfolding shift_photos
shift_photos-AtMostFive p = Keeps-statement _ λ d h. elim (Bool-cases (shift_meets p d.photos)) [
  | inl e ↦ rw e h
  | inr e ↦ rw e (λ q.
      rw
        (count-update_eq (photo_of q) (photo_of p) shift_position d.photos
          (λ a. unfold photo_of in ground arith))
        (h q))
]

place_photo-AtMostFive : (p id : Uuid) (i : ℕ) → Keeps AtMostFive (statement (place_photo p id i))
unfolding place_photo
place_photo-AtMostFive p id i = Keeps-statement _ λ d h.
    elim (Bool-cases (exists (taken p id i) d.photos && exists (photo_named p id) d.photos)) [
      | inl e ↦ rw e h
      | inr e ↦ rw e (elim (Bool-cases (count (photo_named p id) d.photos == 1)) [
        | inl t ↦ rw t (λ q.
            rw
              (count-update_eq (photo_of q) (photo_named p id) (place_at i) d.photos
                (λ a. unfold photo_of in ground arith))
              (h q))
        | inr t ↦ rw t h
      ])
    ]

place_photos-AtMostFive :
    (p : Uuid) (i : ℕ) (ids : List Uuid) → Keeps AtMostFive (place_photos p i ids)
unfolding place_photos
place_photos-AtMostFive p i [] = Keeps-pure tt
place_photos-AtMostFive p i (id ∷ ids) =
    Keeps-then _ _ (place_photo-AtMostFive p id i) (place_photos-AtMostFive p (i + 1) ids)

ruleset photo_rules = (
  keeps_rules, Keeps-tx, update_photo_crop-AtMostFive, delete_photo_row-AtMostFive,
  shift_photos-AtMostFive, place_photos-AtMostFive, onboarding_step-Keeps,
)

require_profile-AtMostFive : (u : Uuid) → Keeps AtMostFive (require_profile u)
unfolding require_profile profile_by_user_id
require_profile-AtMostFive u = search photo_rules depth 8

profile_for_photos-AtMostFive : (u : Uuid) → Keeps AtMostFive (profile_for_photos u)
unfolding profile_for_photos profile_by_user_id
profile_for_photos-AtMostFive u = search photo_rules depth 12

set_crop-AtMostFive : (u id : Uuid) (c : Crop) → Keeps AtMostFive (set_crop u id c)
unfolding set_crop
set_crop-AtMostFive u id c = search (photo_rules, require_profile-AtMostFive) depth 12

delete_photo-AtMostFive : (u id : Uuid) → Keeps AtMostFive (delete_photo u id)
unfolding delete_photo
delete_photo-AtMostFive u id = search (photo_rules, require_profile-AtMostFive) depth 12

reorder-AtMostFive : (u : Uuid) (ids : List Uuid) → Keeps AtMostFive (reorder u ids)
unfolding reorder reorder_photos photos_by_profile_id
reorder-AtMostFive u ids = search (photo_rules, require_profile-AtMostFive) depth 16

upload_photo-AtMostFive :
    (uuid_string : Uuid → Text) (put : Text → Option Text) (object_id id u : Uuid)
    (content_type : Text)
    → Keeps AtMostFive (upload_photo uuid_string put object_id id u content_type)
unfolding upload_photo count_photos
upload_photo-AtMostFive uuid_string put object_id id u content_type = Keeps-of_Triple _ (
    Triple-bind _ _ (Triple-or_throw _ _ (λ d h. h)) λ ext. Triple-given _ λ _.
      Triple-bind _ _ (Triple-of_Keeps _ (profile_for_photos-AtMostFive u)) λ prof.
        Triple-bind _ _ (Triple-query _ (λ d h. h)) λ n.
          Triple-then _ _ (Triple-throw_if _ _ (λ d h. h.0)) (
            Triple-bind _ _ (Triple-lift _ (λ d h. h.0.0)) λ url.
              Triple-bind _ _
                (Triple-pre _ (λ d h. (h.0.0.0, room d prof.id n h.0.0.1 h.0.1))
                  (insert_photo-AtMostFive id prof.id _ url))
                λ row. Triple-pure _ (λ d h. h)))
  where
    room :
        (d : Db) (p : Uuid) (n : ℕ)
        → n ≡ count (photo_of p) d.photos
        → leb max_photos n ≡ false
        → count (photo_of p) d.photos + 1 ≤ max_photos
    room d p n same few = ground (arith, same, few)

-- The photo requests.
pub data PhotoCall : Type 0 where
  upload_call : Uuid → Uuid → Uuid → Text → PhotoCall
  crop_call : Uuid → Uuid → Crop → PhotoCall
  reorder_call : Uuid → List Uuid → PhotoCall
  delete_call : Uuid → Uuid → PhotoCall

module _ (uuid_string : Uuid → Text) (put : Text → Option Text) where
  unfoldable pub photo_request : PhotoCall → Faults → Db → Db
  photo_request (upload_call object_id id u content_type) fs d =
      (upload_photo uuid_string put object_id id u content_type fs d).1
  photo_request (crop_call u id c) fs d = (set_crop u id c fs d).1
  photo_request (reorder_call u ids) fs d = (reorder u ids fs d).1
  photo_request (delete_call u id) fs d = (delete_photo u id fs d).1

  photo_request-AtMostFive :
      (c : PhotoCall) (fs : Faults) (d : Db) → AtMostFive d → AtMostFive (photo_request c fs d)
  unfolding photo_request
  photo_request-AtMostFive (upload_call object_id id u content_type) fs d h =
      (upload_photo-AtMostFive uuid_string put object_id id u content_type).at fs d h
  photo_request-AtMostFive (crop_call u id c) fs d h = (set_crop-AtMostFive u id c).at fs d h
  photo_request-AtMostFive (reorder_call u ids) fs d h = (reorder-AtMostFive u ids).at fs d h
  photo_request-AtMostFive (delete_call u id) fs d h = (delete_photo-AtMostFive u id).at fs d h

  -- Whatever photo requests come, one after the other and with any faults: if before them every profile
  -- has at most five photos, then so it is after them.
  pub photo_requests-AtMostFive :
      (cs : List (PhotoCall × Faults)) (d : Db)
      → AtMostFive d
      → AtMostFive (run_all photo_request cs d)
  photo_requests-AtMostFive = run_all-Keeps photo_request AtMostFive photo_request-AtMostFive

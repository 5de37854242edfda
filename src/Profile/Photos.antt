-- ===== src/Profile/Photos.antt =====
-- internal/profile/photo_dto.go and photo_repository.go
use meetgo_dating_server.Prelude.{
  ℕ, ◌+◌, Text, codes, text_eq, first, count, exists, select_rows, update_rows, delete_rows, ltb,
  leb, ◌==◌, if◌then◌else◌, Bool, false, ◌&&◌, ◌||◌, not, Option, none, some, List, [], ◌∷◌, ◌++◌,
}
use meetgo_dating_server.Http.{internal, Result, ok, err}
use meetgo_dating_server.Schema.{Uuid, Photo, Crop, Db}
use meetgo_dating_server.Schema.Decimals.{Decimal, below, above, sum_above, units}
use meetgo_dating_server.Exec.{Exec, pure, statement, query, in_tx, ◌>>◌}

abbrev pub max_photos : ℕ
max_photos = 5

abbrev pub min_photos_to_complete : ℕ
min_photos_to_complete = 2

-- allowedImageTypes
unfoldable pub image_extension : Text → Option Text
image_extension content_type =
    if text_eq content_type (codes "image/jpeg")
    then some (codes ".jpg")
    else if text_eq content_type (codes "image/png")
    then some (codes ".png")
    else if text_eq content_type (codes "image/webp")
    then some (codes ".webp")
    else none

-- `v >= 0 && v <= 1`
abbrev in01 : Decimal → Bool
in01 v = not (below v 0) && not (above v (units 1))

-- 1.0001, in millionths
abbrev one_and_a_bit : ℕ
one_and_a_bit = 1000100

unfoldable pub crop_valid : Crop → Bool
crop_valid c =
    in01 c.x
    && in01 c.y
    && above c.size 0
    && not (above c.size (units 1))
    && not (sum_above c.x c.size one_and_a_bit)
    && not (sum_above c.y c.size one_and_a_bit)

pub record PhotoResponse : Type 0 where
  pub id : Uuid
  pub url : Text
  pub position : ℕ
  pub crop : Option Crop

unfoldable pub to_photo_response : Photo → PhotoResponse
to_photo_response p = record { id = p.id; url = p.url; position = p.position; crop = p.crop }

unfoldable pub photo_of : Uuid → Photo → Bool
photo_of profile_id p = p.profile_id == profile_id

unfoldable pub photo_at : Uuid → ℕ → Photo → Bool
photo_at profile_id position p = p.profile_id == profile_id && p.position == position

unfoldable pub photo_named : Uuid → Uuid → Photo → Bool
photo_named profile_id id p = p.id == id && p.profile_id == profile_id

-- ORDER BY position
unfoldable pub insert_by_position : Photo → List Photo → List Photo
insert_by_position p [] = p ∷ []
insert_by_position p (q ∷ qs) =
    let rest = insert_by_position p qs in if leb p.position q.position then p ∷ q ∷ qs else q ∷ rest

unfoldable pub by_position : List Photo → List Photo
unfolding insert_by_position
by_position [] = []
by_position (p ∷ ps) = insert_by_position p (by_position ps)

unfoldable pub photos_by_profile_id : Uuid → Exec (List Photo)
unfolding by_position
photos_by_profile_id profile_id =
    query (λ d. by_position (select_rows (photo_of profile_id) d.photos))

unfoldable pub count_photos : Uuid → Exec ℕ
count_photos profile_id = query (λ d. count (photo_of profile_id) d.photos)

-- COALESCE(MAX(position) + 1, 0)
unfoldable pub next_position : Uuid → List Photo → ℕ
next_position profile_id [] = 0
next_position profile_id (p ∷ ps) =
    let rest = next_position profile_id ps in
    if p.profile_id == profile_id
    then (if ltb p.position rest then rest else p.position + 1)
    else rest

abbrev pub new_photo : Uuid → Uuid → Text → Text → ℕ → Photo
new_photo id profile_id key url position = record {
  id = id;
  profile_id = profile_id;
  object_key = key;
  url = url;
  position = position;
  crop = none;
}

-- the primary key and the unique index on (profile_id, position)
unfoldable pub photo_conflict : Photo → Photo → Bool
photo_conflict p q = q.id == p.id || (q.profile_id == p.profile_id && q.position == p.position)

unfoldable pub insert_photo_row : Photo → Db → Result Photo × Db
unfolding photo_conflict
insert_photo_row p d =
    if exists (photo_conflict p) d.photos
    then (err internal, d)
    else (ok p, record d { photos = d.photos ++ p ∷ [] })

-- `id` is gen_random_uuid()'s
unfoldable pub insert_photo : Uuid → Uuid → Text → Text → Exec Photo
unfolding insert_photo_row next_position
insert_photo id profile_id key url =
    statement (λ d.
      insert_photo_row (new_photo id profile_id key url (next_position profile_id d.photos)) d)

abbrev pub set_crop_of : Option Crop → Photo → Photo
set_crop_of crop p = record p { crop = crop }

-- UPDATE … RETURNING; `none` clears the crop
unfoldable pub update_photo_crop : Uuid → Uuid → Option Crop → Exec (Option Photo)
update_photo_crop profile_id photo_id crop = statement λ d.
    elim (first (photo_named profile_id photo_id) d.photos) [
      | none ↦ (ok none, d)
      | some p ↦ (
        ok (some (set_crop_of crop p)),
        record d {
          photos = update_rows (photo_named profile_id photo_id) (set_crop_of crop) d.photos;
        },
      )
    ]

-- DELETE … RETURNING object_key
unfoldable pub delete_photo_row : Uuid → Uuid → Exec (Option Text)
delete_photo_row profile_id photo_id = statement λ d.
    elim (first (photo_named profile_id photo_id) d.photos) [
      | none ↦ (ok none, d)
      | some p ↦ (
        ok (some p.object_key),
        record d { photos = delete_rows (photo_named profile_id photo_id) d.photos },
      )
    ]

abbrev pub shift : ℕ
shift = 1000

abbrev pub shift_position : Photo → Photo
shift_position p = record p { position = p.position + shift }

-- The rows are updated in the order of the table, and the unique index is checked at each: a shifted
-- position may meet one that is still to be shifted.
unfoldable pub shift_meets : Uuid → List Photo → Bool
shift_meets profile_id [] = false
shift_meets profile_id (p ∷ ps) =
    (p.profile_id == profile_id && exists (photo_at profile_id (p.position + shift)) ps)
    || shift_meets profile_id ps

unfoldable pub shift_photos : Uuid → Db → Result (Unit {0}) × Db
unfolding shift_meets
shift_photos profile_id d =
    if shift_meets profile_id d.photos
    then (err internal, d)
    else (ok tt, record d { photos = update_rows (photo_of profile_id) shift_position d.photos })

-- position = i, and the crop is kept only at 0
abbrev pub place_at : ℕ → Photo → Photo
place_at i p = record p { position = i; crop = if i == 0 then p.crop else none }

-- another photo of the profile holds the position
unfoldable pub taken : Uuid → Uuid → ℕ → Photo → Bool
taken profile_id id i p = (p.profile_id == profile_id && p.position == i) && not (p.id == id)

-- the unique index, and the test that one row was affected (errReorderMismatch is no *APIError)
unfoldable pub place_photo : Uuid → Uuid → ℕ → Db → Result (Unit {0}) × Db
unfolding taken
place_photo profile_id id i d =
    if exists (taken profile_id id i) d.photos && exists (photo_named profile_id id) d.photos
    then (err internal, d)
    else if count (photo_named profile_id id) d.photos == 1
    then (
      ok tt,
      record d { photos = update_rows (photo_named profile_id id) (place_at i) d.photos },
    )
    else (err internal, d)

unfoldable pub place_photos : Uuid → ℕ → List Uuid → Exec (Unit {0})
unfolding place_photo
place_photos profile_id i [] = pure tt
place_photos profile_id i (id ∷ ids) = do
  statement (place_photo profile_id id i)
  place_photos profile_id (i + 1) ids

unfoldable pub reorder_photos : Uuid → List Uuid → Exec (Unit {0})
unfolding shift_photos place_photos
reorder_photos profile_id ids =
    in_tx (do statement (shift_photos profile_id); place_photos profile_id 0 ids)

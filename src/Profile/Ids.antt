-- ===== src/Profile/Ids.antt =====
-- Lists of ids in a request: parseInterestIDs and validateReorder of internal/profile and parseTagIDs
-- of internal/meeting share one loop, over uuid.Parse and the set of ids seen so far.
use meetgo_dating_server.Prelude.{
  Text, String, Bool, false, ◌||◌, Option, none, some, List, [], ◌∷◌, length, ltb, ◌==◌,
  if◌then◌else◌,
}
use meetgo_dating_server.Schema.{Uuid}

pub data Ids : Type 0 where
  ids_ok : List Uuid → Ids
  ids_bad : String → Ids

unfoldable pub member : Uuid → List Uuid → Bool
member id [] = false
member id (j ∷ ids) = j == id || member id ids

abbrev pub prepend : Uuid → Ids → Ids
prepend id (ids_ok ids) = ids_ok (id ∷ ids)
prepend id (ids_bad m) = ids_bad m

-- the body of the loop; `seen` is the map, of which only membership is read
unfoldable pub parse_ids : (Text → Option Uuid) → List Uuid → List Text → Ids
unfolding member
parse_ids parse_uuid seen [] = ids_ok []
parse_ids parse_uuid seen (s ∷ raw) = elim (parse_uuid s) [
  | none ↦ ids_bad "contains an invalid id"
  | some id ↦
      let rest = parse_ids parse_uuid (id ∷ seen) raw in
      if member id seen then ids_bad "contains duplicates" else prepend id rest
]

unfoldable pub parse_interest_ids : (Text → Option Uuid) → List Text → Ids
unfolding parse_ids
parse_interest_ids parse_uuid raw =
    if ltb (length raw) 1 || ltb 5 (length raw)
    then ids_bad "must contain 1–5 interests"
    else parse_ids parse_uuid [] raw

unfoldable pub parse_tag_ids : (Text → Option Uuid) → List Text → Ids
unfolding parse_ids
parse_tag_ids parse_uuid raw =
    if ltb (length raw) 1 || ltb 3 (length raw)
    then ids_bad "must contain 1–3 tags"
    else parse_ids parse_uuid [] raw

unfoldable pub validate_reorder : (Text → Option Uuid) → List Text → Ids
unfolding parse_ids
validate_reorder parse_uuid [] = ids_bad "must not be empty"
validate_reorder parse_uuid (s ∷ raw) = parse_ids parse_uuid [] (s ∷ raw)

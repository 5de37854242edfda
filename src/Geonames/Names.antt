-- ===== src/Geonames/Names.antt =====
-- cmd/geonames-import/main.go: parseRuNames. A map is a function, with `none` or `false` for no key.
use meetgo_dating_server.Prelude.{
  ℤ, int_eq, Text, codes, text_eq, length, join_rows, ltb, leb, if◌then◌else◌, Bool, true, false,
  ◌&&◌, ◌||◌, not, Option, none, some, List, [], ◌∷◌,
}
use meetgo_dating_server.Geonames.Parse.{Readers, field, split_on}

-- A line that is kept: the id, the name, and whether it is preferred.
pub record AltName : Type 0 where
  pub id : ℤ
  pub name : Text
  pub preferred : Bool

pub record RuNames : Type 0 where
  pub res : ℤ → Option Text
  pub preferred : ℤ → Bool

abbrev pub no_names : RuNames
no_names = record { res = λ _. none; preferred = λ _. false }

abbrev pub has_name : Option Text → Bool
has_name none = false
has_name (some n) = true

abbrev pub put_name : AltName → RuNames → RuNames
put_name a m = record {
  res = λ i. if int_eq i a.id then some a.name else m.res i;
  preferred = λ i. if int_eq i a.id then a.preferred || m.preferred i else m.preferred i;
}

unfoldable pub take_name : RuNames → AltName → RuNames
take_name m a =
    if m.preferred a.id && not a.preferred
    then m
    else if has_name (m.res a.id) && not a.preferred
    then m
    else put_name a m

unfoldable pub take_names : RuNames → List AltName → RuNames
unfolding take_name
take_names m [] = m
take_names m (a ∷ names) = take_names (take_name m a) names

abbrev pub is_historic : List Text → Bool
is_historic f = leb 8 (length f) && text_eq (field 7 f) (codes "1")

module _ (x : Readers) (ids : ℤ → Bool) where
  abbrev pub name_for : List Text → Option ℤ → Option AltName
  name_for f none = none
  name_for f (some id) =
      if not (ids id)
      then none
      else if is_historic f
      then none
      else some (record { id = id; name = field 3 f; preferred = text_eq (field 4 f) (codes "1") })

  -- the tests of the loop, on the fields of a line
  unfoldable pub name_of_fields : List Text → Option AltName
  name_of_fields f =
      if ltb (length f) 5 || not (text_eq (field 2 f) (codes "ru"))
      then none
      else name_for f (x.parse_int (field 1 f))

  unfoldable pub parse_ru_names : List Text → ℤ → Option Text
  unfolding take_names name_of_fields
  parse_ru_names lines =
      (take_names no_names (join_rows (λ line. name_of_fields (split_on 9 line)) lines)).res

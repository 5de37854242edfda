-- ===== src/Meeting/Rules.antt =====
-- internal/meeting/dto.go, validateAd.
use meetgo_dating_server.Prelude.{
  ◌≤◌, Text, trim_space, length, Bool-cases, false, Option, List, ◌++◌, ◌≡◌, inl, inr, arith,
}
use meetgo_dating_server.Http.{ok}
use meetgo_dating_server.Schema.{Uuid}
use meetgo_dating_server.Profile.Ids.{Ids, ids_ok, ids_bad, parse_tag_ids}
use meetgo_dating_server.Profile.Validate.{
  bad_description, detail, unless_details, ids_details, ids_value,
}
use meetgo_dating_server.Profile.Rules.{AreIds, parse_tag_ids-AreIds}
use meetgo_dating_server.Meeting.Service.{AdRequest, ad_value, validate_ad}

-- The description is the trimmed one, of 30 to 500 code points, and there are one to three distinct tags.
pub record IsAd (parse : Text → Option Uuid) (req : AdRequest) (desc : Text) (ids : List Uuid)
    : Type 0 where
  pub trimmed : desc ≡ trim_space req.description
  pub long : 30 ≤ length desc
  pub short : length desc ≤ 500
  pub tags : AreIds parse 3 req.tag_ids ids

validated :
    (desc : Text) (v : Ids) (out : Text) (ids : List Uuid)
    → unless_details
        (detail (bad_description 30 500 desc) "description" "must be 30–500 chars"
          ++ ids_details "tagIds" v)
        (ad_value desc (ids_value v))
      ≡ ok (out, ids)
    → (out ≡ trim_space desc) × (bad_description 30 500 desc ≡ false) × (v ≡ ids_ok ids)
unfolding ad_value
validated desc (ids_ok js) out ids h = elim (Bool-cases (bad_description 30 500 desc)) [
  | inl e ↦ absurd (cc (h, e))
  | inr e ↦ (cc (h, e), e, cc (h, e))
]
validated desc (ids_bad m) out ids h = elim (Bool-cases (bad_description 30 500 desc)) [
  | inl e ↦ absurd (cc (h, e))
  | inr e ↦ absurd (cc (h, e))
]

-- A request that is let through becomes its trimmed description, of 30 to 500 code points, and one to
-- three distinct ids, those that its tag ids parse to.
pub validate_ad-IsAd :
    (parse : Text → Option Uuid) (req : AdRequest) (desc : Text) (ids : List Uuid)
    → validate_ad parse req ≡ ok (desc, ids)
    → IsAd parse req desc ids
unfolding validate_ad bad_description
validate_ad-IsAd parse req desc ids h =
    let (same, good, read) =
      validated req.description (parse_tag_ids parse req.tag_ids) desc ids h in
    record {
      trimmed = same;
      long = rw same (ground (arith, good));
      short = rw same (ground (arith, good));
      tags = parse_tag_ids-AreIds parse req.tag_ids ids read;
    }

-- ===== src/Meeting/Publishing.antt =====
-- internal/meeting/service.go: Create, and GetMine after it.
use meetgo_dating_server.Prelude.{
  ◌+◌, ◌<◌, Text, first, exists, update_rows, ==_refl, Bool, Bool-cases, true, false, ◌||◌, not,
  Option, some, List, [], ◌∷◌, ◌++◌, ◌≡◌, refl, sym, ap, arith, inl, inr, ◌∙◌, first-append_none,
  count-zero_first, count_mono,
}
use meetgo_dating_server.Http.{ok}
use meetgo_dating_server.Schema.{Uuid, Time, Clock, Ad, expired, Db}
use meetgo_dating_server.Exec.{Faults, ◌>>=◌, ◌>>◌}
use meetgo_dating_server.Exec.Keeps.{Keeps, Keeps-statement, Keeps-pure, Keeps-then}
use meetgo_dating_server.Exec.Triples.{
  Triple, Triple-ok, Triple-pure, Triple-or_throw, Triple-statement, Triple-query, Triple-post,
  Triple-in_tx, Triple-throw_if, Triple-execute, Triple-fail, Triple-bind, Triple-then, Triple-lift,
  Triple-of_Keeps,
}
use meetgo_dating_server.Profile.Repository.{items_for, same_link, has_item_id}
use meetgo_dating_server.Meeting.Repository.{
  ad_ttl, profile_for_user, profile_of_user, active_ad_of, stale_ad_of, set_status, expire_stale,
  active_ad_by_profile, tags_by_ad_id, count_tags, new_ad, ad_conflict, insert_ad, insert_ad_tag,
  insert_ad_tags, create_ad,
}
use meetgo_dating_server.Meeting.Service.{
  AdRequest, AdResponse, to_ad_response, with_tags, require_tags_exist, create, get_mine,
}

-- Marking stale rows passes over a row that is not stale.
first-stale :
    (p : Uuid) (now : Time) (ads : List Ad) (a : Ad)
    → first (active_ad_of p) ads ≡ some a
    → stale_ad_of p now a ≡ false
    → first (active_ad_of p) (update_rows (stale_ad_of p now) (set_status expired) ads) ≡ some a
unfolding first update_rows stale_ad_of active_ad_of
first-stale p now [] a h fresh = absurd (cc h)
first-stale p now (b ∷ ads) a h fresh = elim (Bool-cases (active_ad_of p b)) [
  | inl t ↦
      let same : b ≡ a = ground (arith, h, t) in
      let still : stale_ad_of p now b ≡ false = rw same fresh in rw still (rw t (rw same refl))
  | inr t ↦
      let still : stale_ad_of p now b ≡ false = ground (arith, t) in
      let rest : first (active_ad_of p) ads ≡ some a = ground (arith, h, t) in
      rw still (rw t (first-stale p now ads a rest fresh))
]

-- The ad `a` is the active ad of the user's profile.
pub record Publishes (user_id : Uuid) (a : Ad) (d : Db) : Type 0 where
  pub author : Uuid
  pub is_complete : Bool
  pub has_profile : profile_of_user user_id d ≡ some (author, is_complete)
  pub current : first (active_ad_of author) d.meeting_ads ≡ some a

abbrev shown_ad : Ad → Db → AdResponse
shown_ad a d = to_ad_response a (items_for d.meeting_ad_tags d.meeting_tags a.id)

-- Reading it changes nothing of it, as long as it is not over.
pub get_mine_runs :
    (clock : Clock) (user_id : Uuid) (a : Ad) (d : Db)
    → Publishes user_id a d
    → clock.db < a.expires_at
    → (get_mine clock user_id [] d).0 ≡ ok (shown_ad a d)
unfolding get_mine profile_for_user profile_of_user expire_stale active_ad_by_profile with_tags
    tags_by_ad_id ◌>>=◌ ◌>>◌
get_mine_runs clock user_id a d m early =
    let fresh : stale_ad_of m.author clock.db a ≡ false = unfold stale_ad_of in ground arith in
    rw (m.has_profile, first-stale m.author clock.db d.meeting_ads a m.current fresh) refl

insert_ad_tags-Keeps :
    {P : Db → Type 0} (ad : Uuid) (ids : List Uuid)
    → ((d : Db) (links : List (Uuid × Uuid)) → P d → P (record d { meeting_ad_tags = links }))
    → Keeps P (insert_ad_tags ad ids)
unfolding insert_ad_tags insert_ad_tag
insert_ad_tags-Keeps ad [] k = Keeps-pure tt
insert_ad_tags-Keeps ad (id ∷ ids) k =
    Keeps-then _ _
      (Keeps-statement _ λ d h.
        elim (Bool-cases (
          exists (same_link ad id) d.meeting_ad_tags
          || not (exists (has_item_id id) d.meeting_tags))) [
            | inl e ↦ rw e h
            | inr e ↦ rw e (k d _ h)
          ])
      (insert_ad_tags-Keeps ad ids k)

abbrev Any : Db → Type 0
Any d = Unit

module _ (now : Time) (id user_id author : Uuid) (desc : Text) where
  abbrev HasProfile : Db → Type 0
  HasProfile d = profile_of_user user_id d ≡ some (author, true)

  abbrev Publishing : Db → Type 0
  Publishing d =
      HasProfile d × (first (active_ad_of author) d.meeting_ads ≡ some (new_ad now id author desc))

  create_ad-Publishing :
      (ids : List Uuid)
      → Triple HasProfile
          (λ a d. Publishing d × (a ≡ new_ad now id author desc))
          Any
          (create_ad now id author desc ids)
  unfolding create_ad insert_ad profile_of_user ad_conflict active_ad_of first
  create_ad-Publishing ids =
      Triple-in_tx _ (λ d h. tt)
        (Triple-bind {Mid = λ a d. Publishing d × (a ≡ new_ad now id author desc)} _ _
          (Triple-statement _ (λ d h. tt)
            λ d h.
              elim (Bool-cases (exists (ad_conflict (new_ad now id author desc)) d.meeting_ads)) [
                | inl e ↦ rw e tt
                | inr e ↦ rw e ((h, found d.meeting_ads e), refl)
              ])
          λ a.
            Triple-then _ _
              (Triple-fail _ (λ d h. tt)
                (Triple-of_Keeps _ (insert_ad_tags-Keeps a.id ids (λ d links h. h))))
              (Triple-pure a (λ d h. h)))
    where
      found :
          (ads : List Ad)
          → exists (ad_conflict (new_ad now id author desc)) ads ≡ false
          → first (active_ad_of author) (ads ++ new_ad now id author desc ∷ [])
            ≡ some (new_ad now id author desc)
      found ads e =
          first-append_none (active_ad_of author) ads (new_ad now id author desc ∷ []) (
            count-zero_first (active_ad_of author) ads (
              ground (
                arith,
                e,
                count_mono (active_ad_of author) (ad_conflict (new_ad now id author desc)) ads
                    (λ a. ground arith),
              )))
          ∙ rw (==_refl author) refl

  with_tags-Shown :
      (a : Ad)
      → Triple
          (λ d. Publishing d × (a ≡ new_ad now id author desc))
          (λ r d. Publishing d × (r ≡ shown_ad (new_ad now id author desc) d))
          Any
          (with_tags a)
  unfolding with_tags tags_by_ad_id
  with_tags-Shown a =
      Triple-bind _ _ (Triple-query _ (λ d h. tt))
        λ tags. Triple-pure _ (λ d ((h, same), t). (h, rw t (ap (λ b. shown_ad b d) same)))

module _ (parse_uuid : Text → Option Uuid) (clock : Clock) (id user_id : Uuid)
    (req : AdRequest) where
  -- What a publication leaves, and answers.
  abbrev pub Published : AdResponse → Db → Type 0
  Published r d =
      (a : Ad) × Publishes user_id a d × (a.expires_at ≡ clock.db + ad_ttl) × (r ≡ shown_ad a d)

  abbrev HasOwner : Option (Uuid × Bool) → Db → Type 0
  HasOwner found d = profile_of_user user_id d ≡ found

  create-Published : Triple Any Published Any (create parse_uuid clock id user_id req)
  unfolding create profile_for_user expire_stale active_ad_by_profile require_tags_exist count_tags
      profile_of_user
  create-Published = Triple-bind _ _ (Triple-lift _ (λ d h. tt)) λ (desc, ids).
      Triple-bind _ _ (Triple-query _ (λ d h. tt)) λ found.
        Triple-bind _ _ (Triple-or_throw found _ (λ d h. tt)) λ (author, created).
          Triple-then {Mid = λ _. HasProfile clock.db id user_id author desc} _ _
            (Triple-post _ (λ _ d ((((h, l), p), f), c). owner d found author created p f c)
              (Triple-throw_if _ _ (λ d h. tt)))
            (Triple-then _ _ (Triple-execute _ (λ d h. tt) (λ d h. h)) (
              Triple-bind _ _ (Triple-query _ (λ d h. tt)) λ current.
                Triple-then _ _ (Triple-throw_if _ _ (λ d h. tt)) (
                  Triple-then {Mid = λ _. HasProfile clock.db id user_id author desc} _ _
                    (Triple-bind _ _ (Triple-query _ (λ d h. tt))
                      λ n. Triple-post _ (λ _ d h. h.0.0.0.0) (Triple-throw_if _ _ (λ d h. tt)))
                    (Triple-bind _ _ (create_ad-Publishing clock.db id user_id author desc ids) λ a.
                      Triple-post _
                        (λ r d ((h, current), same). (
                          new_ad clock.db id author desc,
                          record {
                            author = author;
                            is_complete = true;
                            has_profile = h;
                            current = current;
                          },
                          refl,
                          same,
                        ))
                        (with_tags-Shown clock.db id user_id author desc a)))))
    where
      owner :
          (d : Db) (found : Option (Uuid × Bool)) (author : Uuid) (created : Bool)
          → found ≡ profile_of_user user_id d
          → found ≡ some (author, created)
          → not created ≡ false
          → profile_of_user user_id d ≡ some (author, true)
      owner d found author created p f c = let yes : created ≡ true = ground arith in cc (p, f, yes)

  -- Round trip, whichever round trips of the publication fail: after a publication that returned,
  -- a read of the own ad in a run without faults, before 24 hours are over by the clock of the
  -- database, answers what the publication answered.
  pub create-get_mine :
      (later : Clock) (fs : Faults) (d : Db) (r : AdResponse)
      → (create parse_uuid clock id user_id req fs d).0 ≡ ok r
      → later.db < clock.db + ad_ttl
      → (get_mine later user_id [] (create parse_uuid clock id user_id req fs d).1).0 ≡ ok r
  create-get_mine later fs d r h early =
      let (a, published, ends, same) = Triple-ok _ create-Published fs d r tt h in
      get_mine_runs later user_id a (create parse_uuid clock id user_id req fs d).1 published
        (omega (arith, ends, early))
      ∙ ap ok (sym same)

-- ===== src/Config/Secrets.antt =====
-- internal/config/config.go: the values that Load requires.
use meetgo_dating_server.Prelude.{
  ◌≡◌, ◌≢◌, ◌⊎◌, refl, subst, arith, Text, codes, text_eq, text_eq_iff, Option, none, some,
  Bool-cases, inl, inr, true, false, [], ◌∷◌,
}
use meetgo_dating_server.Config.{
  Config, Environment, loaded, is_dev, env_or, or_fallback, os_getenv, read_config, load_config,
}

-- A variable that is missing or empty.
abbrev pub IsUnset : Option Text → Type 0
IsUnset v = (v ≡ none) ⊎ (v ≡ some [])

-- The database URL and the secret are those of the environment; the secret may be the default one
-- where JWT_SECRET is unset and ENV is unset or `dev`.
pub record IsSecured (e : Environment) (c : Config) : Type 0 where
  pub url : e.lookup "DATABASE_URL" ≡ some c.database_url
  pub has_url : c.database_url ≢ []
  pub has_secret : c.jwt_secret ≢ []
  pub secret :
      (e.lookup "JWT_SECRET" ≡ some c.jwt_secret)
      ⊎ (IsUnset (e.lookup "JWT_SECRET")
          × (IsUnset (e.lookup "ENV") ⊎ (e.lookup "ENV" ≡ some (codes "dev")))
          × (c.jwt_secret ≡ codes "dev-insecure-secret-change-me"))

not_empty : (t : Text) → text_eq t [] ≡ false → t ≢ []
not_empty t h e = absurd (cc (h, (text_eq_iff t []).1 e))

set_lem : (v : Option Text) → text_eq (or_fallback v []) [] ≡ false → v ≡ some (or_fallback v [])
unfolding text_eq
set_lem none h = absurd (cc h)
set_lem (some t) h = refl

unset_lem : (v : Option Text) → text_eq (or_fallback v []) [] ≡ true → IsUnset v
unset_lem none h = inl refl
unset_lem (some t) h = let empty : t ≡ [] = (text_eq_iff t []).0 h in inr (cc empty)

dev_lem :
    (v : Option Text)
    → is_dev (env_or v (codes "dev")) ≡ true
    → IsUnset v ⊎ (v ≡ some (codes "dev"))
dev_lem none h = inl (inl refl)
dev_lem (some []) h = inl (inr refl)
dev_lem (some (c ∷ t)) h =
    let dev : c ∷ t ≡ codes "dev" = (text_eq_iff (c ∷ t) (codes "dev")).0 h in inr (cc dev)

-- For every environment: a configuration that Load returns has the database URL of DATABASE_URL, which is
-- not empty, and a secret that is not empty: that of JWT_SECRET, or the default one, and then JWT_SECRET
-- is missing or empty, and ENV is missing, empty or `dev`.
pub load_config-IsSecured :
    (e : Environment) (c : Config) → load_config e ≡ loaded c → IsSecured e c
unfolding load_config read_config
load_config-IsSecured e c h = elim (Bool-cases (text_eq (os_getenv e "DATABASE_URL") [])) [
  | inl t ↦ ground (arith, t, h)
  | inr t ↦ elim (Bool-cases (text_eq (os_getenv e "JWT_SECRET") [])) [
    | inl s ↦ elim (Bool-cases (is_dev (read_config e).env)) [
      | inl k ↦
          let same : record (read_config e) { jwt_secret = codes "dev-insecure-secret-change-me" }
              ≡ c =
            ground (arith, t, s, k, h) in
          subst (IsSecured e) same (record {
            url = set_lem (e.lookup "DATABASE_URL") t;
            has_url = not_empty _ t;
            has_secret = λ e. absurd (cc e);
            secret = inr (unset_lem _ s, dev_lem (e.lookup "ENV") k, refl);
          })
      | inr k ↦ ground (arith, t, s, k, h)
    ]
    | inr s ↦
        let same : read_config e ≡ c = ground (arith, t, s, h) in
        subst (IsSecured e) same (record {
          url = set_lem (e.lookup "DATABASE_URL") t;
          has_url = not_empty _ t;
          has_secret = not_empty _ s;
          secret = inl (set_lem (e.lookup "JWT_SECRET") s);
        })
  ]
]

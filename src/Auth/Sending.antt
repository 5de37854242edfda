-- ===== src/Auth/Sending.antt =====
-- internal/auth/service.go, SendCode: its conditions, and the code that it stores.
use meetgo_dating_server.Prelude.{
  Memᴰ, first_is_in, All, All-mono, ◌<◌, Bool-cases, Option-cases, none, inl, inr, ◌⊎◌, text_eq_iff,
  ℕ, ◌+◌, ◌/◌, ◌≤◌, Text, codes, text_eq, text_eq_refl, first, count, ltb, leb, Bool, true, false,
  ◌&&◌, not, Option, some, List, [], ◌∷◌, ◌++◌, ◌≡◌, refl, arith, ap,
}
use meetgo_dating_server.Http.{ok}
use meetgo_dating_server.Schema.{Time, Otp, SendEvent, Db}
use meetgo_dating_server.Exec.{Faults, raise, ◌>>=◌}
use meetgo_dating_server.Exec.Triples.{
  Triple, Triple-pure, Triple-query, Triple-throw_if, Triple-execute, Triple-bind, Triple-then,
  Triple-ok,
}
use meetgo_dating_server.Auth.External.{External}
use meetgo_dating_server.Auth.Email.{is_russian_email}
use meetgo_dating_server.Auth.Token.{hash_otp}
use meetgo_dating_server.Auth.Repository.{
  otp_of, upsert_otp, otp_by_email, insert_send_event, latest, sent_to, sent_from, in_window,
  last_send_at, count_sends_by_email_since, count_sends_by_ip_since,
}
use meetgo_dating_server.Auth.Service.{
  Service, Env, SendCodeResponse, second, email_rate_window, ip_rate_window, too_soon, send_mail,
  generate_code, send_code, check_code, log_in,
}
use meetgo_dating_server.Auth.Otp.{first-put_otp}

abbrev pub event : Time → Text → Text → SendEvent
event t email ip = record { email = email; ip = ip; created_at = t }

abbrev Any : Db → Type 0
Any d = Unit

-- A cooldown that is over since the last send is over since each one.
latest-cooled :
    (p : SendEvent → Bool) (now cooldown : ℕ) (es : List SendEvent)
    → too_soon (latest p es) now cooldown ≡ false
    → All (λ v. p v ≡ true → v.created_at + cooldown ≤ now) es
unfolding latest too_soon
latest-cooled p now cooldown [] h = tt
latest-cooled p now cooldown (v ∷ es) h =
    let (here, below) = newest (Bool-cases (p v)) (Option-cases (latest p es)) in
    (here, latest-cooled p now cooldown es below)
  where
    newest :
        (p v ≡ true) ⊎ (p v ≡ false)
        → (latest p es ≡ none) ⊎ ((t : Time) × (latest p es ≡ some t))
        → (p v ≡ true → v.created_at + cooldown ≤ now)
          × (too_soon (latest p es) now cooldown ≡ false)
    newest (inl t) (inl e) = (λ _. ground (arith, t, e, h), ground (arith, t, e, h))
    newest (inl t) (inr (last, e)) = (λ _. ground (arith, t, e, h), ground (arith, t, e, h))
    newest (inr t) q = (λ k. absurd (cc (k, t)), ground (arith, t, h))

-- The events to an email, or from an IP, of the last hour and of the last ten minutes before `now`.
abbrev pub of_last_hour : Text → ℕ → SendEvent → Bool
of_last_hour email now v = text_eq v.email email && ltb now (v.created_at + 3600000000000)

abbrev pub of_ten_minutes : Text → ℕ → SendEvent → Bool
of_ten_minutes ip now v = text_eq v.ip ip && ltb now (v.created_at + 600000000000)

module _ (x : External) (c : Service) (e : Env) (email ip country : Text) where
  -- The conditions under which a code is sent, on the events before it.
  pub record MaySend (es : List SendEvent) : Type 0 where
    pub region : country ≡ codes "RU" → is_russian_email email ≡ true
    pub cooled : All (λ v. v.email ≡ email → v.created_at + c.otp_resend_after ≤ e.clock.app) es
    pub per_email : count (of_last_hour email e.clock.app) es < 5
    pub per_ip : count (of_ten_minutes ip e.clock.app) es < 10

  -- the row of the code, untried
  abbrev pub sent_otp : Otp
  sent_otp = record {
    email = email;
    code_hash = hash_otp x email (generate_code c.dev_mode e.random_word);
    expires_at = e.clock.app + c.otp_ttl;
    attempts = 0;
  }

  -- What a sent code leaves.
  pub record Sent (es : List SendEvent) (r : SendCodeResponse) (d : Db) : Type 0 where
    pub allowed : MaySend es
    pub is_row : Memᴰ sent_otp d.otp_codes
    pub kept : first (otp_of email) d.otp_codes ≡ some sent_otp
    pub logged : d.otp_send_events ≡ es ++ event e.clock.db email ip ∷ []

  send_mail-Triple : {P : Db → Type 0} (b : Bool) → Triple P (λ _. P) Any (send_mail b)
  unfolding send_mail raise
  send_mail-Triple true = record { at = λ fs d h. tt }
  send_mail-Triple false = Triple-pure tt (λ d h. h)

  allow :
      (es fs : List SendEvent) (last : Option Time) (by_email by_ip : ℕ)
      → fs ≡ es
      → (text_eq country (codes "RU") && not (is_russian_email email)) ≡ false
      → last ≡ latest (sent_to email) fs
      → too_soon last e.clock.app c.otp_resend_after ≡ false
      → by_email ≡ count (in_window (sent_to email) e.clock.app email_rate_window) fs
      → leb 5 by_email ≡ false
      → by_ip ≡ count (in_window (sent_from ip) e.clock.app ip_rate_window) fs
      → leb 10 by_ip ≡ false
      → MaySend es
  unfolding in_window sent_to sent_from
  allow es fs last by_email by_ip same region p cooled q few r few_ip = record {
    region = λ ru.
        let is_ru : text_eq country (codes "RU") ≡ true = (text_eq_iff country (codes "RU")).1 ru in
        ground (arith, is_ru, region);
    cooled =
        let long_ago : too_soon (latest (sent_to email) es) e.clock.app c.otp_resend_after ≡ false =
          cc (same, p, cooled) in
        All-mono es (λ v k to. k ((text_eq_iff v.email email).1 to))
          (latest-cooled (sent_to email) e.clock.app c.otp_resend_after es long_ago);
    per_email = ground (arith, ap (count (of_last_hour email e.clock.app)) same);
    per_ip = ground (arith, ap (count (of_ten_minutes ip e.clock.app)) same);
  }

  pub send_code-Sent :
      (es : List SendEvent)
      → Triple (λ d. d.otp_send_events ≡ es) (Sent es) Any (send_code x c e email ip country)
  unfolding send_code last_send_at count_sends_by_email_since count_sends_by_ip_since upsert_otp
      insert_send_event
  send_code-Sent es = Triple-then _ _ (Triple-throw_if _ _ (λ d h. tt)) (
      Triple-bind _ _ (Triple-query _ (λ d h. tt)) λ last.
        Triple-then _ _ (Triple-throw_if _ _ (λ d h. tt)) (
          Triple-bind _ _ (Triple-query _ (λ d h. tt)) λ by_email.
            Triple-then _ _ (Triple-throw_if _ _ (λ d h. tt)) (
              Triple-bind _ _ (Triple-query _ (λ d h. tt)) λ by_ip.
                Triple-then _ _ (Triple-throw_if _ _ (λ d h. tt)) (
                  Triple-then
                    {Mid = λ _ d.
                      (d.otp_send_events ≡ es)
                      × MaySend es
                      × (first (otp_of email) d.otp_codes ≡ some sent_otp)}
                    _ _
                    (Triple-execute _ (λ d h. tt)
                      (λ d (((((((same, region), p), cooled), q), few), r), few_ip). (
                        same,
                        allow es d.otp_send_events last by_email by_ip same region p cooled q few r
                            few_ip,
                        first-put_otp sent_otp d.otp_codes,
                      )))
                    (Triple-then _ _ (send_mail-Triple e.mail_fails) (
                      Triple-then
                        {Mid = λ _. Sent es (record {
                          expires_in = c.otp_ttl / second;
                          resend_after = c.otp_resend_after / second;
                        })}
                        _ _
                        (Triple-execute _ (λ d h. tt)
                          (λ d (same, allowed, kept). record {
                            allowed = allowed;
                            is_row = first_is_in (otp_of email) d.otp_codes sent_otp kept;
                            kept = kept;
                            logged = ap (λ fs. fs ++ event e.clock.db email ip ∷ []) same;
                          }))
                        (Triple-pure _ (λ d h. h))))))))

module _ (x : External) (c : Service) where
  -- Whatever round trips fail: when a code is sent, the email is a Russian one if the country is RU,
  -- the cooldown is over since each logged send to the email, and fewer than 5 were logged to the email
  -- in the last hour and fewer than 10 from the IP in the last ten minutes; after it the row of the
  -- email has the hash of the generated code, no attempts, and the lifetime of codes to live, and the
  -- send is logged at the end.
  pub send_code-Limited :
      (e : Env) (email ip country : Text) (fs : Faults) (d : Db) (r : SendCodeResponse)
      → (send_code x c e email ip country fs d).0 ≡ ok r
      → Sent x c e email ip country d.otp_send_events r (send_code x c e email ip country fs d).1
  send_code-Limited e email ip country fs d r =
      Triple-ok _ (send_code-Sent x c e email ip country d.otp_send_events) fs d r refl

  -- Round trip, whichever round trips of the sending fail: after a code was sent, the check of
  -- that code until it expires, in a run without faults, is the login.
  pub send-check :
      (e e' : Env) (email ip country : Text) (fs : Faults) (d : Db) (r : SendCodeResponse)
      → (send_code x c e email ip country fs d).0 ≡ ok r
      → e'.clock.app ≤ e.clock.app + c.otp_ttl
      → check_code x c e' email
          (generate_code c.dev_mode e.random_word)
          []
          (send_code x c e email ip country fs d).1
        ≡ log_in x c e' email [] (send_code x c e email ip country fs d).1
  unfolding check_code otp_by_email ◌>>=◌
  send-check e e' email ip country fs d r h early =
      let sent = send_code-Limited e email ip country fs d r h in
      let live : ltb (e.clock.app + c.otp_ttl) e'.clock.app ≡ false = ground arith in
      rw (sent.kept, live, text_eq_refl) refl

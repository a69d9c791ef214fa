-- ===== src/Identity/Login.antt =====
-- One login serves every user of a provider, in any interleaving with the refresh loop.
use cloud_provider_opentelek.Base.{
  ℕ, ◌≡◌, ◌∙◌, refl, sym, ap, subst, Option, none, some, arith, inl, inr, Option-cases,
}
use cloud_provider_opentelek.Identity.{
  Provider, aksk_provider, password_provider, authenticate_aksk, authenticate_password, log_in_with,
  Sdk, Session, Outcome, Transport, done, failed, build_transport, log_in_over, credentials,
  provider_opts, authenticate, get_provider, refresh, logged_in,
}

-- The lock makes each call of GetProvider one step, by a user or by a tick of the refresh loop.
pub data Steps {Client : Type 0} (sdk : Sdk Client) (s : Session Client)
    : Session Client → Type 0 where
  start : Steps sdk s s
  used : {t : Session Client} → Steps sdk s t → Steps sdk s (get_provider sdk t).1
  ticked : {t : Session Client} → Steps sdk s t → Steps sdk s (refresh sdk t).1

module _ {Client : Type 0} (sdk : Sdk Client) where
  get_provider-kept :
      (t : Session Client) (c : Client) → t.client ≡ some c → get_provider sdk t ≡ (done c, t)
  unfolding get_provider
  get_provider-kept t c h = rw h refl

  Steps-kept : (s s' : Session Client) (c : Client) → s.client ≡ some c → Steps sdk s s' → s ≡ s'
  unfolding refresh
  Steps-kept s s' c h start = refl
  Steps-kept s s' c h (used {t} k) =
      subst (λ u. s ≡ (get_provider sdk u).1) (Steps-kept s t c h k)
        (sym (ap (λ x. x.1) (get_provider-kept s c h)))
  Steps-kept s s' c h (ticked {t} k) =
      subst (λ u. s ≡ (get_provider sdk u).1) (Steps-kept s t c h k)
        (sym (ap (λ x. x.1) (get_provider-kept s c h)))

  logged_in-client :
      (s : Session Client) (r : Outcome Client) (c : Client)
      → (logged_in sdk s r).0 ≡ done c
      → (logged_in sdk s r).1.client ≡ some c
  unfolding logged_in
  logged_in-client s (done d) c h = ground arith
  logged_in-client s (failed e) c h = absurd (ground arith)

  new_client-held :
      (p : Provider) (client : Option Client) (n : ℕ) (c : Client)
      → (get_provider sdk (record { provider = p; client = client; tried = n })).0 ≡ done c
      → (get_provider sdk (record { provider = p; client = client; tried = n })).1.client ≡ some c
  unfolding get_provider
  new_client-held p none n c h =
      logged_in-client (record { provider = p; client = none; tried = n }) (authenticate sdk n p) c
        h
  new_client-held p (some d) n c h = ground arith

  -- Once GetProvider has returned a client, it returns that client without another login and without a
  -- change of the session, whatever uses and ticks of the refresh loop come in between.
  pub get_provider-Steps :
      (s s' : Session Client) (c : Client)
      → (get_provider sdk s).0 ≡ done c
      → Steps sdk (get_provider sdk s).1 s'
      → get_provider sdk s' ≡ (done c, (get_provider sdk s).1)
  get_provider-Steps s s' c h k =
      let held = new_client-held s.provider s.client s.tried c h in
      subst (λ u. get_provider sdk u ≡ (done c, (get_provider sdk s).1))
        (Steps-kept (get_provider sdk s).1 s' c held k)
        (get_provider-kept (get_provider sdk s).1 c held)

-- The client comes from a login with the credentials and the transport that the options of the provider say.
pub record IsFrom {Client : Type 0} (sdk : Sdk Client) (p : Provider) (c : Client) : Type 0 where
  pub attempt : ℕ
  pub blank : Client
  pub transport : Transport
  pub built : build_transport sdk attempt (provider_opts p) ≡ done transport
  pub login : sdk.log_in attempt blank transport (credentials p) ≡ some c

module _ {Client : Type 0} (sdk : Sdk Client) where
  log_in_over-IsFrom :
      (n : ℕ) (p : Provider) (blank c : Client) (built : Outcome Transport)
      → build_transport sdk n (provider_opts p) ≡ built
      → log_in_over sdk n (credentials p) blank built ≡ done c
      → IsFrom sdk p c
  unfolding log_in_over
  log_in_over-IsFrom n p blank c (failed e) same h = absurd (ground arith)
  log_in_over-IsFrom n p blank c (done t) same h =
      elim (Option-cases (sdk.log_in n blank t (credentials p))) [
        | inl e ↦ absurd (ground arith)
        | inr (d, e) ↦ record {
          attempt = n;
          blank = blank;
          transport = t;
          built = same;
          login = ground arith;
        }
      ]

  log_in_with-IsFrom :
      (n : ℕ) (p : Provider) (c : Client)
      → log_in_with sdk n (provider_opts p) (credentials p) ≡ done c
      → IsFrom sdk p c
  unfolding log_in_with
  log_in_with-IsFrom n p c h = elim (Option-cases (sdk.new_client n (provider_opts p).auth_url)) [
    | inl e ↦ absurd (ground arith)
    | inr (blank, e) ↦
        log_in_over-IsFrom n p blank c (build_transport sdk n (provider_opts p)) refl
          (rw (e, log_in_with) at h)
  ]

  authenticate-IsFrom :
      (n : ℕ) (p : Provider) (c : Client) → authenticate sdk n p ≡ done c → IsFrom sdk p c
  unfolding authenticate authenticate_aksk authenticate_password
  authenticate-IsFrom n (aksk_provider o) c h = log_in_with-IsFrom n (aksk_provider o) c h
  authenticate-IsFrom n (password_provider o) c h = log_in_with-IsFrom n (password_provider o) c h

  logged_in-IsFrom :
      (s : Session Client) (r : Outcome Client) (c : Client)
      → s.client ≡ none
      → authenticate sdk s.tried s.provider ≡ r
      → (logged_in sdk s r).1.client ≡ some c
      → IsFrom sdk s.provider c
  unfolding logged_in
  logged_in-IsFrom s (failed e) c blank same h = absurd (ground arith)
  logged_in-IsFrom s (done d) c blank same h =
      authenticate-IsFrom s.tried s.provider c (ground arith)

  logged_in-provider :
      (s : Session Client) (r : Outcome Client) → (logged_in sdk s r).1.provider ≡ s.provider
  unfolding logged_in
  logged_in-provider s (failed e) = refl
  logged_in-provider s (done d) = refl

  abbrev Has : Session Client → Type 0
  Has s = (c : Client) → s.client ≡ some c → IsFrom sdk s.provider c

  get_provider-Has :
      (p : Provider) (client : Option Client) (n : ℕ)
      → Has (record { provider = p; client = client; tried = n })
      → Has (get_provider sdk (record { provider = p; client = client; tried = n })).1
  unfolding get_provider
  get_provider-Has p (some d) n has = has
  get_provider-Has p none n has = λ c h.
      let s : Session Client = record { provider = p; client = none; tried = n } in
      let r = authenticate sdk n p in
      subst (λ q. IsFrom sdk q c) (sym (logged_in-provider s r))
        (logged_in-IsFrom s r c refl refl h)

  Steps-Has : (s s' : Session Client) → Has s → Steps sdk s s' → Has s'
  unfolding refresh
  Steps-Has s s' has start = has
  Steps-Has s s' has (used {t} k) =
      get_provider-Has t.provider t.client t.tried (Steps-Has s t has k)
  Steps-Has s s' has (ticked {t} k) =
      get_provider-Has t.provider t.client t.tried (Steps-Has s t has k)

  get_provider-provider :
      (p : Provider) (client : Option Client) (n : ℕ)
      → (get_provider sdk (record { provider = p; client = client; tried = n })).1.provider ≡ p
  unfolding get_provider
  get_provider-provider p (some d) n = refl
  get_provider-provider p none n =
      logged_in-provider (record { provider = p; client = none; tried = n }) (authenticate sdk n p)

  Steps-provider : (s s' : Session Client) → Steps sdk s s' → s'.provider ≡ s.provider
  unfolding refresh
  Steps-provider s s' start = refl
  Steps-provider s s' (used {t} k) =
      get_provider-provider t.provider t.client t.tried ∙ Steps-provider s t k
  Steps-provider s s' (ticked {t} k) =
      get_provider-provider t.provider t.client t.tried ∙ Steps-provider s t k

  -- From a provider without a client, whatever uses and ticks come, a client that the provider holds comes
  -- from a login with the credentials of its options over the transport that these options ask for.
  pub Steps-IsFrom :
      (s s' : Session Client) (c : Client)
      → s.client ≡ none
      → Steps sdk s s'
      → s'.client ≡ some c
      → IsFrom sdk s.provider c
  Steps-IsFrom s s' c blank k held =
      subst (λ p. IsFrom sdk p c) (Steps-provider s s' k)
        (Steps-Has s s' (λ d h. absurd (ground arith)) k c held)

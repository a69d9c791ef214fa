-- ===== src/Identity/Refresh.antt =====
-- What the token cache of pkg/identity/token_cache.go does to the users of the provider inside it.
use cloud_provider_opentelek.Base.{ℕ, ◌≡◌, refl, ap, List, [], ◌∷◌, Option}
use cloud_provider_opentelek.Base.Int.{ℤ}
use cloud_provider_opentelek.Text.{text_beq}
use cloud_provider_opentelek.Identity.{
  Provider, aksk_provider, password_provider, Sdk, Session, Outcome, get_provider, refresh,
  provider_method,
}
use cloud_provider_opentelek.Identity.Services.{
  Identity, plain, cached, or_default, default_refresh_interval, with_token_cache, provided,
  on_tick,
}

-- A user asks for the client, or the ticker of the refresh loop fires.
pub data Event : Type 0 where
  asks ticks : Event

-- The events without the ticks.
abbrev pub requests : List Event → List Event
requests [] = []
requests (Event.asks ∷ es) = Event.asks ∷ requests es
requests (Event.ticks ∷ es) = requests es

-- A request in place of each tick.
abbrev pub as_requests : List Event → List Event
as_requests [] = []
as_requests (_ ∷ es) = Event.asks ∷ as_requests es

-- The answers, one for each event, without those to the ticks.
abbrev pub without_ticks {ℓ} : {A : Type ℓ} → List Event → List A → List A
without_ticks [] rs = []
without_ticks (_ ∷ es) [] = []
without_ticks (Event.asks ∷ es) (r ∷ rs) = r ∷ without_ticks es rs
without_ticks (Event.ticks ∷ es) (r ∷ rs) = without_ticks es rs

module _ {Client : Type 0} (sdk : Sdk Client) where
  -- What the users are given, one after the other.
  unfoldable pub served : List Event → Identity Client → List (Outcome Client)
  unfolding provided on_tick
  served [] i = []
  served (Event.asks ∷ es) i = let (r, j) = provided sdk i in r ∷ served es j
  served (Event.ticks ∷ es) i = served es (on_tick sdk i)

  -- What they should be given: with AK/SK auth the answers of the provider, which no tick touches; with password
  -- auth those that it gives where each tick is one more request.
  abbrev pub expected : Provider → List Event → Session Client → List (Outcome Client)
  expected (aksk_provider _) es s = served (requests es) (plain s)
  expected (password_provider _) es s = without_ticks es (served (as_requests es) (plain s))

  served_plain :
      (es : List Event) (s : Session Client) → served es (plain s) ≡ served (requests es) (plain s)
  unfolding served
  served_plain [] s = refl
  served_plain (Event.asks ∷ es) s =
      ap (λ rs. (get_provider sdk s).0 ∷ rs) (served_plain es (get_provider sdk s).1)
  served_plain (Event.ticks ∷ es) s = served_plain es s

  served_cached :
      (interval : ℤ) (es : List Event) (s : Session Client)
      → served es (cached interval s) ≡ without_ticks es (served (as_requests es) (plain s))
  unfolding served refresh
  served_cached interval [] s = refl
  served_cached interval (Event.asks ∷ es) s =
      ap (λ rs. (get_provider sdk s).0 ∷ rs) (served_cached interval es (get_provider sdk s).1)
  served_cached interval (Event.ticks ∷ es) s = served_cached interval es (get_provider sdk s).1

  -- What WithTokenCache returns gives its users, in any interleaving with ticks of the refresh loop: with AK/SK
  -- auth what the provider itself answers to their requests, untouched by the ticks; with password auth what the
  -- provider answers where each tick is one more request, whose answer no user sees.
  pub served-with_token_cache :
      (es : List Event) (s : Session Client) (interval : Option ℤ)
      → served es (with_token_cache s interval) ≡ expected s.provider es s
  unfolding with_token_cache provider_method text_beq
  served-with_token_cache es s interval = go s.provider s.client s.tried
    where
      go :
          (p : Provider) (client : Option Client) (tried : ℕ)
          → served es
              (with_token_cache (record { provider = p; client = client; tried = tried }) interval)
            ≡ expected p es (record { provider = p; client = client; tried = tried })
      go (aksk_provider o) client tried =
          served_plain es (record { provider = aksk_provider o; client = client; tried = tried })
      go (password_provider o) client tried =
          served_cached (or_default interval default_refresh_interval) es
            (record { provider = password_provider o; client = client; tried = tried })

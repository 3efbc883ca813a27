-- ===== src/Startup/Names.antt =====
-- cmd/fleet-server/main.go: a list of names with commas between them.
use fleet_core.Prelude.{
  ℕ, String, ◌≡◌, refl, Option, none, some, ap, ◌∙◌, Bool, true, false, not, List, [], ◌∷◌, ◌++◌,
  ◌==◌, keep_if, map, All,
}
use fleet_core.Prelude.Bytes.{Text, is_empty, trim_space, split_by}
use fleet_core.Prelude.Exec.{Result, ok, err}
use fleet_core.Authority.{Crypto, Boot, Authority, CaError, server_tls_cert}

-- `splitCSV`
unfoldable pub split_csv : Text → List Text
unfolding split_by trim_space
split_csv s = keep_if (λ p. not (is_empty p)) (map trim_space (split_by (λ c. c == b',') s))

-- What `TLSConfig` sets. A client certificate is verified if there is one.
pub record TlsConfig (Key Cert : Type 0) : Type 0 where
  pub min_version : ℕ
  pub certificate : List Text × Key
  pub client_cas : List Cert
  pub verify_if_given : Bool

-- `TLSConfig(splitCSV(sans))`, with TLS 1.2 as the least version
module _ {Key Public Cert Request ModuleKey : Type 0}
    (lib : Crypto Key Public Cert Request ModuleKey) (text : Text → String) where
  unfoldable pub tls_config :
      Boot Key ModuleKey → Authority Key Cert ModuleKey → Text → Result CaError (TlsConfig Key Cert)
  unfolding split_csv
  tls_config w c sans = elim (server_tls_cert lib w c (map text (split_csv sans))) [
    | err e ↦ err e
    | ok cert ↦ ok (record {
      min_version = 771;
      certificate = cert;
      client_cas = c.cert ∷ [];
      verify_if_given = true;
    })
  ]

-- A name as it stands between the commas.
abbrev pub IsName : Text → Type 0
IsName w = (is_empty w ≡ false) × (trim_space w ≡ w) × All (λ c. (c == b',') ≡ false) w

abbrev pub with_commas : List Text → Text
with_commas [] = []
with_commas (w ∷ []) = w
with_commas (w ∷ v ∷ ws) = w ++ b',' ∷ with_commas (v ∷ ws)

abbrev is_comma : ℕ → Bool
is_comma c = c == b','

split_by-word : (w : Text) → All (λ c. is_comma c ≡ false) w → split_by is_comma w ≡ w ∷ []
unfolding split_by
split_by-word [] h = refl
split_by-word (c ∷ w) h = rw (h.0, split_by-word w h.1) refl

split_by-comma :
    (w s : Text)
    → All (λ c. is_comma c ≡ false) w
    → split_by is_comma (w ++ b',' ∷ s) ≡ w ∷ split_by is_comma s
unfolding split_by
split_by-comma [] s h = refl
split_by-comma (c ∷ w) s h = rw (h.0, split_by-comma w s h.1) refl

kept_name :
    (w : Text) (ps : List Text)
    → IsName w
    → keep_if (λ p. not (is_empty p)) (map trim_space (w ∷ ps))
      ≡ w ∷ keep_if (λ p. not (is_empty p)) (map trim_space ps)
kept_name w ps (full, trimmed, plain) = rw trimmed (rw full refl)

-- The names of a list come back in their order.
pub split_csv-with_commas : (ws : List Text) → All IsName ws → split_csv (with_commas ws) ≡ ws
unfolding split_csv split_by trim_space
split_csv-with_commas [] h = refl
split_csv-with_commas (w ∷ []) h = rw (split_by-word w h.0.2) (kept_name w [] h.0)
split_csv-with_commas (w ∷ v ∷ ws) h = rw (split_by-comma w (with_commas (v ∷ ws)) h.0.2) (
    kept_name w (split_by is_comma (with_commas (v ∷ ws))) h.0
    ∙ ap (◌∷◌ w) (split_csv-with_commas (v ∷ ws) h.1))

-- A name as an address, or as a DNS name.
abbrev as_address : Option String → List String
as_address none = []
as_address (some ip) = ip ∷ []

abbrev as_name : Option String → String → List String
as_name none s = s ∷ []
as_name (some ip) s = []

module _ {Key Public Cert Request ModuleKey : Type 0}
    (lib : Crypto Key Public Cert Request ModuleKey) where
  abbrev pub addresses : List String → List String
  addresses [] = []
  addresses (s ∷ sans) = as_address (lib.parse_ip s) ++ addresses sans

  abbrev pub dns_names_of : List String → List String
  dns_names_of [] = []
  dns_names_of (s ∷ sans) = as_name (lib.parse_ip s) s ++ dns_names_of sans

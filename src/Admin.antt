-- ===== src/Admin.antt =====
-- internal/server/admin.go and groups.go: the admin API. A handler is a call on the server's
-- state: it returns the body that it writes, or the status and text of `http.Error`. A request body
-- is an option, `none` where its JSON does not decode. Log lines and HTTP itself are left out.
pub mod Groups
pub mod Tenants
pub mod Machines
pub mod Scripts
pub mod Commands
pub mod Listings
pub mod Steps
pub mod Refusals
pub mod Desired
use fleet_core.Prelude.{ℕ, String, ◌||◌, Option, none, some, List, [], ◌∷◌, if◌then◌else◌, ◌=s=◌}
use fleet_core.Prelude.Exec.{Result, ok, err, Exec, pure, raise, ◌>>◌}
use Prim.Native.String.{◌++◌ as ◌++s◌}
use fleet_core.Api.{ModuleSpec}
use fleet_core.Store.{StoreError, not_found}
use fleet_core.Store.Modules.{get_module}
use fleet_core.Server.{Server}
use fleet_core.Commands.{cut_prefix}

pub record HttpError : Type 0 where
  pub status : ℕ
  pub message : String

-- `http.Error(w, message, status)`
abbrev pub http_error : ℕ → String → HttpError
http_error status message = record { status = status; message = message }

abbrev pub bad_request : String → HttpError
bad_request = http_error 400

abbrev pub unknown : String → HttpError
unknown = http_error 404

abbrev pub store_error : HttpError
store_error = http_error 500 "store error"

module _ {A : Type 0} where
  abbrev pub fail_with : HttpError → Result StoreError A → Result HttpError A
  fail_with e (ok a) = ok a
  fail_with e (err x) = err e

  -- `if err := call; err != nil { http.Error(e); return }`
  abbrev pub or_http : HttpError → Exec Server StoreError A → Exec Server HttpError A
  or_http e m s = let (r, s') = m s in (fail_with e r, s')

  -- `if err := json.NewDecoder(r.Body).Decode(&req); err != nil { http.Error(e); return }`
  abbrev pub decoded : HttpError → Option A → Exec Server HttpError A
  decoded e none = raise e
  decoded e (some req) = pure req

  -- `if err := call; err != nil { s.Log… }`: the error goes to the log only.
  abbrev pub logged : Exec Server StoreError A → Exec Server HttpError (Unit {0})
  logged m s = (ok tt, (m s).1)

unfoldable pub unknown_module : ModuleSpec → HttpError
unknown_module spec = bad_request ("unknown module " ++s (spec.name ++s ("@" ++s spec.version)))

unfoldable pub module_error : ModuleSpec → StoreError → HttpError
unfolding unknown_module
module_error spec not_found = unknown_module spec
module_error spec x = store_error

abbrev pub check_module : ModuleSpec → Exec Server HttpError (Unit {0})
check_module spec s = elim (get_module spec.name spec.version s.store).0 [
  | ok a ↦ (ok tt, s)
  | err x ↦ (err (module_error spec x), s)
]

unfoldable pub validate_modules : List ModuleSpec → Exec Server HttpError (Unit {0})
validate_modules [] = pure tt
validate_modules (spec ∷ specs) = check_module spec >> validate_modules specs

abbrev unauthorized : HttpError
unauthorized = http_error 401 "unauthorized"

-- The wrapper `auth`: `header` is the request's Authorization header.
unfoldable pub auth :
    {A : Type 0} → String → String → String → Exec Server HttpError A → Exec Server HttpError A
auth token path header next =
    if (path =s= "/healthz") || (path =s= "/dashboard")
    then next
    else elim (cut_prefix "Bearer " header) [
      | none ↦ raise unauthorized
      | some got ↦ if got =s= token then next else raise unauthorized
    ]

-- ===== src/Authority/Enrolled.antt =====
-- internal/server/server.go with internal/ca/ca.go: the certificate that an enrollment answers with.
use fleet_core.Prelude.{String, ◌≡◌, refl, sym, ap, subst, ◌∙◌, Option, none, some, List, ◌∷◌}
use fleet_core.Prelude.Exec.{Result, ok, err, Exec, pure, continue-eq-ok, ◌>>=◌, ◌>>◌}
use fleet_core.Prelude.Bytes.{Text}
use fleet_core.Api.{EnrollRequest, EnrollResponse}
use fleet_core.Server.{Server, new_id, time_now, on_store}
use fleet_core.Admin.{HttpError, decoded, bad_request, or_http}
use fleet_core.AgentApi.{Subject, identify, handle_enroll, forbidden}
use fleet_core.Store.Tokens.{consume_token}
use fleet_core.Authority.{CaError, Crypto, IsCrypto, Boot, Authority, sign_agent, parse_cert_pem}
use fleet_core.Authority.Issued.{sign_agent-parts, sign_agent-identify}

-- Whatever a handler answers with has the property.
record Answers {A : Type 0} (P : A → Type 0) (m : Exec Server HttpError A) : Type 0 where
  holds : (s : Server) (a : A) → (m s).0 ≡ ok a → P a

Answers-pure : {A : Type 0} {P : A → Type 0} (a : A) → P a → Answers P (pure a)
Answers-pure {P = P} a p = record { holds = λ s b e. subst P (cc e) p }

module _ {A B : Type 0} {P : B → Type 0} where
  Answers-bind :
      (m : Exec Server HttpError A) (f : A → Exec Server HttpError B)
      → ((a : A) → Answers P (f a))
      → Answers P (m >>= f)
  Answers-bind m f h = record {
    holds = λ s b e.
        let (a, fine, same) = continue-eq-ok (m s).0 f (m s).1 e in
        (h a).holds (m s).1 b (ap (λ p. p.0) (sym same) ∙ e);
  }

  Answers-next :
      (m : Exec Server HttpError A) (n : Exec Server HttpError B) → Answers P n → Answers P (m >> n)
  Answers-next m n h = Answers-bind m (λ a. n) (λ a. h)

  Answers-decoded :
      (e : HttpError) (o : Option A) (f : A → Exec Server HttpError B)
      → ((a : A) → o ≡ some a → Answers P (f a))
      → Answers P (decoded e o >>= f)
  Answers-decoded e none f h = record { holds = λ s b e'. cc e' }
  Answers-decoded e (some a) f h = record { holds = λ s b e'. (h a refl).holds s b e' }

module _ {Key Public Cert Request ModuleKey : Type 0}
    (lib : Crypto Key Public Cert Request ModuleKey) (laws : IsCrypto lib) (text : Text → String)
    (bytes : String → Text)
    (kept : (der : Text)
      → let pem = lib.encode (record { type = "CERTIFICATE"; bytes = der }) in
        bytes (text pem) ≡ pem)
    (w : Boot Key ModuleKey) (c : Authority Key Cert ModuleKey) where
  abbrev as_string : Result CaError Text → Option String
  as_string (ok cert_pem) = some (text cert_pem)
  as_string (err e) = none

  as_string-some :
      (r : Result CaError Text) (o : String)
      → as_string r ≡ some o
      → (cert_pem : Text) × (r ≡ ok cert_pem) × (o ≡ text cert_pem)
  as_string-some (ok cert_pem) o h = (cert_pem, refl, cc)
  as_string-some (err e) o h = cc

  -- `SignAgent` as the handlers call it
  abbrev pub signer : String → String → String → Option String
  signer csr machine tenant = as_string (sign_agent lib w c (bytes csr) machine tenant)

  -- The answer's certificate was issued for the answer's machine and tenant.
  abbrev Signed : String → EnrollResponse → Type 0
  Signed csr answer = signer csr answer.machine_id answer.tenant_id ≡ some answer.cert_pem

  Signed-issued :
      (csr : String) (answer : EnrollResponse)
      → Signed csr answer
      → (cert_pem : Text) × (sign_agent lib w c (bytes csr) answer.machine_id answer.tenant_id
          ≡ ok cert_pem)
        × (bytes answer.cert_pem ≡ cert_pem)
  Signed-issued csr answer h =
      let (cert_pem, r, e) = as_string-some _ _ h in
      let (csr', der, read, made, is_pem) = sign_agent-parts lib laws w c _ _ _ cert_pem r in
      (cert_pem, r, ap bytes e ∙ ap (λ p. bytes (text p)) is_pem ∙ kept der ∙ sym is_pem)

  handle_enroll-Signed :
      (ca_pem : String) (module_pub : Option String) (req : EnrollRequest)
      → Answers (Signed req.csr_pem) (handle_enroll signer ca_pem module_pub (some req))
  unfolding handle_enroll
  handle_enroll-Signed ca_pem module_pub req = Answers-bind time_now _ λ now.
      Answers-bind (or_http (forbidden "invalid token") (on_store (consume_token now req.token))) _
        λ tok. Answers-bind new_id _ λ machine_id.
          Answers-decoded (bad_request "csr rejected") (signer req.csr_pem machine_id tok.tenant_id)
            _ λ cert signed. search (Answers-next, Answers-bind, Answers-pure, signed) depth 8

  -- The certificate that an enrollment answers with makes its holder the machine and the tenant of the
  -- answer.
  pub handle_enroll-identify :
      (ca_pem : String) (module_pub : Option String) (req : EnrollRequest) (s : Server)
      (answer : EnrollResponse) (chain : List Subject)
      → (handle_enroll signer ca_pem module_pub (some req) s).0 ≡ ok answer
      → (cert : Cert) × (parse_cert_pem lib (bytes answer.cert_pem) ≡ ok cert)
        × (identify (some (lib.subject cert ∷ chain))
            ≡ ok (record { machine_id = answer.machine_id; tenant_id = answer.tenant_id }))
  handle_enroll-identify ca_pem module_pub req s answer chain h =
      let (cert_pem, issued, same) =
        Signed-issued req.csr_pem answer
          ((handle_enroll-Signed ca_pem module_pub req).holds s answer h) in
      let (cert, parsed, me) =
        sign_agent-identify lib laws w c (bytes req.csr_pem) answer.machine_id answer.tenant_id
          cert_pem chain issued in
      (cert, ap (parse_cert_pem lib) same ∙ parsed, me)

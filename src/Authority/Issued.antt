-- ===== src/Authority/Issued.antt =====
-- internal/ca/ca.go and internal/server/server.go: the certificates that the authority issues, and whom
-- the agent API takes their holder for.
use fleet_core.Prelude.{String, ◌≡◌, refl, ap, ◌∙◌, some, List, ◌∷◌}
use fleet_core.Prelude.Exec.{Result, ok, err}
use fleet_core.Prelude.Bytes.{Text}
use fleet_core.AgentApi.{Subject, identify}
use fleet_core.Authority.{
  CaError, Crypto, IsCrypto, Boot, Authority, agent_template, read_request, sign_agent,
  parse_cert_pem, ◌>>=◌, of_library,
}
use fleet_core.Authority.Reload.{parse_cert-encode}

>>=-ok :
    {A B : Type 0} (r : Result CaError A) (f : A → Result CaError B) (b : B)
    → (r >>= f) ≡ ok b
    → (a : A) × (r ≡ ok a) × (f a ≡ ok b)
>>=-ok (ok a) f b h = (a, refl, h)
>>=-ok (err e) f b h = cc

of_library-ok : {A : Type 0} (r : Result String A) (a : A) → of_library r ≡ ok a → r ≡ ok a
of_library-ok (ok b) a h = cc
of_library-ok (err e) a h = cc

module _ {Key Public Cert Request ModuleKey : Type 0}
    (lib : Crypto Key Public Cert Request ModuleKey) (laws : IsCrypto lib) where
  -- The parts of an issue that succeeds.
  pub sign_agent-parts :
      (w : Boot Key ModuleKey) (c : Authority Key Cert ModuleKey) (csr_pem : Text)
      (machine tenant : String) (cert_pem : Text)
      → sign_agent lib w c csr_pem machine tenant ≡ ok cert_pem
      → (csr : Request) × (der : Text) × (read_request lib csr_pem ≡ ok csr)
        × (lib.create
              (agent_template lib w machine tenant)
              (some c.cert)
              (lib.request_key csr)
              c.key
            ≡ ok der)
        × (cert_pem ≡ lib.encode (record { type = "CERTIFICATE"; bytes = der }))
  unfolding sign_agent
  sign_agent-parts w c csr_pem machine tenant cert_pem h =
      let (csr, e, h') = >>=-ok (read_request lib csr_pem) _ cert_pem h in
      let (der, e', h'') =
        >>=-ok
          (of_library (
            lib.create (agent_template lib w machine tenant) (some c.cert) (lib.request_key csr)
              c.key))
          _ cert_pem h' in
      (csr, der, e, of_library-ok _ der e', cc)

  -- Whoever holds a certificate that the authority issued for a machine of a tenant is taken for that
  -- machine and tenant, whatever the request for the certificate said.
  pub sign_agent-identify :
      (w : Boot Key ModuleKey) (c : Authority Key Cert ModuleKey) (csr_pem : Text)
      (machine tenant : String) (cert_pem : Text) (chain : List Subject)
      → sign_agent lib w c csr_pem machine tenant ≡ ok cert_pem
      → (cert : Cert) × (parse_cert_pem lib cert_pem ≡ ok cert)
        × (identify (some (lib.subject cert ∷ chain))
            ≡ ok (record { machine_id = machine; tenant_id = tenant }))
  unfolding identify agent_template
  sign_agent-identify w c csr_pem machine tenant cert_pem chain h =
      let (csr, der, e, made, is_pem) = sign_agent-parts w c csr_pem machine tenant cert_pem h in
      let (cert, parsed, subject) = laws.parse_create _ _ _ _ _ made in
      (
        cert,
        ap (parse_cert_pem lib) is_pem ∙ parse_cert-encode lib laws der cert parsed,
        ap (λ s. identify (some (s ∷ chain))) subject,
      )

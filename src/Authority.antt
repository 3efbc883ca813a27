-- ===== src/Authority.antt =====
-- internal/ca/ca.go: the certificate authority of the control plane. The standard library's keys,
-- certificates, signatures and PEM are parameters (Crypto), and so are what a boot draws and meets (Boot).
pub mod Reload
pub mod Boots
pub mod Issued
pub mod Enrolled
use fleet_core.Prelude.{
  ℕ, ◌-◌, ◌≡◌, String, Bool, any, ◌=s=◌, if◌then◌else◌, true, false, Option, none, some, List, [],
  ◌∷◌, ◌++◌,
}
use fleet_core.Prelude.Exec.{Result, ok, err}
use fleet_core.Prelude.Bytes.{Text}
use fleet_core.GoMap.{get, put}
use fleet_core.AgentApi.{Subject}
use fleet_core.Agent.Enrollment.{Files, Writes}

pub record Block : Type 0 where
  pub type : String
  pub bytes : Text

-- The extended usages that the source asks for.
pub data ExtUsage : Type 0 where
  client_auth server_auth : ExtUsage

-- The fields of `x509.Certificate` that the source sets. Times are in seconds.
pub record Template : Type 0 where
  pub serial : ℕ
  pub subject : Subject
  pub not_before : ℕ
  pub not_after : ℕ
  pub is_ca : Bool
  pub cert_sign : Bool
  pub ext_usage : List ExtUsage
  pub ip_addresses : List String
  pub dns_names : List String

pub data CaError : Type 0 where
  library : String → CaError
  unwritable missing no_block : String → CaError
  no_certificate not_ed25519 invalid_csr : CaError
  csr_signature : String → CaError
  create_ca : CaError → CaError

abbrev pub of_library : {A : Type 0} → Result String A → Result CaError A
of_library (ok a) = ok a
of_library (err e) = err (library e)

infixl 10 ◌>>=◌
abbrev pub ◌>>=◌ : {A B : Type 0} → Result CaError A → (A → Result CaError B) → Result CaError B
ok a >>= f = f a
err e >>= f = err e

-- What follows a step that may have failed, on the files that it left.
abbrev pub and_then :
    {A B : Type 0}
    → Result CaError A × Files
    → (A → Files → Result CaError B × Files)
    → Result CaError B × Files
and_then (ok a, files) f = f a files
and_then (err e, files) f = (err e, files)

-- `fmt.Errorf("create ca: %w", err)`
abbrev pub wrapped : {A : Type 0} → Result CaError A × Files → Result CaError A × Files
wrapped (ok a, files) = (ok a, files)
wrapped (err e, files) = (err (create_ca e), files)

-- The packages crypto and encoding/pem: an ECDSA key, its public half, a parsed certificate, a request
-- and an ed25519 key are what the library makes of them.
pub record Crypto (Key Public Cert Request ModuleKey : Type 0) : Type 0 where
  pub encode : Block → Text
  pub decode : Text → Option Block
  pub public : Key → Public
  pub marshal_key : Key → Result String Text
  pub parse_key : Text → Result String Key
  pub marshal_module_key : ModuleKey → Result String Text
  -- `ParsePKCS8PrivateKey`: nothing for a key of another kind
  pub parse_module_key : Text → Result String (Option ModuleKey)
  pub marshal_module_public : ModuleKey → Result String Text
  pub sign : ModuleKey → Text → Text
  -- `none` is the template as its own parent.
  pub create : Template → Option Cert → Public → Key → Result String Text
  pub parse_certificate : Text → Result String Cert
  pub parse_request : Text → Result String Request
  pub check_signature : Request → Option String
  pub request_key : Request → Public
  pub subject : Cert → Subject
  pub raw : Cert → Text
  -- `net.ParseIP`, as the text of the address
  pub parse_ip : String → Option String

-- The labels that the source writes.
abbrev pub pem_types : List String
pem_types = "CERTIFICATE" ∷ "EC PRIVATE KEY" ∷ "PRIVATE KEY" ∷ "PUBLIC KEY" ∷ []

-- What the library's documents say: what was encoded or marshalled is read back, and a certificate has
-- the subject of its template.
pub record IsCrypto {Key Public Cert Request ModuleKey : Type 0}
    (lib : Crypto Key Public Cert Request ModuleKey) : Type 0 where
  pub decode_encode :
      (b : Block) → any (λ t. b.type =s= t) pem_types ≡ true → lib.decode (lib.encode b) ≡ some b
  pub parse_marshal : (k : Key) (der : Text) → lib.marshal_key k ≡ ok der → lib.parse_key der ≡ ok k
  pub parse_marshal_module :
      (k : ModuleKey) (der : Text)
      → lib.marshal_module_key k ≡ ok der
      → lib.parse_module_key der ≡ ok (some k)
  pub parse_create :
      (t : Template) (parent : Option Cert) (p : Public) (k : Key) (der : Text)
      → lib.create t parent p k ≡ ok der
      → (c : Cert) × (lib.parse_certificate der ≡ ok c) × (lib.subject c ≡ t.subject)

-- The clock and the random numbers: `add_years` is `AddDate` of the current time.
pub record Boot (Key ModuleKey : Type 0) : Type 0 where
  pub dir_error : Option String
  pub now : ℕ
  pub add_years : ℕ → ℕ
  pub serial : ℕ
  pub key : Result String Key
  pub module_key : Result String ModuleKey
  pub writes : Writes

-- `ModulePub` is the public half of `ModulePriv`.
pub record Authority (Key Cert ModuleKey : Type 0) : Type 0 where
  pub cert : Cert
  pub key : Key
  pub cert_pem : Text
  pub module_priv : ModuleKey

-- One name, with the address that it is.
unfoldable pub add_san : Option String → String → Template → Template
add_san (some ip) s tmpl = record tmpl { ip_addresses = tmpl.ip_addresses ++ ip ∷ [] }
add_san none s tmpl = record tmpl { dns_names = tmpl.dns_names ++ s ∷ [] }

module _ {Key Public Cert Request ModuleKey : Type 0}
    (lib : Crypto Key Public Cert Request ModuleKey) where
  unfoldable pub write_pem : Writes → String → Block → Files → Result CaError (Unit {0}) × Files
  write_pem writes name b files = elim (writes name) [
    | none ↦ (ok tt, put name (lib.encode b) files)
    | some none ↦ (err (unwritable name), files)
    | some (some part) ↦ (err (unwritable name), put name part files)
  ]

  unfoldable pub read_file : String → Files → Result CaError Text
  read_file name files = elim (get name files) [ none ↦ err (missing name) | some raw ↦ ok raw ]

  unfoldable pub read_pem : String → Files → Result CaError Text
  unfolding read_file
  read_pem name files = do
    raw ← read_file name files
    elim (lib.decode raw) [ none ↦ err (no_block name) | some b ↦ ok b.bytes ]

  unfoldable pub parse_cert_pem : Text → Result CaError Cert
  parse_cert_pem raw = elim (lib.decode raw) [
    | none ↦ err no_certificate
    | some b ↦ of_library (lib.parse_certificate b.bytes)
  ]

  unfoldable pub root_template : Boot Key ModuleKey → Template
  root_template w = record {
    serial = w.serial;
    subject = record { common_name = "fleetcore-root-ca"; organizational_unit = [] };
    not_before = w.now - 3600;
    not_after = w.add_years 10;
    is_ca = true;
    cert_sign = true;
    ext_usage = [];
    ip_addresses = [];
    dns_names = [];
  }

  -- What `create` makes before it writes: the certificate, the key and the module key.
  unfoldable pub material : Boot Key ModuleKey → Result CaError (Text × Text × ModuleKey)
  unfolding root_template
  material w = do
    key ← of_library w.key
    der ← of_library (lib.create (root_template w) none (lib.public key) key)
    key_der ← of_library (lib.marshal_key key)
    mod_priv ← of_library w.module_key
    ok (der, key_der, mod_priv)

  -- The three writes in their order. An error ends them.
  unfoldable pub write_material :
      Writes → Text × Text × ModuleKey → Files → Result CaError (Unit {0}) × Files
  unfolding write_pem
  write_material writes (der, key_der, mod_priv) files =
      and_then (write_pem writes "ca.pem" (record { type = "CERTIFICATE"; bytes = der }) files)
        (λ u files'.
          and_then
            (write_pem writes "ca.key" (record { type = "EC PRIVATE KEY"; bytes = key_der }) files')
            (λ u files''.
              and_then (of_library (lib.marshal_module_key mod_priv), files'')
                (λ mod_der.
                  write_pem writes "module-signing.key"
                    (record { type = "PRIVATE KEY"; bytes = mod_der }))))

  unfoldable pub create : Boot Key ModuleKey → Files → Result CaError (Unit {0}) × Files
  unfolding material write_material
  create w files = and_then (material w, files) (write_material w.writes)

  unfoldable pub load : Files → Result CaError (Authority Key Cert ModuleKey)
  unfolding read_file parse_cert_pem read_pem
  load files = do
    cert_pem ← read_file "ca.pem" files
    cert ← parse_cert_pem cert_pem
    key_der ← read_pem "ca.key" files
    key ← of_library (lib.parse_key key_der)
    mod_der ← read_pem "module-signing.key" files
    any_key ← of_library (lib.parse_module_key mod_der)
    elim any_key [
      | none ↦ err not_ed25519
      | some mod_priv ↦
          ok (record { cert = cert; key = key; cert_pem = cert_pem; module_priv = mod_priv })
    ]

  unfoldable pub load_or_create :
      Boot Key ModuleKey → Files → Result CaError (Authority Key Cert ModuleKey) × Files
  unfolding create load
  load_or_create w files = elim w.dir_error [
    | some e ↦ (err (library e), files)
    | none ↦ elim (get "ca.pem" files) [
      | some c ↦ (load files, files)
      | none ↦ and_then (wrapped (create w files)) (λ u files'. (load files', files'))
    ]
  ]

  -- The template of an agent's certificate. `AddDate(1, 0, 0)`
  unfoldable pub agent_template : Boot Key ModuleKey → String → String → Template
  agent_template w machine_id tenant_id = record {
    serial = w.serial;
    subject = record { common_name = machine_id; organizational_unit = tenant_id ∷ [] };
    not_before = w.now - 3600;
    not_after = w.add_years 1;
    is_ca = false;
    cert_sign = false;
    ext_usage = client_auth ∷ [];
    ip_addresses = [];
    dns_names = [];
  }

  -- `pem.Decode` and the test of the type, `ParseCertificateRequest` and `CheckSignature`
  unfoldable pub read_request : Text → Result CaError Request
  read_request csr_pem = elim (lib.decode csr_pem) [
    | none ↦ err invalid_csr
    | some b ↦
        if b.type =s= "CERTIFICATE REQUEST"
        then (do
          csr ← of_library (lib.parse_request b.bytes)
          elim (lib.check_signature csr) [ none ↦ ok csr | some e ↦ err (csr_signature e) ])
        else err invalid_csr
  ]

  unfoldable pub sign_agent :
      Boot Key ModuleKey
      → Authority Key Cert ModuleKey
      → Text
      → String
      → String
      → Result CaError Text
  unfolding agent_template read_request
  sign_agent w c csr_pem machine_id tenant_id = do
    csr ← read_request csr_pem
    der ← of_library (
        lib.create (agent_template w machine_id tenant_id) (some c.cert) (lib.request_key csr)
          c.key)
    ok (lib.encode (record { type = "CERTIFICATE"; bytes = der }))

  -- The loop over the names: an address or a DNS name.
  unfoldable pub add_sans : List String → Template → Template
  unfolding add_san
  add_sans [] tmpl = tmpl
  add_sans (s ∷ sans) tmpl = add_sans sans (add_san (lib.parse_ip s) s tmpl)

  unfoldable pub server_template : Boot Key ModuleKey → Template
  server_template w = record {
    serial = w.serial;
    subject = record { common_name = "fleetcore-server"; organizational_unit = [] };
    not_before = w.now - 3600;
    not_after = w.add_years 2;
    is_ca = false;
    cert_sign = false;
    ext_usage = server_auth ∷ [];
    ip_addresses = [];
    dns_names = [];
  }

  -- The chain and the key.
  unfoldable pub server_tls_cert :
      Boot Key ModuleKey
      → Authority Key Cert ModuleKey
      → List String
      → Result CaError (List Text × Key)
  unfolding add_sans server_template
  server_tls_cert w c sans = do
    key ← of_library w.key
    der ←
        of_library
          (lib.create (add_sans sans (server_template w)) (some c.cert) (lib.public key) c.key)
    ok (der ∷ lib.raw c.cert ∷ [], key)

  unfoldable pub sign_module : Authority Key Cert ModuleKey → Text → Text
  sign_module c payload = lib.sign c.module_priv payload

  unfoldable pub module_pub_pem : Authority Key Cert ModuleKey → Result CaError Text
  module_pub_pem c = do
    der ← of_library (lib.marshal_module_public c.module_priv)
    ok (lib.encode (record { type = "PUBLIC KEY"; bytes = der }))

-- ===== src/Agent/Enrollment.antt =====
-- internal/agent/agent.go: enrollment, the agent's identity on disk and its renewal. A file holds bytes; the
-- fields of the control plane's answers are ASCII. Keys, certificates and what the network answers are
-- parameters, and so is the order in which a `range` takes a map.
pub mod Files
pub mod Renewal
use fleet_core.Prelude.{
  ℕ, ◌+◌, ◌-◌, ◌*◌, ◌^◌, String, Bool, not, ◌||◌, Option, none, some, List, [], ◌∷◌, ltb, leb, ◌==◌,
  if◌then◌else◌, is_some, any,
}
use fleet_core.Prelude.Exec.{Result, ok, err}
use fleet_core.Prelude.Bytes.{Text, ascii, is_empty, to_lower, trim_space, ◌=t=◌}
use fleet_core.GoMap.{GoMap, get, put}
use fleet_core.Api.{EnrollRequest, EnrollResponse}

pub data AgentError : Type 0 where
  no_dir no_key no_answer bad_answer bad_pair : String → AgentError
  rejected : String → String → AgentError
  missing unwritable : String → AgentError
  invalid_ca : AgentError

-- An HTTP answer: the status, the start of the body as text, and the body's JSON.
pub record Response (A : Type 0) : Type 0 where
  pub code : ℕ
  pub status : String
  pub message : String
  pub value : Result String A

abbrev decoded : {A : Type 0} → Result String A → Result AgentError A
decoded (ok a) = ok a
decoded (err e) = err (bad_answer e)

-- `postJSON`, whose `out` is not nil
unfoldable pub post_json : {A : Type 0} → Result String (Response A) → Result AgentError A
post_json (err e) = err (no_answer e)
post_json (ok r) = if leb 300 r.code then err (rejected r.status r.message) else decoded r.value

-- `postJSON`, whose `out` is nil
unfoldable pub post_only : {A : Type 0} → Result String (Response A) → Result AgentError (Unit {0})
post_only (err e) = err (no_answer e)
post_only (ok r) = if leb 300 r.code then err (rejected r.status r.message) else ok tt

unfoldable pub get_json : {A : Type 0} → Result String (Response A) → Result AgentError A
get_json (err e) = err (no_answer e)
get_json (ok r) = if leb 300 r.code then err (rejected r.status "") else decoded r.value

-- The files of the agent's directory.
abbrev pub Files : Type 0
Files = GoMap Text

-- How the write of a file ends: an error comes with what the file then holds, if that has changed.
abbrev pub Writes : Type 0
Writes = String → Option (Option Text)

unfoldable pub write_file : Writes → String → Text → Files → Result AgentError (Unit {0}) × Files
write_file writes name content files = elim (writes name) [
  | none ↦ (ok tt, put name content files)
  | some none ↦ (err (unwritable name), files)
  | some (some part) ↦ (err (unwritable name), put name part files)
]

unfoldable pub write_files :
    Writes → List (String × Text) → Files → Result AgentError (Unit {0}) × Files
write_files writes [] files = (ok tt, files)
write_files writes ((name, content) ∷ fs) files =
    let (r, files') = write_file writes name content files in
    elim r [ err e ↦ (err e, files') | ok u ↦ write_files writes fs files' ]

-- `VerifyPeerCertificate`: the fingerprints of the server's certificates, and the expected one.
unfoldable pub peer_accepted : Text → List Text → Bool
peer_accepted fingerprint sums =
    is_empty fingerprint || any (λ sum. to_lower sum =t= to_lower fingerprint) sums

-- What the host and the network do in `Enroll`. The answer is that of a server whose certificates
-- are accepted.
pub record FirstContact : Type 0 where
  pub dir_error : Option String
  pub csr : Result String String
  pub certificates : List Text
  pub answer : EnrollRequest → Result String (Response EnrollResponse)
  pub key_pem : Result String Text
  pub writes : Writes

unfoldable pub identity_files : Text → EnrollResponse → List (String × Text)
identity_files key er =
    ("key.pem", key)
    ∷ ("cert.pem", ascii er.cert_pem)
    ∷ ("ca.pem", ascii er.ca_pem)
    ∷ ("module-pub.pem", ascii er.module_pub_pem)
    ∷ ("machine-id", ascii er.machine_id)
    ∷ []

-- `Enroll` from the answer on.
unfoldable pub install :
    (List (String × Text) → List (String × Text))
    → FirstContact
    → Response EnrollResponse
    → Files
    → Result AgentError (Unit {0}) × Files
install order w r files =
    if not (r.code == 200) then (err (rejected r.status r.message), files) else elim r.value [
      | err e ↦ (err (bad_answer e), files)
      | ok er ↦ elim w.key_pem [
        | err e ↦ (err (no_key e), files)
        | ok key ↦ write_files w.writes (order (identity_files key er)) files
      ]
    ]

unfoldable pub enroll :
    (List (String × Text) → List (String × Text))
    → FirstContact
    → String
    → String
    → Text
    → Files
    → Result AgentError (Unit {0}) × Files
enroll order w token name fingerprint files = elim w.dir_error [
  | some e ↦ (err (no_dir e), files)
  | none ↦ elim w.csr [
    | err e ↦ (err (no_key e), files)
    | ok csr ↦
        if not (peer_accepted fingerprint w.certificates)
        then (err (no_answer "server fingerprint mismatch"), files)
        else elim (w.answer (record { token = token; csr_pem = csr; name = name })) [
          | err e ↦ (err (no_answer e), files)
          | ok r ↦ install order w r files
        ]
  ]
]

-- `Enrolled`
unfoldable pub enrolled : Files → Bool
enrolled files = is_some (get "cert.pem" files)

pub record Keys : Type 0 where
  pub machine_id : Text
  pub mod_key : Text
  pub cert : Text
  pub key : Text
  pub ca : Text

abbrev read_file : String → Files → Result AgentError Text
read_file name files = elim (get name files) [ none ↦ err (missing name) | some c ↦ ok c ]

-- `init`: `pair` is the error of the key pair, and `has_certs` tells whether a PEM text has one.
unfoldable pub load_keys :
    (Text → Text → Option String) → (Text → Bool) → Files → Result AgentError Keys
load_keys pair has_certs files = elim (read_file "cert.pem" files) [
  | err e ↦ err e
  | ok cert ↦ elim (read_file "key.pem" files) [
    | err e ↦ err e
    | ok key ↦ elim (pair cert key) [
      | some e ↦ err (bad_pair e)
      | none ↦ elim (read_file "ca.pem" files) [
        | err e ↦ err e
        | ok ca ↦
            if not (has_certs ca) then err invalid_ca else elim (read_file "machine-id" files) [
              | err e ↦ err e
              | ok id ↦ elim (read_file "module-pub.pem" files) [
                | err e ↦ err e
                | ok mod_key ↦ ok (record {
                  machine_id = trim_space id;
                  mod_key = mod_key;
                  cert = cert;
                  key = key;
                  ca = ca;
                })
              ]
            ]
      ]
    ]
  ]
]

-- What `maybeRenewCert` meets: when a certificate ends, in nanoseconds, the request that a key makes,
-- and the answer of the control plane.
pub record RenewalWorld : Type 0 where
  pub now : ℕ
  pub not_after : Text → Option ℕ
  pub csr : Text → Option String
  pub answer : String → Result String (Response String)
  pub writes : Writes

-- 30 days
abbrev pub renewal_window : ℕ
renewal_window = 30 * 24 * 3600 * 10 ^ 9

-- `maybeRenewCert` up to the write of the certificate: every failure only logs. The identity is loaded
-- from the files again afterwards.
unfoldable pub maybe_renew_cert : RenewalWorld → Files → Files
maybe_renew_cert w files = elim (get "cert.pem" files) [
  | none ↦ files
  | some cert ↦ elim (w.not_after cert) [
    | none ↦ files
    | some end ↦ if ltb (w.now + renewal_window) end then files else elim (get "key.pem" files) [
      | none ↦ files
      | some key ↦ elim (w.csr key) [
        | none ↦ files
        | some csr ↦ elim (post_json (w.answer csr)) [
          | err e ↦ files
          | ok cert' ↦ (write_file w.writes "cert.pem" (ascii cert') files).1
        ]
      ]
    ]
  ]
]

-- ===== src/Tests/Boot.antt =====
-- Concrete boots of the control plane and starts of the agent, with a library of keys and certificates that
-- does what the real one promises.
use fleet_core.Prelude.{
  ℕ, zero, suc, ◌+◌, ◌*◌, String, ◌≡◌, refl, sym, ap, ap₂, ◌∙◌, true, ◌&&◌, Option, none, some,
  List, [], ◌∷◌, map, any, if◌then◌else◌, ◌=s=◌, eq_iff, arith, ◌==◌,
}
use fleet_core.Prelude.Exec.{Result, ok, err}
use fleet_core.Prelude.Int.{pos}
use fleet_core.Prelude.Bytes.{Text, ascii, ◌=t=◌}
use Prim.Native.Char.{code}
use fleet_core.GoMap.{get}
use fleet_core.Server.{time_now, new_id}
use fleet_core.Store.{commit}
use fleet_core.Store.Tokens.{consume_token}
use fleet_core.Store.Machines.{save_machine}
use fleet_core.AgentApi.{Subject, identify, handle_enroll}
use fleet_core.Authority.{
  root_template, Crypto, IsCrypto, Boot, Authority, pem_types, create_ca, unwritable, missing,
  load_or_create, parse_cert_pem, sign_agent,
}
use fleet_core.Api.{EnrollRequest, EnrollResponse}
use fleet_core.Authority.Enrolled.{signer, handle_enroll-identify}
use fleet_core.Startup.{World, Flags, restarts}
use fleet_core.Startup.Identity.{unasked, restarts-unasked}
use fleet_core.Agent.Enrollment.{FirstContact, enrolled}
use fleet_core.Tests.Host.{stored, contact, near_end, no_pair_error, any_ca, in_order}
use fleet_core.Tests.{server}
use fleet_core.Authority.Boots.{Draws, first_boot, interrupted_boot}

ok_inj : {A : Type 0} {a b : A} → ◌≡◌ {A = Result String A} (ok a) (ok b) → a ≡ b
ok_inj h = cc

-- The labels by number.
abbrev label_number : String → ℕ
label_number s =
    if s =s= "CERTIFICATE"
    then 1
    else if s =s= "EC PRIVATE KEY"
    then 2
    else if s =s= "PRIVATE KEY"
    then 3
    else if s =s= "PUBLIC KEY"
    then 4
    else 0

abbrev label_of : ℕ → String
label_of n =
    if n == 1
    then "CERTIFICATE"
    else if n == 2
    then "EC PRIVATE KEY"
    else if n == 3
    then "PRIVATE KEY"
    else if n == 4
    then "PUBLIC KEY"
    else "CERTIFICATE REQUEST"

label_of-label_number :
    (s : String) → any (λ t. s =s= t) pem_types ≡ true → label_of (label_number s) ≡ s
label_of-label_number s h = ground (
  arith,
  eq_iff s "CERTIFICATE",
  eq_iff s "EC PRIVATE KEY",
  eq_iff s "PRIVATE KEY",
  eq_iff s "PUBLIC KEY",
  h,
)

abbrev root : Subject
root = record { common_name = "fleetcore-root-ca"; organizational_unit = [] }

abbrev enrolled_box : Subject
enrolled_box = record { common_name = "00ff00ff"; organizational_unit = "t1" ∷ [] }

-- The library knows two subjects.
abbrev subject_number : Subject → Result String ℕ
subject_number s = elim s.organizational_unit [
  | [] ↦ if s.common_name =s= "fleetcore-root-ca" then ok 0 else err "unknown"
  | u ∷ us ↦ elim us [
    | [] ↦ if (s.common_name =s= "00ff00ff") && u =s= "t1" then ok 1 else err "unknown"
    | v ∷ vs ↦ err "unknown"
  ]
]

abbrev subject_at : ℕ → Subject
subject_at n = if n == 0 then root else enrolled_box

subject_at-subject_number :
    (cn : String) (ou : List String) (n : ℕ)
    → let s : Subject = record { common_name = cn; organizational_unit = ou } in
      subject_number s ≡ ok n → subject_at n ≡ s
subject_at-subject_number cn [] n h = ground (arith, eq_iff cn "fleetcore-root-ca", h)
subject_at-subject_number cn (u ∷ []) n h = ground (arith, eq_iff cn "00ff00ff", eq_iff u "t1", h)
subject_at-subject_number cn (u ∷ v ∷ us) n h = cc

abbrev toy : Crypto ℕ ℕ Subject ℕ ℕ
toy = record {
  encode = λ b. label_number b.type ∷ b.bytes;
  decode = λ raw. elim raw [
    | [] ↦ none
    | n ∷ bytes ↦ some (record { type = label_of n; bytes = bytes })
  ];
  public = λ k. k;
  marshal_key = λ k. ok (k ∷ []);
  parse_key = λ der. elim der [ [] ↦ err "empty" | k ∷ ks ↦ ok k ];
  marshal_module_key = λ k. ok (k ∷ []);
  parse_module_key = λ der. elim der [ [] ↦ err "empty" | k ∷ ks ↦ ok (some k) ];
  marshal_module_public = λ k. ok (k ∷ []);
  sign = λ k payload. k ∷ payload;
  create = λ t parent p k. elim (subject_number t.subject) [ err e ↦ err e | ok n ↦ ok (n ∷ []) ];
  parse_certificate = λ der. elim der [ [] ↦ err "empty" | n ∷ ns ↦ ok (subject_at n) ];
  parse_request = λ der. elim der [ [] ↦ err "empty" | n ∷ ns ↦ ok n ];
  check_signature = λ csr. none;
  request_key = λ csr. csr;
  subject = λ c. c;
  raw = λ c. [];
  parse_ip = λ s. if s =s= "127.0.0.1" then some s else none;
}

created_subject :
    (r : Result String ℕ) (s : Subject) (der : Text)
    → ((n : ℕ) → r ≡ ok n → subject_at n ≡ s)
    → ◌≡◌ {A = Result String Text} (elim r [ err e ↦ err e | ok n ↦ ok (n ∷ []) ]) (ok der)
    → (c : Subject) × (toy.parse_certificate der ≡ ok c) × (c ≡ s)
created_subject (err e) s der k h = cc
created_subject (ok n) s der k h =
    (s, ap toy.parse_certificate (ok_inj (sym h)) ∙ ap ok (k n refl), refl)

toy-IsCrypto : IsCrypto toy
toy-IsCrypto = record {
  decode_encode =
      λ b h. ap (λ t. some (record { type = t; bytes = b.bytes })) (label_of-label_number b.type h);
  parse_marshal = λ k der h. ap toy.parse_key (ok_inj (sym h));
  parse_marshal_module = λ k der h. ap toy.parse_module_key (ok_inj (sym h));
  parse_create = λ t parent p k der h.
      created_subject (subject_number t.subject) t.subject der
        (subject_at-subject_number t.subject.common_name t.subject.organizational_unit) h;
}

abbrev boot : Boot ℕ ℕ
boot = record {
  dir_error = none;
  now = 1000000;
  add_years = λ n. 1000000 + n * 365 * 24 * 3600;
  serial = 5;
  key = ok 7;
  module_key = ok 9;
  writes = λ name. none;
}

-- Another boot, which would draw other keys.
abbrev later : Boot ℕ ℕ
later = record boot { now = 2000000; serial = 6; key = ok 8; module_key = ok 10 }

abbrev boot_draws : Draws toy boot
unfolding root_template
boot_draws = record {
  key = 7;
  module_priv = 9;
  der = 0 ∷ [];
  key_der = 7 ∷ [];
  mod_der = 9 ∷ [];
  drawn = refl;
  module_drawn = refl;
  created = refl;
  marshalled = refl;
  module_marshalled = refl;
}

first_boot_example :
    let files = (load_or_create toy boot []).1 in
    (c : Authority ℕ Subject ℕ) × (c.key ≡ 7)
    × (c.module_priv ≡ 9)
    × (c.cert ≡ root)
    × (load_or_create toy boot [] ≡ (ok c, files))
    × (load_or_create toy later files ≡ (ok c, files))
unfolding root_template get
first_boot_example =
    first_boot toy toy-IsCrypto boot later [] boot_draws refl refl (λ name. refl) refl

-- The disk is full after the certificate.
abbrev full_disk : Boot ℕ ℕ
full_disk = record boot { writes = λ name. if name =s= "ca.pem" then none else some none }

abbrev full_disk_draws : Draws toy full_disk
unfolding root_template
full_disk_draws = record {
  key = 7;
  module_priv = 9;
  der = 0 ∷ [];
  key_der = 7 ∷ [];
  mod_der = 9 ∷ [];
  drawn = refl;
  module_drawn = refl;
  created = refl;
  marshalled = refl;
  module_marshalled = refl;
}

interrupted_boot_example :
    let (r, files) = load_or_create toy full_disk [] in
    (r ≡ err (create_ca (unwritable "ca.key")))
    × (load_or_create toy later files ≡ (err (missing "ca.key"), files))
unfolding root_template get
interrupted_boot_example =
    interrupted_boot toy toy-IsCrypto full_disk later [] full_disk_draws refl refl refl refl refl
      refl

-- Bytes as text: each byte in strokes, with a full stop.
abbrev strokes : ℕ → String → String
strokes zero s = String.◌∷◌ "." s
strokes (suc n) s = String.◌∷◌ "|" (strokes n s)

abbrev as_text : Text → String
as_text [] = ""
as_text (n ∷ raw) = strokes n (as_text raw)

abbrev count_strokes : ℕ → String → Text
count_strokes n String.[] = []
count_strokes n (String.◌∷◌ c s) =
    if code c == 46 then n ∷ count_strokes 0 s else count_strokes (n + 1) s

count_strokes-strokes :
    (m n : ℕ) (s : String) → count_strokes m (strokes n s) ≡ (m + n) ∷ count_strokes 0 s
count_strokes-strokes m zero s =
    let e : m ≡ m + 0 = omega arith in ap (λ k. k ∷ count_strokes 0 s) e
count_strokes-strokes m (suc n) s =
    let e : (m + 1) + n ≡ m + suc n = omega arith in
    count_strokes-strokes (m + 1) n s ∙ ap (λ k. k ∷ count_strokes 0 s) e

abbrev as_bytes : String → Text
as_bytes s = count_strokes 0 s

as_bytes-as_text : (raw : Text) → as_bytes (as_text raw) ≡ raw
as_bytes-as_text [] = refl
as_bytes-as_text (n ∷ raw) =
    let e : 0 + n ≡ n = omega arith in
    count_strokes-strokes 0 n (as_text raw) ∙ ap₂ ◌∷◌ e (as_bytes-as_text raw)

-- The authority after the first boot.
abbrev root_authority : Authority ℕ Subject ℕ
root_authority = record { cert = root; key = 7; cert_pem = 1 ∷ 0 ∷ []; module_priv = 9 }

abbrev sign : String → String → String → Option String
sign = signer toy toy-IsCrypto as_text as_bytes (λ der. as_bytes-as_text _) boot root_authority

abbrev joins : EnrollRequest
joins = record { token = "k1"; csr_pem = as_text (5 ∷ 3 ∷ []); name = "box" }

abbrev joined_answer : EnrollResponse
joined_answer = record {
  machine_id = "00ff00ff";
  tenant_id = "t1";
  cert_pem = as_text (1 ∷ 1 ∷ []);
  ca_pem = "ca";
  module_pub_pem = "pub";
}

joins-answered : (handle_enroll sign "ca" (some "pub") (some joins) server).0 ≡ ok joined_answer
unfolding handle_enroll time_now consume_token get commit new_id sign_agent save_machine
joins-answered = refl

handle_enroll-identify_example :
    (cert : Subject) × (parse_cert_pem toy (as_bytes joined_answer.cert_pem) ≡ ok cert)
    × (identify (some (cert ∷ [])) ≡ ok (record { machine_id = "00ff00ff"; tenant_id = "t1" }))
handle_enroll-identify_example =
    handle_enroll-identify toy toy-IsCrypto as_text as_bytes (λ der. as_bytes-as_text _) boot
      root_authority "ca" (some "pub") joins server joined_answer [] joins-answered

-- The agent is started twice, first with a token, with a certificate that is near its end.
abbrev agent_world : World
agent_world = record {
  order = in_order;
  contact = contact;
  renewal = near_end;
  pair = no_pair_error;
  has_certs = any_ca;
}

abbrev agent_flags : Flags
agent_flags = record {
  server = "https://cp:8443";
  token = "k1";
  name = "box";
  fingerprint = [];
  heartbeat = pos 0;
}

abbrev two_starts : List (World × Flags)
two_starts = (agent_world, agent_flags) ∷ (agent_world, record agent_flags { token = "" }) ∷ []

abbrev no_host : FirstContact
no_host = record contact { csr = err "no entropy" }

restarts-unasked_example :
    (enrolled (restarts two_starts stored).1 ≡ true)
    × (restarts two_starts stored ≡ restarts (map (unasked no_host) two_starts) stored)
unfolding enrolled get
restarts-unasked_example = restarts-unasked two_starts no_host stored refl

-- The text of a name that the flag has here.
abbrev as_string : Text → String
as_string b = if b =t= ascii "localhost" then "localhost" else "127.0.0.1"

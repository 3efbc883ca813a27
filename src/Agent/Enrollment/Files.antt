-- ===== src/Agent/Enrollment/Files.antt =====
-- internal/agent/agent.go: enrollment leaves an identity that the agent loads.
use fleet_core.Prelude.{
  String, ◌≡◌, refl, sym, ap, ◌∙◌, subst, Bool, true, false, Option, none, some, List, [], ◌∷◌,
  arith, ◌==◌, is_some, All, ◌=s=◌, eq_iff,
}
use fleet_core.Prelude.Exec.{Result, ok, err}
use mathlib.Core.List.{Permᴰ}
use mathlib.Core.List.Permᴰ.{map as perm_map, symm}
use fleet_core.Prelude.Filters.{All-perm, All-map_lem}
use fleet_core.Prelude.Bytes.{Text, ascii, trim_space}
use fleet_core.GoMap.{get, put, keys}
use fleet_core.GoMap.Laws.{Distinct, get-put, get-put_self}
use fleet_core.Api.{EnrollResponse}
use fleet_core.Agent.Enrollment.{
  AgentError, Response, Files, Writes, write_file, write_files, FirstContact, peer_accepted,
  identity_files, install, enroll, enrolled, Keys, load_keys,
}

-- The files hold the identity.
pub record HasKeys (pair : Text → Text → Option String) (has_certs : Text → Bool) (files : Files)
    (k : Keys) : Type 0 where
  pub raw_id : Text
  pub cert : get "cert.pem" files ≡ some k.cert
  pub key : get "key.pem" files ≡ some k.key
  pub ca : get "ca.pem" files ≡ some k.ca
  pub id : get "machine-id" files ≡ some raw_id
  pub mod_key : get "module-pub.pem" files ≡ some k.mod_key
  pub trimmed : trim_space raw_id ≡ k.machine_id
  pub paired : pair k.cert k.key ≡ none
  pub certs : has_certs k.ca ≡ true

pub load_keys-HasKeys :
    (pair : Text → Text → Option String) (has_certs : Text → Bool) (files : Files) (k : Keys)
    → HasKeys pair has_certs files k
    → load_keys pair has_certs files ≡ ok k
unfolding load_keys
load_keys-HasKeys pair has_certs files k h =
    rw (load_keys, h.cert)
      (rw h.key (rw h.paired (rw h.ca (rw h.certs (rw h.id (rw h.mod_key (rw h.trimmed refl)))))))

neq_sym : (a b : String) → (a =s= b) ≡ false → (b =s= a) ≡ false
neq_sym a b e = ground (arith, eq_iff a b, eq_iff b a, e)

Distinct-perm : {ks js : List String} → Permᴰ ks js → Distinct ks → Distinct js
Distinct-perm Permᴰ.nil h = tt
Distinct-perm (Permᴰ.cons {a} {b} {l₂ = ks} e t) h =
    (subst (λ c. All (λ j. (c =s= j) ≡ false) ks) e (All-perm _ t h.0), Distinct-perm t h.1)
Distinct-perm (Permᴰ.swap {a} {b} {a'} {b'} {l} e f) h =
    subst (λ x. Distinct (x ∷ b' ∷ l)) f
      (subst (λ y. Distinct (b ∷ y ∷ l)) e ((neq_sym a b h.0.0, h.1.0), (h.0.1, h.1.1)))
Distinct-perm (Permᴰ.trans s t) h = Distinct-perm t (Distinct-perm s h)

-- Each file holds its content.
abbrev Stored : Files → List (String × Text) → Type 0
Stored files = All (λ e. get e.0 files ≡ some e.1)

module _ (writes : Writes) (all_work : (name : String) → writes name ≡ none) where
  write_file-put :
      (files : Files) (name : String) (content : Text)
      → write_file writes name content files ≡ (ok tt, put name content files)
  unfolding write_file
  write_file-put files name content = rw (write_file, all_work name) refl

  write_files-put :
      (fs : List (String × Text)) (files : Files) (name : String) (content : Text)
      → write_files writes ((name, content) ∷ fs) files
        ≡ write_files writes fs (put name content files)
  unfolding write_files
  write_files-put fs files name content =
      ap
        (λ p. elim p.0 as (λ x. Result AgentError (Unit {0}) × Files) [
          | err e ↦ (err e, p.1)
          | ok u ↦ write_files writes fs p.1
        ])
        (write_file-put files name content)

  write_files-works :
      (fs : List (String × Text)) (files : Files) → (write_files writes fs files).0 ≡ ok tt
  unfolding write_files
  write_files-works [] files = refl
  write_files-works ((name, content) ∷ fs) files =
      rw (write_files-put fs files name content) (write_files-works fs (put name content files))

  write_files-other :
      (fs : List (String × Text)) (files : Files) (k : String)
      → All (λ j. (j =s= k) ≡ false) (keys fs)
      → get k (write_files writes fs files).1 ≡ get k files
  unfolding write_files
  write_files-other [] files k h = refl
  write_files-other ((name, content) ∷ fs) files k h = rw (write_files-put fs files name content) (
      write_files-other fs (put name content files) k h.1
      ∙ get-put name k content files
      ∙ rw h.0 refl)

  write_files-All :
      (fs : List (String × Text)) (files : Files)
      → Distinct (keys fs)
      → Stored (write_files writes fs files).1 fs
  write_files-All [] files h = tt
  write_files-All ((name, content) ∷ fs) files h =
      subst (λ r. Stored r.1 ((name, content) ∷ fs)) (sym (write_files-put fs files name content))
        (
          write_files-other fs (put name content files) name
                (All-map_lem (keys fs) (λ j e. neq_sym name j e) h.0)
              ∙ get-put_self name content files,
          write_files-All fs (put name content files) h.1,
        )

identity_files-Distinct :
    (key : Text) (er : EnrollResponse) → Distinct (keys (identity_files key er))
unfolding identity_files
identity_files-Distinct key er = (
  (refl, (refl, (refl, (refl, tt)))),
  ((refl, (refl, (refl, tt))), ((refl, (refl, tt)), ((refl, tt), (tt, tt)))),
)

Stored-HasKeys :
    (key : Text) (er : EnrollResponse) (files : Files) (pair : Text → Text → Option String)
    (has_certs : Text → Bool)
    → pair (ascii er.cert_pem) key ≡ none
    → has_certs (ascii er.ca_pem) ≡ true
    → Stored files (identity_files key er)
    → HasKeys pair has_certs files (record {
      machine_id = trim_space (ascii er.machine_id);
      mod_key = ascii er.module_pub_pem;
      cert = ascii er.cert_pem;
      key = key;
      ca = ascii er.ca_pem;
    })
unfolding identity_files
Stored-HasKeys key er files pair has_certs paired certs (k, (c, (ca, (m, (i, u))))) = record {
  raw_id = ascii er.machine_id;
  cert = c;
  key = k;
  ca = ca;
  id = i;
  mod_key = m;
  trimmed = refl;
  paired = paired;
  certs = certs;
}

-- If the directory, the keys, the network and every write work, and the server is accepted, enrollment
-- succeeds in whatever order the files are written; the agent is then enrolled, and loads the identity
-- of the answer, if that is a key pair and a CA.
pub enroll-load_keys :
    (order : List (String × Text) → List (String × Text)) (w : FirstContact)
    (token name csr : String) (fingerprint key : Text) (files : Files) (r : Response EnrollResponse)
    (er : EnrollResponse) (pair : Text → Text → Option String) (has_certs : Text → Bool)
    → ((fs : List (String × Text)) → Permᴰ (order fs) fs)
    → w.dir_error ≡ none
    → w.csr ≡ ok csr
    → peer_accepted fingerprint w.certificates ≡ true
    → w.answer (record { token = token; csr_pem = csr; name = name }) ≡ ok r
    → r.code ≡ 200
    → r.value ≡ ok er
    → w.key_pem ≡ ok key
    → ((file : String) → w.writes file ≡ none)
    → pair (ascii er.cert_pem) key ≡ none
    → has_certs (ascii er.ca_pem) ≡ true
    → let (result, files') = enroll order w token name fingerprint files in
      (result ≡ ok tt)
      × (enrolled files' ≡ true)
      × (load_keys pair has_certs files'
          ≡ ok (record {
            machine_id = trim_space (ascii er.machine_id);
            mod_key = ascii er.module_pub_pem;
            cert = ascii er.cert_pem;
            key = key;
            ca = ascii er.ca_pem;
          }))
unfolding enroll install enrolled
enroll-load_keys order w token name csr fingerprint key files r er pair has_certs perm dir made
      accepted answered code value pem works paired certs =
    let fs = identity_files key er in
    let stored = All-perm _ (perm fs) (
      write_files-All w.writes works (order fs) files
        (Distinct-perm (symm (perm_map (λ e. e.0) (perm fs))) (identity_files-Distinct key er))) in
    let held = Stored-HasKeys key er _ pair has_certs paired certs stored in
    let is_200 : (r.code == 200) ≡ true = rw code refl in
    rw (enroll, dir)
      (rw made (
        rw accepted (
          rw answered (
            rw is_200 (
              rw value (
                rw pem (
                  write_files-works w.writes works (order fs) files,
                  ap is_some held.cert,
                  load_keys-HasKeys pair has_certs _ _ held,
                )))))))

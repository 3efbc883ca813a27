-- ===== src/Authority/Reload.antt =====
-- internal/ca/ca.go: what a boot leaves for the next one.
use fleet_core.Prelude.{
  true, any, ◌=s=◌, String, ◌≡◌, refl, ap, subst, ◌∙◌, inl, inr, none, some, Option-cases,
}
use fleet_core.Prelude.Exec.{Result, ok, err}
use fleet_core.Prelude.Bytes.{Text}
use fleet_core.GoMap.{get, put}
use fleet_core.Agent.Enrollment.{Files, Writes}
use fleet_core.Authority.{
  pem_types, Block, CaError, and_then, wrapped, Crypto, IsCrypto, Boot, Authority, write_pem,
  read_file, read_pem, parse_cert_pem, create, load, load_or_create,
}

module _ {Key Public Cert Request ModuleKey : Type 0}
    (lib : Crypto Key Public Cert Request ModuleKey) where
  -- A directory that loads has a certificate.
  load-present :
      (files : Files) (c : Authority Key Cert ModuleKey)
      → load lib files ≡ ok c
      → (raw : Text) × (get "ca.pem" files ≡ some raw)
  unfolding load read_file
  load-present files c h = elim (Option-cases (get "ca.pem" files)) [
    | inl e ↦ cc (rw (e, load, read_file) at h)
    | inr (raw, e) ↦ (raw, e)
  ]

  pub load-again :
      (w : Boot Key ModuleKey) (files : Files) (c : Authority Key Cert ModuleKey)
      → load lib files ≡ ok c
      → w.dir_error ≡ none
      → load_or_create lib w files ≡ (ok c, files)
  unfolding load_or_create
  load-again w files c h dir =
      let (raw, e) = load-present files c h in
      rw (dir, load_or_create) (rw e (ap (λ r. (r, files)) h))

  same_files :
      (files files' : Files) (c : Authority Key Cert ModuleKey)
      → ◌≡◌ {A = Result CaError (Authority Key Cert ModuleKey) × Files}
          (load lib files, files)
          (ok c, files')
      → load lib files' ≡ ok c
  same_files files files' c e = subst (λ f. load lib f ≡ ok c) (ap (λ p. p.1) e) (ap (λ p. p.0) e)

  created-loads :
      (p : Result CaError (Unit {0}) × Files) (files' : Files) (c : Authority Key Cert ModuleKey)
      → ◌≡◌ {A = Result CaError (Authority Key Cert ModuleKey) × Files}
          (and_then (wrapped p) (λ u f. (load lib f, f)))
          (ok c, files')
      → load lib files' ≡ ok c
  created-loads (ok u, f) files' c h = same_files f files' c h
  created-loads (err e, f) files' c h = cc (ap (λ p. p.0) h)

  -- A boot that succeeds leaves files that load to what it returned.
  load_or_create-loads :
      (w : Boot Key ModuleKey) (files files' : Files) (c : Authority Key Cert ModuleKey)
      → load_or_create lib w files ≡ (ok c, files')
      → load lib files' ≡ ok c
  unfolding load_or_create
  load_or_create-loads w files files' c h = elim (Option-cases w.dir_error) [
    | inr (e, dir) ↦ cc (ap (λ p. p.0) (rw (dir, load_or_create) at h))
    | inl dir ↦
        let h' = rw (dir, load_or_create) at h in
        elim (Option-cases (get "ca.pem" files)) [
          | inr (raw, e) ↦ same_files files files' c (rw e at h')
          | inl e ↦ created-loads (create lib w files) files' c (rw e at h')
        ]
  ]

  -- After a boot that succeeds every later one, whatever it meets but a directory that cannot be made,
  -- returns the same authority and changes no file.
  pub load_or_create-restart :
      (w w' : Boot Key ModuleKey) (files files' : Files) (c : Authority Key Cert ModuleKey)
      → load_or_create lib w files ≡ (ok c, files')
      → w'.dir_error ≡ none
      → load_or_create lib w' files' ≡ (ok c, files')
  load_or_create-restart w w' files files' c h dir =
      load-again w' files' c (load_or_create-loads w files files' c h) dir

module _ {Key Public Cert Request ModuleKey : Type 0}
    (lib : Crypto Key Public Cert Request ModuleKey) (laws : IsCrypto lib) where
  pub write_pem-put :
      (writes : Writes) (name : String) (b : Block) (files : Files)
      → writes name ≡ none
      → write_pem lib writes name b files ≡ (ok tt, put name (lib.encode b) files)
  unfolding write_pem
  write_pem-put writes name b files e = rw (e, write_pem) refl

  read_pem-encode :
      (name : String) (b : Block) (files : Files)
      → any (λ t. b.type =s= t) pem_types ≡ true
      → get name files ≡ some (lib.encode b)
      → read_pem lib name files ≡ ok b.bytes
  unfolding read_pem read_file
  read_pem-encode name b files k e = rw (e, read_pem, read_file) (rw (laws.decode_encode b k) refl)

  -- The files of an authority.
  pub record Holds (files : Files) (c : Authority Key Cert ModuleKey) : Type 0 where
    pub cert_der : Text
    pub key_der : Text
    pub mod_der : Text
    pub is_pem : c.cert_pem ≡ lib.encode (record { type = "CERTIFICATE"; bytes = cert_der })
    pub cert_file : get "ca.pem" files ≡ some c.cert_pem
    pub key_file :
        get "ca.key" files ≡ some (lib.encode (record { type = "EC PRIVATE KEY"; bytes = key_der }))
    pub mod_file :
        get "module-signing.key" files
        ≡ some (lib.encode (record { type = "PRIVATE KEY"; bytes = mod_der }))
    pub cert : lib.parse_certificate cert_der ≡ ok c.cert
    pub key : lib.parse_key key_der ≡ ok c.key
    pub module_key : lib.parse_module_key mod_der ≡ ok (some c.module_priv)

  pub parse_cert-encode :
      (der : Text) (cert : Cert)
      → lib.parse_certificate der ≡ ok cert
      → parse_cert_pem lib (lib.encode (record { type = "CERTIFICATE"; bytes = der })) ≡ ok cert
  unfolding parse_cert_pem
  parse_cert-encode der cert e =
      rw (laws.decode_encode (record { type = "CERTIFICATE"; bytes = der }) refl, parse_cert_pem)
        (rw e refl)

  pub Holds-load :
      (files : Files) (c : Authority Key Cert ModuleKey) → Holds files c → load lib files ≡ ok c
  unfolding load read_file
  Holds-load files c h =
      let parsed : parse_cert_pem lib c.cert_pem ≡ ok c.cert =
        ap (parse_cert_pem lib) h.is_pem ∙ parse_cert-encode h.cert_der c.cert h.cert in
      rw (h.cert_file, load, read_file)
        (rw parsed (
          rw (read_pem-encode "ca.key" _ files refl h.key_file) (
            rw h.key (
              rw (read_pem-encode "module-signing.key" _ files refl h.mod_file)
                (rw h.module_key refl)))))

-- ===== src/Authority/Boots.antt =====
-- internal/ca/ca.go: the first boot, and one that is interrupted.
use fleet_core.Prelude.{String, ◌≡◌, refl, sym, ap, subst, ◌∙◌, none, some}
use fleet_core.Prelude.Exec.{Result, ok, err}
use fleet_core.Prelude.Bytes.{Text}
use fleet_core.GoMap.{get, put}
use fleet_core.GoMap.Laws.{get-put, get-put_self}
use fleet_core.Agent.Enrollment.{Files, Writes}
use fleet_core.Authority.{
  Block, CaError, unwritable, missing, create_ca, and_then, of_library, wrapped, Crypto, IsCrypto,
  Boot, Authority, write_pem, read_file, read_pem, material, write_material, create, load,
  load_or_create, root_template,
}
use fleet_core.Authority.Reload.{write_pem-put, Holds, Holds-load, parse_cert-encode, load-again}

and_then_of_ok :
    {A B : Type 0} (p : Result CaError A × Files) (f : A → Files → Result CaError B × Files) (a : A)
    (files : Files)
    → p ≡ (ok a, files)
    → and_then p f ≡ f a files
and_then_of_ok p f a files e = ap (λ p. and_then p f) e

module _ {Key Public Cert Request ModuleKey : Type 0}
    (lib : Crypto Key Public Cert Request ModuleKey) where
  -- What the library makes of what a boot draws.
  pub record Draws (w : Boot Key ModuleKey) : Type 0 where
    pub key : Key
    pub module_priv : ModuleKey
    pub der : Text
    pub key_der : Text
    pub mod_der : Text
    pub drawn : w.key ≡ ok key
    pub module_drawn : w.module_key ≡ ok module_priv
    pub created : lib.create (root_template lib w) none (lib.public key) key ≡ ok der
    pub marshalled : lib.marshal_key key ≡ ok key_der
    pub module_marshalled : lib.marshal_module_key module_priv ≡ ok mod_der

  Draws-material :
      (w : Boot Key ModuleKey) (d : Draws w) → material lib w ≡ ok (d.der, d.key_der, d.module_priv)
  unfolding material
  Draws-material w d =
      rw (d.drawn, material) (rw d.created (rw d.marshalled (rw d.module_drawn refl)))

module _ {Key Public Cert Request ModuleKey : Type 0}
    (lib : Crypto Key Public Cert Request ModuleKey) (laws : IsCrypto lib) where
  -- The files after the three writes.
  abbrev written : Text → Text → Text → Files → Files
  written der key_der mod_der files =
      put "module-signing.key" (lib.encode (record { type = "PRIVATE KEY"; bytes = mod_der })) (
        put "ca.key" (lib.encode (record { type = "EC PRIVATE KEY"; bytes = key_der }))
          (put "ca.pem" (lib.encode (record { type = "CERTIFICATE"; bytes = der })) files))

  write_material-written :
      (writes : Writes) (der key_der mod_der : Text) (mod_priv : ModuleKey) (files : Files)
      → ((name : String) → writes name ≡ none)
      → lib.marshal_module_key mod_priv ≡ ok mod_der
      → write_material lib writes (der, key_der, mod_priv) files
        ≡ (ok tt, written der key_der mod_der files)
  unfolding write_material
  write_material-written writes der key_der mod_der mod_priv files works m =
      and_then_of_ok _ _ _ _ (write_pem-put lib laws writes "ca.pem" _ files (works _))
      ∙ and_then_of_ok _ _ _ _ (write_pem-put lib laws writes "ca.key" _ _ (works _))
      ∙ rw m (write_pem-put lib laws writes "module-signing.key" _ _ (works _))

  written-Holds :
      (der key_der mod_der : Text) (files : Files) (cert : Cert) (key : Key) (mod_priv : ModuleKey)
      → lib.parse_certificate der ≡ ok cert
      → lib.parse_key key_der ≡ ok key
      → lib.parse_module_key mod_der ≡ ok (some mod_priv)
      → Holds lib laws (written der key_der mod_der files) (record {
        cert = cert;
        key = key;
        cert_pem = lib.encode (record { type = "CERTIFICATE"; bytes = der });
        module_priv = mod_priv;
      })
  written-Holds der key_der mod_der files cert key mod_priv c k m = record {
    cert_der = der;
    key_der = key_der;
    mod_der = mod_der;
    is_pem = refl;
    cert_file =
        get-put "module-signing.key" "ca.pem" _ _
        ∙ get-put "ca.key" "ca.pem" _ _
        ∙ get-put_self "ca.pem" _ files;
    key_file = get-put "module-signing.key" "ca.key" _ _ ∙ get-put_self "ca.key" _ _;
    mod_file = get-put_self "module-signing.key" _ _;
    cert = c;
    key = k;
    module_key = m;
  }

  created-written :
      (w : Boot Key ModuleKey) (files : Files) (d : Draws lib w)
      → ((name : String) → w.writes name ≡ none)
      → create lib w files ≡ (ok tt, written d.der d.key_der d.mod_der files)
  unfolding create
  created-written w files d works =
      and_then_of_ok _ _ _ _ (ap (λ r. (r, files)) (Draws-material lib w d))
      ∙ write_material-written w.writes d.der d.key_der d.mod_der d.module_priv files works
          d.module_marshalled

  -- A first boot in which everything works returns the keys that it drew and a certificate for the root,
  -- and every later boot returns the same and changes no file.
  pub first_boot :
      (w w' : Boot Key ModuleKey) (files : Files) (d : Draws lib w)
      → get "ca.pem" files ≡ none
      → w.dir_error ≡ none
      → ((name : String) → w.writes name ≡ none)
      → w'.dir_error ≡ none
      → let files' = (load_or_create lib w files).1 in
        (c : Authority Key Cert ModuleKey) × (c.key ≡ d.key)
        × (c.module_priv ≡ d.module_priv)
        × (lib.subject c.cert ≡ (root_template lib w).subject)
        × (load_or_create lib w files ≡ (ok c, files'))
        × (load_or_create lib w' files' ≡ (ok c, files'))
  unfolding load_or_create
  first_boot w w' files d absent dir works dir' =
      let (cert, parsed, subject) = laws.parse_create _ _ _ _ _ d.created in
      let c : Authority Key Cert ModuleKey = record {
        cert = cert;
        key = d.key;
        cert_pem = lib.encode (record { type = "CERTIFICATE"; bytes = d.der });
        module_priv = d.module_priv;
      } in
      let loads = Holds-load lib laws (written d.der d.key_der d.mod_der files) c (
        written-Holds d.der d.key_der d.mod_der files cert d.key d.module_priv parsed
          (laws.parse_marshal d.key d.key_der d.marshalled)
          (laws.parse_marshal_module d.module_priv d.mod_der d.module_marshalled)) in
      let runs : load_or_create lib w files ≡ (ok c, written d.der d.key_der d.mod_der files) =
        rw (dir, load_or_create)
          (rw absent (
            and_then_of_ok _ _ _ _ (ap wrapped (created-written w files d works))
            ∙ ap (λ r. (r, written d.der d.key_der d.mod_der files)) loads)) in
      (
        c,
        refl,
        refl,
        subject,
        runs ∙ ap (λ f. (ok c, f)) (sym (ap (λ p. p.1) runs)),
        subst (λ f. load_or_create lib w' f ≡ (ok c, f)) (sym (ap (λ p. p.1) runs))
            (load-again lib w' (written d.der d.key_der d.mod_der files) c loads dir'),
      )

  write_pem-unwritten :
      (writes : Writes) (name : String) (b : Block) (files : Files)
      → writes name ≡ some none
      → write_pem lib writes name b files ≡ (err (unwritable name), files)
  unfolding write_pem
  write_pem-unwritten writes name b files e = rw (e, write_pem) refl

  abbrev with_cert : Text → Files → Files
  with_cert der files =
      put "ca.pem" (lib.encode (record { type = "CERTIFICATE"; bytes = der })) files

  write_material-half :
      (writes : Writes) (der key_der : Text) (mod_priv : ModuleKey) (files : Files)
      → writes "ca.pem" ≡ none
      → writes "ca.key" ≡ some none
      → write_material lib writes (der, key_der, mod_priv) files
        ≡ (err (unwritable "ca.key"), with_cert der files)
  unfolding write_material
  write_material-half writes der key_der mod_priv files first second =
      and_then_of_ok _ _ _ _ (write_pem-put lib laws writes "ca.pem" _ files first)
      ∙ ap
          (λ p. and_then p (λ u files''.
            and_then (of_library (lib.marshal_module_key mod_priv), files'')
              (λ mod_der.
                write_pem lib writes "module-signing.key"
                  (record { type = "PRIVATE KEY"; bytes = mod_der }))))
          (write_pem-unwritten writes "ca.key" _ (with_cert der files) second)

  no_key_file :
      (files : Files) (der : Text)
      → get "ca.key" files ≡ none
      → get "ca.key" (with_cert der files) ≡ none
  no_key_file files der e = get-put "ca.pem" "ca.key" _ files ∙ e

  -- A certificate without a key.
  load-half :
      (files : Files) (der : Text) (cert : Cert)
      → get "ca.key" files ≡ none
      → lib.parse_certificate der ≡ ok cert
      → load lib (with_cert der files) ≡ err (missing "ca.key")
  unfolding load read_file read_pem
  load-half files der cert no_key parsed =
      rw
        (
          get-put_self "ca.pem" (lib.encode (record { type = "CERTIFICATE"; bytes = der })) files,
          load,
          read_file,
        )
        (rw (parse_cert-encode lib laws der cert parsed)
          (rw (no_key_file files der no_key, read_pem, read_file) refl))

  -- A first boot that cannot write ca.key after ca.pem fails, and so does every later boot, whatever works
  -- by then: the certificate is there, so nothing is made again.
  pub interrupted_boot :
      (w w' : Boot Key ModuleKey) (files : Files) (d : Draws lib w)
      → get "ca.pem" files ≡ none
      → get "ca.key" files ≡ none
      → w.dir_error ≡ none
      → w.writes "ca.pem" ≡ none
      → w.writes "ca.key" ≡ some none
      → w'.dir_error ≡ none
      → let (r, files') = load_or_create lib w files in
        (r ≡ err (create_ca (unwritable "ca.key")))
        × (load_or_create lib w' files' ≡ (err (missing "ca.key"), files'))
  unfolding load_or_create create
  interrupted_boot w w' files d absent no_key dir first second dir' =
      let (cert, parsed, subject) = laws.parse_create _ _ _ _ _ d.created in
      let half = with_cert d.der files in
      let made : create lib w files ≡ (err (unwritable "ca.key"), half) =
        and_then_of_ok _ _ _ _ (ap (λ r. (r, files)) (Draws-material lib w d))
        ∙ write_material-half w.writes d.der d.key_der d.module_priv files first second in
      let fails : load_or_create lib w files ≡ (err (create_ca (unwritable "ca.key")), half) =
        rw (dir, load_or_create)
          (rw absent (ap (λ p. and_then (wrapped p) (λ u f. (load lib f, f))) made)) in
      let again : load_or_create lib w' half ≡ (err (missing "ca.key"), half) =
        rw (dir', load_or_create)
          (rw
            (get-put_self "ca.pem" (lib.encode (record { type = "CERTIFICATE"; bytes = d.der }))
              files)
            (ap (λ r. (r, half)) (load-half files d.der cert no_key parsed))) in
      (
        ap (λ p. p.0) fails,
        subst (λ f. load_or_create lib w' f ≡ (err (missing "ca.key"), f))
            (sym (ap (λ p. p.1) fails)) again,
      )

-- ===== src/Turso/Agrees/Modules.antt =====
-- internal/store/turso.go: the table of modules, whose key is the pair of name and version, against the
-- FileStore's map, whose key joins both with "@".
use fleet_core.Prelude.{
  ℕ, String, ◌≡◌, refl, sym, ap, ap₂, ◌∙◌, Bool, true, false, not, ◌&&◌, Option, none, some, List,
  [], ◌∷◌, arith, ◌==◌, if◌then◌else◌, Bool-cases, inl, inr, All, ◌=s=◌, eq_iff, eq_refl,
}
use Prim.Native.Char.{Char, code}
use Prim.Native.String.append
use package.text.Mathlib.TextEquality.{Char-path}
use fleet_core.GoMap.{GoMap, get, put, delete}
use fleet_core.GoMap.Laws.{get-put, get-delete, get-put_self}
use fleet_core.Api.{ModuleArtifact}
use fleet_core.Store.{FileData}
use fleet_core.Store.Modules.{module_key}
use fleet_core.Turso.{
  Fits, GoValue, str, bytes, text, blob, Hrana, IsHrana, delivered, Remote, ◌=v=◌,
}
use fleet_core.Turso.Delivered.{exec-pure}
use fleet_core.Turso.Table.{find, upsert, delete_where}
use fleet_core.Turso.Table.Laws.{
  upserted, find-upsert_self, find-upsert, find-delete_self, find-delete, find-passes,
}
use fleet_core.Turso.Tables.{ModuleRow, Tables}
use fleet_core.Turso.Machines.{Json}
use fleet_core.Turso.Modules.{
  is_module, insert_module, delete_module_row, save_module, delete_module,
}
use fleet_core.Turso.Same.{row_of, text_of_eq}
use fleet_core.Turso.Agrees.{Agrees, Done, artifact_row, no_at, Agrees-modules}

abbrev first : String → ℕ
first String.[] = 0
first (String.◌∷◌ c s) = code c

abbrev rest : String → String
rest String.[] = ""
rest (String.◌∷◌ c s) = s

at_first : (c : ℕ) (b : Bool) → c ≡ b'@' → (not (c == b'@') && b) ≡ true → ⊥
at_first c b e h = ground (arith, e, h)

after_first : (c : ℕ) (b : Bool) → (not (c == b'@') && b) ≡ true → b ≡ true
after_first c b h = ground arith

key_nil : (v : String) → module_key "" v ≡ String.◌∷◌ "@" v
unfolding module_key
key_nil v = rw append.nil (rw append.cons (rw append.nil refl))

key_cons : (c : Char) (n v : String) → module_key (String.◌∷◌ c n) v ≡ String.◌∷◌ c (module_key n v)
unfolding module_key
key_cons c n v = append.cons c n _

-- A name without "@" is read off the key.
module_key_injective :
    (n i v w : String)
    → no_at n ≡ true
    → no_at i ≡ true
    → module_key n v ≡ module_key i w
    → (n ≡ i) × (v ≡ w)
unfolding no_at
module_key_injective String.[] String.[] v w h k e =
    (refl, ap rest (sym (key_nil v) ∙ e ∙ key_nil w))
module_key_injective String.[] (String.◌∷◌ c i) v w h k e =
    absurd (at_first (code c) (no_at i) (sym (ap first (sym (key_nil v) ∙ e ∙ key_cons c i w))) k)
module_key_injective (String.◌∷◌ c n) String.[] v w h k e =
    absurd (at_first (code c) (no_at n) (ap first (sym (key_cons c n v) ∙ e ∙ key_nil w)) h)
module_key_injective (String.◌∷◌ c n) (String.◌∷◌ b i) v w h k e =
    let e' = sym (key_cons c n v) ∙ e ∙ key_cons b i w in
    let (en, ev) =
      module_key_injective n i v w (after_first (code c) (no_at n) h)
        (after_first (code b) (no_at i) k) (ap rest e') in
    (ap₂ String.◌∷◌ (Char-path c b (ap first e')) en, ev)

key_eq :
    (n i v w : String)
    → no_at n ≡ true
    → no_at i ≡ true
    → (module_key n v =s= module_key i w) ≡ ((n =s= i) && (v =s= w))
key_eq n i v w h k = elim (Bool-cases (module_key n v =s= module_key i w)) [
  | inl e ↦
      let (en, ev) =
        module_key_injective n i v w h k ((eq_iff (module_key n v) (module_key i w)).0 e) in
      rw (e, (eq_iff n i).1 en, (eq_iff v w).1 ev) refl
  | inr d ↦ elim (Bool-cases ((n =s= i) && (v =s= w))) [
    | inl e ↦
        let (en, ev) : (n ≡ i) × (v ≡ w) = ground (arith, e, eq_iff n i, eq_iff v w) in
        cc ((eq_iff (module_key n v) (module_key i w)).1 (ap₂ module_key en ev))
    | inr e ↦ d ∙ sym e
  ]
]

module_of_eq :
    (n v : String) (r : ModuleRow)
    → is_module (text n) (text v) r ≡ true
    → (r.name ≡ text n) × (r.version ≡ text v)
module_of_eq n v r h = ground (arith, text_of_eq r.name n, text_of_eq r.version v)

pair_eq :
    (n v i w : String) → ((text n =v= text i) && (text v =v= text w)) ≡ ((n =s= i) && (v =s= w))
unfolding ◌=v=◌
pair_eq n v i w = refl

other_module :
    (n v i w : String) (r : ModuleRow)
    → ((n =s= i) && (v =s= w)) ≡ false
    → is_module (text n) (text v) r ≡ true
    → is_module (text i) (text w) r ≡ false
other_module n v i w r d h =
    let (en, ev) = module_of_eq n v r h in rw (en, ev) (pair_eq n v i w ∙ d)

self : (n v : String) → ((n =s= n) && (v =s= v)) ≡ true
self n v = rw (eq_refl n, eq_refl v) refl

both_eq : (n i v w : String) → ((n =s= i) && (v =s= w)) ≡ true → (n ≡ i) × (v ≡ w)
both_eq n i v w h = ground (arith, eq_iff n i, eq_iff v w)

-- The SET of `SaveModule`.
abbrev merged : ModuleArtifact → ModuleRow → ModuleRow
merged a r = record r { exec = text a.exec; payload = blob a.payload; signature = blob a.signature }

abbrev SameModules : GoMap ModuleArtifact → List ModuleRow → Type 0
SameModules ms rs =
    (n v : String)
    → no_at n ≡ true
    → find (is_module (text n) (text v)) rs ≡ row_of artifact_row (get (module_key n v) ms)

upserted_module :
    (a : ModuleArtifact) (o : Option ModuleRow)
    → ((r : ModuleRow) → o ≡ some r → (r.name ≡ text a.name) × (r.version ≡ text a.version))
    → upserted (merged a) (artifact_row a) o ≡ artifact_row a
upserted_module a none h = refl
upserted_module a (some r) h = ground (arith, h r refl)

module _ (ms : GoMap ModuleArtifact) (rs : List ModuleRow) (same : SameModules ms rs) where
  SameModules-save :
      (a : ModuleArtifact)
      → no_at a.name ≡ true
      → SameModules
          (put (module_key a.name a.version) a ms)
          (upsert (is_module (text a.name) (text a.version)) (merged a) (artifact_row a) rs)
  SameModules-save a h i w k = elim (Bool-cases ((a.name =s= i) && (a.version =s= w))) [
    | inl e ↦
        let (en, ew) = both_eq a.name i a.version w e in
        rw (← en, ← ew)
          (find-upsert_self (λ r. false) (is_module (text a.name) (text a.version)) (merged a)
              (artifact_row a) rs
              (pair_eq a.name a.version a.name a.version ∙ self a.name a.version)
              (λ r passes. passes)
            ∙ ap some (
                upserted_module a _ (λ r found.
                  module_of_eq a.name a.version r
                    (find-passes (is_module (text a.name) (text a.version)) rs found)))
            ∙ ap (row_of artifact_row) (sym (get-put_self (module_key a.name a.version) a ms)))
    | inr d ↦
        find-upsert (is_module (text i) (text w)) (is_module (text a.name) (text a.version))
          (merged a) (artifact_row a) rs (pair_eq a.name a.version i w ∙ d)
          (λ r passes. (
            other_module a.name a.version i w r d passes,
            other_module a.name a.version i w r d passes,
          ))
        ∙ same i w k
        ∙ ap (row_of artifact_row) (
            sym (
              get-put (module_key a.name a.version) (module_key i w) a ms
              ∙ ap (λ b. if b then some a else get (module_key i w) ms)
                  (key_eq a.name i a.version w h k ∙ d)))
  ]

  SameModules-delete :
      (n v : String)
      → no_at n ≡ true
      → SameModules (delete (module_key n v) ms) (delete_where (is_module (text n) (text v)) rs)
  SameModules-delete n v h i w k = elim (Bool-cases ((n =s= i) && (v =s= w))) [
    | inl e ↦
        find-delete_self (is_module (text i) (text w)) (is_module (text n) (text v)) rs
          (λ r passes. rw ((both_eq n i v w e).0, (both_eq n i v w e).1) passes)
        ∙ ap (row_of artifact_row) (
            sym (
              get-delete (module_key n v) (module_key i w) ms
              ∙ ap (λ b. if b then none else get (module_key i w) ms) (key_eq n i v w h k ∙ e)))
    | inr d ↦
        find-delete (is_module (text i) (text w)) (is_module (text n) (text v)) rs
          (λ r passes. other_module n v i w r d passes)
        ∙ same i w k
        ∙ ap (row_of artifact_row) (
            sym (
              get-delete (module_key n v) (module_key i w) ms
              ∙ ap (λ b. if b then none else get (module_key i w) ms) (key_eq n i v w h k ∙ d)))
  ]

abbrev pub module_args : ModuleArtifact → List GoValue
module_args m = str m.name ∷ str m.version ∷ str m.exec ∷ bytes m.payload ∷ bytes m.signature ∷ []

module _ (j : Json) (h : Hrana) (hrana : IsHrana h) {d : FileData} (ts : Remote Tables)
    (a : Agrees j d ts.db) (works : (n : ℕ) → ts.fates n ≡ delivered) where
  pub save_module-Agrees :
      (m : ModuleArtifact)
      → All Fits (module_args m)
      → no_at m.name ≡ true
      → Done j
          (record d { modules = put (module_key m.name m.version) m d.modules })
          (save_module h m ts)
  unfolding save_module insert_module
  save_module-Agrees m f k =
      rw (exec-pure h hrana insert_module (module_args m) ts [] 1 _ f (works ts.calls) refl)
        (refl, Agrees-modules j a _ _ (SameModules-save d.modules ts.db.modules a.modules m k))

  pub delete_module-Agrees :
      (n v : String)
      → no_at n ≡ true
      → All Fits (str n ∷ str v ∷ [])
      → Done j (record d { modules = delete (module_key n v) d.modules }) (delete_module h n v ts)
  unfolding delete_module delete_module_row
  delete_module-Agrees n v k f =
      rw
        (exec-pure h hrana delete_module_row (str n ∷ str v ∷ []) ts [] _ _ f (works ts.calls) refl)
        (refl, Agrees-modules j a _ _ (SameModules-delete d.modules ts.db.modules a.modules n v k))

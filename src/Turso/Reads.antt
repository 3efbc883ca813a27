-- ===== src/Turso/Reads.antt =====
-- internal/store/turso.go: what the calls that read return, for the records that the tables stand for.
use fleet_core.Prelude.{
  ℕ, ◌≤◌, ◌<◌, String, ◌≡◌, refl, ap, ap₂, ◌∙◌, true, none, some, List, [], ◌∷◌, map, All,
}
use fleet_core.Prelude.Exec.{ok, err, bind_of_ok}
use fleet_core.Prelude.Int.{pos}
use fleet_core.GoMap.{get}
use fleet_core.Api.{Machine, ModuleArtifact}
use fleet_core.Commands.{max_int64, parse_int}
use fleet_core.Commands.Names.{parse_int-print}
use fleet_core.Store.{FileData, not_found}
use fleet_core.Store.Modules.{module_key}
use fleet_core.Turso.{
  str, SqlValue, text, integer, blob, Fits, Hrana, IsHrana, delivered, Remote, store, done, exec,
  i64, blob_bytes, format_int, ◌=v=◌,
}
use fleet_core.Turso.Base64.{raw_decode, trim_pad}
use fleet_core.Turso.Blobs.{raw_decode-trim_pad}
use fleet_core.Turso.Delivered.{exec-done}
use fleet_core.Turso.Table.Laws.{keep_if-find-some, keep_if-find-none}
use fleet_core.Turso.Tables.{ModuleRow, Tables, Codec}
use fleet_core.Turso.Machines.{
  Json, machine_cols, select_machine, scan_machine, get_machine, unmarshal_as,
}
use fleet_core.Turso.Modules.{is_module, select_module, scan_module, get_module}
use fleet_core.Turso.Same.{row_of}
use fleet_core.Turso.Agrees.{Agrees, machine_row, artifact_row, no_at}

-- The JSON of each part of a machine is read back, and its times fit.
pub record IsReadable (j : Json) (m : Machine) : Type 0 where
  pub labels : j.labels.unmarshal (j.labels.marshal m.labels) ≡ ok m.labels
  pub override : j.specs.unmarshal (j.specs.marshal m.override) ≡ ok m.override
  pub inventory : j.inventory.unmarshal (j.inventory.marshal m.inventory) ≡ ok m.inventory
  pub desired : j.desired.unmarshal (j.desired.marshal m.desired) ≡ ok m.desired
  pub status : j.status.unmarshal (j.status.marshal m.status) ≡ ok m.status
  pub enrolled : m.enrolled ≤ max_int64
  pub last_seen : m.last_seen ≤ max_int64

module _ (h : Hrana) (hrana : IsHrana h) where
  i64-write : (n : ℕ) → n ≤ max_int64 → i64 (h.write (integer (pos n))) ≡ n
  unfolding i64 format_int
  i64-write n f = ap parse_int (hrana.write_int n f) ∙ parse_int-print n f

  blob_bytes-write : (b : List ℕ) → All (λ c. c < 256) b → blob_bytes (h.write (blob b)) ≡ b
  unfolding blob_bytes
  blob_bytes-write b f =
      let (k, e) = hrana.write_blob b in
      ap (λ o. elim o as (λ x. List ℕ) [ none ↦ [] | some s ↦ s ])
        (ap (λ t. raw_decode (trim_pad t)) e ∙ raw_decode-trim_pad b k f)

  unmarshal_as-write :
      {S A : Type 0} (codec : Codec A) (v : A) (s : S)
      → codec.unmarshal (codec.marshal v) ≡ ok v
      → (what : String)
      → unmarshal_as codec what (h.write (text (codec.marshal v))).value s ≡ (ok v, s)
  unmarshal_as-write codec v s e what =
      rw (hrana.write_text (codec.marshal v)) (rw (e, unmarshal_as) refl)

  scan_machine-write :
      (j : Json) {S : Type 0} (m : Machine) (s : S)
      → IsReadable j m
      → scan_machine j (map h.write (machine_cols (machine_row j m))) s ≡ (ok m, s)
  unfolding scan_machine machine_cols
  scan_machine-write j m s r = rw (unmarshal_as-write j.labels m.labels s r.labels) (
      rw (unmarshal_as-write j.specs m.override s r.override) (
        rw (unmarshal_as-write j.inventory m.inventory s r.inventory) (
          rw (unmarshal_as-write j.desired m.desired s r.desired) (
            rw (unmarshal_as-write j.status m.status s r.status) (
              ap₂
                (λ (ids : String × String × String) (times : ℕ × ℕ). (
                  ok (record m {
                    id = ids.0;
                    tenant_id = ids.1;
                    name = ids.2;
                    enrolled = times.0;
                    last_seen = times.1;
                  }),
                  s,
                ))
                (λ i. (
                  hrana.write_text m.id i,
                  hrana.write_text m.tenant_id i,
                  hrana.write_text m.name i,
                ))
                (λ i. (i64-write m.enrolled r.enrolled i, i64-write m.last_seen r.last_seen i)))))))

  module _ (j : Json) {d : FileData} (ts : Remote Tables) (a : Agrees j d ts.db)
      (works : ts.fates ts.calls ≡ delivered) where
    -- A machine is read as the FileStore has it, by an identity that is not empty.
    pub get_machine-found :
        (id : String) (m : Machine)
        → Fits (str id)
        → get id d.machines ≡ some m
        → IsReadable j m
        → (get_machine j h id ts).0 ≡ ok m
    unfolding get_machine select_machine
    get_machine-found id m f there r =
        let (rest, kept) =
          keep_if-find-some (λ r. r.id =v= text id) ts.db.machines
            (a.machines id ∙ ap (row_of (machine_row j)) there) in
        let runs : select_machine (text id ∷ []) ts.db
            ≡ (done (map machine_cols (machine_row j m ∷ rest)) 0, ts.db) =
          ap (λ rows. (done (map machine_cols rows) 0, ts.db)) kept in
        ap (λ out. out.0)
          (bind_of_ok (exec h select_machine (str id ∷ [])) _ ts _ _
              (exec-done h hrana select_machine (str id ∷ []) ts _ 0 ts.db (f, tt) works runs)
            ∙ scan_machine-write j m _ r)

    pub get_machine-missing :
        (id : String)
        → Fits (str id)
        → get id d.machines ≡ none
        → (get_machine j h id ts).0 ≡ err (store not_found)
    unfolding get_machine select_machine
    get_machine-missing id f absent =
        let none_kept =
          keep_if-find-none (λ r. r.id =v= text id) ts.db.machines
            (a.machines id ∙ ap (row_of (machine_row j)) absent) in
        let runs : select_machine (text id ∷ []) ts.db ≡ (done [] 0, ts.db) =
          ap (λ rows. (done (map machine_cols rows) 0, ts.db)) none_kept in
        ap (λ out. out.0)
          (bind_of_ok (exec h select_machine (str id ∷ [])) _ ts _ _
            (exec-done h hrana select_machine (str id ∷ []) ts [] 0 ts.db (f, tt) works runs))

    -- A module is read as the FileStore has it, payload and signature byte for byte, by a name and a version
    -- that are not empty; the name has no at sign.
    pub get_module-found :
        (name version : String) (m : ModuleArtifact)
        → no_at name ≡ true
        → Fits (str name)
        → Fits (str version)
        → get (module_key name version) d.modules ≡ some m
        → All (λ c. c < 256) m.payload
        → All (λ c. c < 256) m.signature
        → (get_module h name version ts).0 ≡ ok m
    unfolding get_module select_module scan_module
    get_module-found name version m k f g there p s =
        let (rest, kept) =
          keep_if-find-some (is_module (text name) (text version)) ts.db.modules
            (a.modules name version k ∙ ap (row_of artifact_row) there) in
        let cols : ModuleRow → List SqlValue =
          λ r. r.name ∷ r.version ∷ r.exec ∷ r.payload ∷ r.signature ∷ [] in
        let runs : select_module (text name ∷ text version ∷ []) ts.db
            ≡ (done (map cols (artifact_row m ∷ rest)) 0, ts.db) =
          ap (λ rows. (done (map cols rows) 0, ts.db)) kept in
        ap (λ out. out.0)
          (bind_of_ok (exec h select_module (str name ∷ str version ∷ [])) _ ts _ _ (
            exec-done h hrana select_module (str name ∷ str version ∷ []) ts _ 0 ts.db (f, (g, tt))
              works runs))
        ∙ ap₂
            (λ (names : String × String × String) (blobs : List ℕ × List ℕ). ok (record m {
              name = names.0;
              version = names.1;
              exec = names.2;
              payload = blobs.0;
              signature = blobs.1;
            }))
            (λ i.
              (hrana.write_text m.name i, hrana.write_text m.version i, hrana.write_text m.exec i))
            (λ i. (blob_bytes-write m.payload p i, blob_bytes-write m.signature s i))

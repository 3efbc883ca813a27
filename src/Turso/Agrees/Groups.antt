-- ===== src/Turso/Agrees/Groups.antt =====
-- internal/store/turso.go: what the calls on groups and members do to the tables, against the
-- FileStore's maps, and the removal of a machine.
use fleet_core.Prelude.{All, List, ℕ, String, ◌≡◌, refl, Bool, true, false, some, [], ◌∷◌, arith}
use fleet_core.Prelude.Int.{pos}
use fleet_core.GoMap.{get, put, delete}
use fleet_core.Api.{Group}
use fleet_core.Store.{FileData}
use fleet_core.Store.Machines.{forget_member}
use fleet_core.Store.Groups.{members_of, remove_member}
use fleet_core.Turso.{
  GoValue, str, int, bool, text, Fits, Hrana, IsHrana, delivered, Remote, cell_of,
}
use fleet_core.Turso.Delivered.{exec-pure, exec-exec}
use fleet_core.Turso.Tables.{Tables, of_bool}
use fleet_core.Turso.Machines.{Json, delete_machine, delete_machine_members, delete_machine_row}
use fleet_core.Turso.Groups.{
  merge_group, insert_group, delete_group_members, delete_group_row, insert_member, delete_member,
  save_group, delete_group, add_group_member, remove_group_member,
}
use fleet_core.Turso.Same.{Same-upsert, Same-delete, Same-key}
use fleet_core.Turso.Agrees.{
  Agrees, Done, group_row, machine_row, Agrees-groups, Agrees-machines, Agrees-members,
}
use fleet_core.Turso.Agrees.Members.{
  SameMembers-add, SameMembers-remove, SameMembers-delete_group, SameMembers-delete_machine,
}

cell_of_bool : (b : Bool) → cell_of (bool b) ≡ of_bool b
cell_of_bool true = refl
cell_of_bool false = refl

merged :
    (j : Json) (old g : Group)
    → text old.id ≡ text g.id
    → old.tenant_id ≡ g.tenant_id
    → old.created ≡ g.created
    → merge_group (group_row j g) (group_row j old) ≡ group_row j g
unfolding merge_group
merged j old g k t e = ground (arith, k, t, e)

abbrev pub group_args : Json → Group → List GoValue
group_args j g =
    str g.id
    ∷ str g.tenant_id
    ∷ str g.name
    ∷ bool g.match_all
    ∷ str (j.labels.marshal g.selector)
    ∷ str (j.specs.marshal g.modules)
    ∷ int (pos g.created)
    ∷ []

module _ (j : Json) (h : Hrana) (hrana : IsHrana h) {d : FileData} (ts : Remote Tables)
    (a : Agrees j d ts.db) (works : (n : ℕ) → ts.fates n ≡ delivered) where
  -- A group that keeps its tenant and its time of creation is stored as it is.
  pub save_group-Agrees :
      (g : Group)
      → All Fits (group_args j g)
      → ((old : Group)
          → get g.id d.groups ≡ some old
          → (old.tenant_id ≡ g.tenant_id) × (old.created ≡ g.created))
      → Done j (record d { groups = put g.id g d.groups }) (save_group j h g ts)
  unfolding save_group insert_group merge_group
  save_group-Agrees g c keeps =
      rw (exec-pure h hrana insert_group (group_args j g) ts [] 1 _ c (works ts.calls) refl) (
        refl,
        Agrees-groups j a _ _ (
            rw (cell_of_bool g.match_all) (
              Same-upsert (λ r. r.id) (group_row j) d.groups ts.db.groups a.groups g.id g
                (merge_group (group_row j g)) refl (λ r. refl)
                (λ old there.
                  let k =
                    Same-key (λ r. r.id) (group_row j) d.groups ts.db.groups a.groups g.id there in
                  merged j old g k (keeps old there).0 (keeps old there).1))),
      )

  pub delete_group-Agrees :
      (id : String)
      → Fits (str id)
      → Done j
          (record d { groups = delete id d.groups; members = delete id d.members })
          (delete_group h id ts)
  unfolding delete_group delete_group_members delete_group_row
  delete_group-Agrees id f =
      rw
        (exec-exec h hrana delete_group_members delete_group_row (str id) ts _ _ _ _ f works refl
          refl)
        (
          refl,
          Agrees-groups j
              (Agrees-members j a _ _
                (SameMembers-delete_group d.members ts.db.members a.members id))
              _ _ (Same-delete (λ r. r.id) (group_row j) d.groups ts.db.groups a.groups id),
        )

  pub delete_machine-Agrees :
      (id : String)
      → Fits (str id)
      → Done j
          (record d { machines = delete id d.machines; members = forget_member id d.members })
          (delete_machine h id ts)
  unfolding delete_machine delete_machine_members delete_machine_row
  delete_machine-Agrees id f =
      rw
        (exec-exec h hrana delete_machine_members delete_machine_row (str id) ts _ _ _ _ f works
          refl refl)
        (
          refl,
          Agrees-machines j
              (Agrees-members j a _ _
                (SameMembers-delete_machine d.members ts.db.members a.members id))
              _ _ (Same-delete (λ r. r.id) (machine_row j) d.machines ts.db.machines a.machines id),
        )

  pub add_group_member-Agrees :
      (g m : String)
      → All Fits (str g ∷ str m ∷ [])
      → Done j
          (record d { members = put g (put m tt (members_of g d.members)) d.members })
          (add_group_member h g m ts)
  unfolding add_group_member insert_member
  add_group_member-Agrees g m f =
      rw (exec-pure h hrana insert_member (str g ∷ str m ∷ []) ts [] 1 _ f (works ts.calls) refl)
        (refl, Agrees-members j a _ _ (SameMembers-add d.members ts.db.members a.members g m))

  pub remove_group_member-Agrees :
      (g m : String)
      → All Fits (str g ∷ str m ∷ [])
      → Done j (record d { members = remove_member g m d.members }) (remove_group_member h g m ts)
  unfolding remove_group_member delete_member
  remove_group_member-Agrees g m f =
      rw (exec-pure h hrana delete_member (str g ∷ str m ∷ []) ts [] _ _ f (works ts.calls) refl)
        (refl, Agrees-members j a _ _ (SameMembers-remove d.members ts.db.members a.members g m))

-- ===== src/Admin/Refusals.antt =====
-- internal/server/admin.go and groups.go: refused requests and the store.
use fleet_core.Prelude.{◌≤◌, ◌<◌, String, ◌≡◌, ap, Option, List, arith}
use fleet_core.Prelude.Exec.{Result, ok, err, Exec, pure, continue, ◌>>=◌, ◌>>◌}
use fleet_core.GoMap.{GoMap}
use fleet_core.Api.{Bytes, ModuleSpec}
use fleet_core.Store.{FileStore}
use fleet_core.Store
use fleet_core.Store.Machines
use fleet_core.Store.Groups
use fleet_core.Server.{Server, new_id, publish}
use fleet_core.Admin.{HttpError}
use fleet_core.Admin.Steps.{
  NoRefusal, Refuses, after_decoded, after_guard, after_read, after_validate, after_new_id,
  after_now, saves, then_logs, bind-NoRefusal, or_http-NoRefusal, logged-NoRefusal, pure-NoRefusal,
  or_not_found-same, err-inj, branch-Refuses, raise-Refuses,
}
use fleet_core.Admin.Tenants.{CreateToken, UploadModule, create_tenant, create_token, upload_module}
use fleet_core.Admin.Machines.{put_desired, delete_machine, read_desired}
use fleet_core.Admin.Groups.{
  CreateGroup, UpdateGroup, create_group, update_group, delete_group, add_group_member,
  remove_group_member, put_labels,
}
use fleet_core.Admin.Commands.{cancel_command, cancel_in_group, cancel_in_machine}

get_tenant-same : (id : String) (fs : FileStore) → (Store.get_tenant id fs).1 ≡ fs
unfolding Store.get_tenant
get_tenant-same id fs = or_not_found-same _ fs

at_500 : 500 ≤ 500
at_500 = omega arith

get_group-same : (id : String) (fs : FileStore) → (Store.Groups.get_group id fs).1 ≡ fs
unfolding Store.Groups.get_group
get_group-same id fs = or_not_found-same _ fs

get_machine-same : (id : String) (fs : FileStore) → (Store.Machines.get_machine id fs).1 ≡ fs
unfolding Store.Machines.get_machine
get_machine-same id fs = or_not_found-same _ fs

new_id-NoRefusal : NoRefusal new_id
unfolding new_id
new_id-NoRefusal = record { fault = λ s e p. absurd (cc p) }

publish-NoRefusal : (topic : String) → NoRefusal (publish topic)
unfolding publish
publish-NoRefusal topic = record { fault = λ s e p. absurd (cc p) }

read_desired-NoRefusal : (id : String) → NoRefusal (read_desired id)
unfolding read_desired
read_desired-NoRefusal id = record { fault = λ s e p. absurd (cc p) }

ruleset steps = (
  after_decoded, after_guard, after_read, after_validate, after_new_id, after_now, saves, at_500,
  then_logs, get_tenant-same, get_group-same, get_machine-same, logged-NoRefusal, pure-NoRefusal,
  bind-NoRefusal, or_http-NoRefusal, new_id-NoRefusal, publish-NoRefusal, read_desired-NoRefusal,
  branch-Refuses, raise-Refuses,
)

create_tenant-Refuses : (body : Option String) → Refuses (create_tenant body)
unfolding create_tenant
create_tenant-Refuses body = search steps depth 15

create_token-Refuses : (body : Option CreateToken) → Refuses (create_token body)
unfolding create_token
create_token-Refuses body = search steps depth 15

create_group-Refuses : (body : Option CreateGroup) → Refuses (create_group body)
unfolding create_group
create_group-Refuses body = search steps depth 15

update_group-Refuses : (id : String) (body : Option UpdateGroup) → Refuses (update_group id body)
unfolding update_group
update_group-Refuses id body = search steps depth 15

delete_group-Refuses : (id : String) → Refuses (delete_group id)
unfolding delete_group
delete_group-Refuses id = search steps depth 15

add_group_member-Refuses : (id : String) (body : Option String) → Refuses (add_group_member id body)
unfolding add_group_member
add_group_member-Refuses id body = search steps depth 15

remove_group_member-Refuses : (id machine_id : String) → Refuses (remove_group_member id machine_id)
unfolding remove_group_member
remove_group_member-Refuses id machine_id = search steps depth 15

put_labels-Refuses : (id : String) (body : Option (GoMap String)) → Refuses (put_labels id body)
unfolding put_labels
put_labels-Refuses id body = search steps depth 15

put_desired-Refuses :
    (id : String) (body : Option (List ModuleSpec)) → Refuses (put_desired id body)
unfolding put_desired
put_desired-Refuses id body = search steps depth 15

delete_machine-Refuses : (id : String) → Refuses (delete_machine id)
unfolding delete_machine
delete_machine-Refuses id = search steps depth 15

upload_module-Refuses :
    (sign : Bytes → Bytes) (body : Option UploadModule) → Refuses (upload_module sign body)
unfolding upload_module
upload_module-Refuses sign body = search steps depth 15

cancel_in_group-Refuses : (name id : String) → Refuses (cancel_in_group name id)
unfolding cancel_in_group
cancel_in_group-Refuses name id = search steps depth 15

cancel_in_machine-Refuses : (name id : String) → Refuses (cancel_in_machine name id)
unfolding cancel_in_machine
cancel_in_machine-Refuses name id = search steps depth 15

cancel_command-Refuses : (name kind id : String) → Refuses (cancel_command name kind id)
unfolding cancel_command
cancel_command-Refuses name kind id =
    search (steps, cancel_in_group-Refuses, cancel_in_machine-Refuses) depth 15

answered-Refuses :
    {A : Type 0} (m : Exec Server HttpError A) → Refuses m → Refuses (m >>= λ _. pure tt)
answered-Refuses m h = record { same = λ s e p l. done (m s) s e p l (h.same s e) }
  where
    done :
        {A : Type 0} (r : Result HttpError A × Server) (s : Server) (e : HttpError)
        → (continue r.0 (λ _. pure tt) r.1).0 ≡ err e
        → e.status < 500
        → (r.0 ≡ err e → e.status < 500 → r.1.store ≡ s.store)
        → (continue r.0 (λ _. pure tt) r.1).1.store ≡ s.store
    done (ok a, t) s e p l h = absurd (cc p)
    done (err x, t) s e p l h = h (ap err (err-inj x e p)) l

-- A request that writes, with its path values and body.
pub data Request : Type 0 where
  post_tenants : Option String → Request
  post_tokens : Option CreateToken → Request
  post_groups : Option CreateGroup → Request
  patch_group : String → Option UpdateGroup → Request
  delete_of_group : String → Request
  post_member : String → Option String → Request
  delete_member : String → String → Request
  put_machine_labels : String → Option (GoMap String) → Request
  put_machine_desired : String → Option (List ModuleSpec) → Request
  delete_of_machine : String → Request
  post_modules : Option UploadModule → Request
  delete_command : String → String → String → Request

-- The handler of a request, without the body of its answer.
unfoldable pub serve : (Bytes → Bytes) → Request → Exec Server HttpError (Unit {0})
serve sign (post_tenants body) = create_tenant body >> pure tt
serve sign (post_tokens body) = create_token body >> pure tt
serve sign (post_groups body) = create_group body >> pure tt
serve sign (patch_group id body) = update_group id body >> pure tt
serve sign (delete_of_group id) = delete_group id >> pure tt
serve sign (post_member id body) = add_group_member id body >> pure tt
serve sign (delete_member id machine_id) = remove_group_member id machine_id >> pure tt
serve sign (put_machine_labels id body) = put_labels id body >> pure tt
serve sign (put_machine_desired id body) = put_desired id body >> pure tt
serve sign (delete_of_machine id) = delete_machine id >> pure tt
serve sign (post_modules body) = upload_module sign body >> pure tt
serve sign (delete_command name kind id) = cancel_command name kind id >> pure tt

serve-Refuses : (sign : Bytes → Bytes) (r : Request) → Refuses (serve sign r)
unfolding serve
serve-Refuses sign (post_tenants body) = answered-Refuses _ (create_tenant-Refuses body)
serve-Refuses sign (post_tokens body) = answered-Refuses _ (create_token-Refuses body)
serve-Refuses sign (post_groups body) = answered-Refuses _ (create_group-Refuses body)
serve-Refuses sign (patch_group id body) = answered-Refuses _ (update_group-Refuses id body)
serve-Refuses sign (delete_of_group id) = answered-Refuses _ (delete_group-Refuses id)
serve-Refuses sign (post_member id body) = answered-Refuses _ (add_group_member-Refuses id body)
serve-Refuses sign (delete_member id machine_id) =
    answered-Refuses _ (remove_group_member-Refuses id machine_id)
serve-Refuses sign (put_machine_labels id body) = answered-Refuses _ (put_labels-Refuses id body)
serve-Refuses sign (put_machine_desired id body) = answered-Refuses _ (put_desired-Refuses id body)
serve-Refuses sign (delete_of_machine id) = answered-Refuses _ (delete_machine-Refuses id)
serve-Refuses sign (post_modules body) = answered-Refuses _ (upload_module-Refuses sign body)
serve-Refuses sign (delete_command name kind id) =
    answered-Refuses _ (cancel_command-Refuses name kind id)

-- A request of the admin API, other than to create a command, that is refused with a status below 500
-- leaves the store as it was, memory and file.
pub refused_changes_nothing :
    (sign : Bytes → Bytes) (r : Request) (s : Server) (e : HttpError)
    → (serve sign r s).0 ≡ err e
    → e.status < 500
    → (serve sign r s).1.store ≡ s.store
refused_changes_nothing sign r = (serve-Refuses sign r).same

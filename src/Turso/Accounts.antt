-- ===== src/Turso/Accounts.antt =====
-- internal/store/turso.go: tenants and enrollment tokens.
use fleet_core.Prelude.{
  ℕ, zero, suc, ◌+◌, String, Bool, true, not, ◌&&◌, ◌||◌, List, [], ◌∷◌, map, if◌then◌else◌, length,
  any, keep_if,
}
use fleet_core.Prelude.Exec.{ok, err, Exec, pure, raise, ◌>>=◌, ◌>>◌}
use fleet_core.Prelude.Int.{pos, negsuc, is_zero}
use fleet_core.GoMap.{GoMap}
use fleet_core.Sort.{sort_slice}
use fleet_core.Api.{Tenant, EnrollToken}
use fleet_core.Store.{not_found, token_used}
use fleet_core.Turso.{
  HranaValue, str, int, bool, SqlValue, integer, null, i64, Hrana, Remote, Statement, done, refused,
  param, TursoError, store, exec, less, ◌=v=◌,
}
use fleet_core.Turso.Table.{upsert, update_where}
use fleet_core.Turso.Tables.{TenantRow, TokenRow, Tables, Codec, column, of_bool}

-- `INSERT INTO tenants (id, name, created) … ON CONFLICT(id) DO UPDATE SET name=excluded.name`
unfoldable pub insert_tenant : Statement Tables
insert_tenant vs db =
    let new : TenantRow = record { id = param 0 vs; name = param 1 vs; created = param 2 vs } in
    (
      done [] 1,
      record db {
        tenants = upsert (λ r. r.id =v= new.id) (λ r. record r { name = new.name }) new db.tenants;
      },
    )

abbrev pub tenant_columns : TenantRow → List SqlValue
tenant_columns r = r.id ∷ r.name ∷ r.created ∷ []

-- `SELECT id, name, created FROM tenants WHERE id=?`
unfoldable pub select_tenant : Statement Tables
select_tenant vs db =
    (done (map tenant_columns (keep_if (λ r. r.id =v= param 0 vs) db.tenants)) 0, db)

-- `SELECT id, name, created FROM tenants ORDER BY created`
unfoldable pub select_tenants : Statement Tables
select_tenants vs db =
    (done (map tenant_columns (sort_slice (λ a b. less a.created b.created) db.tenants)) 0, db)

unfoldable pub scan_tenant : List HranaValue → Tenant
unfolding i64
scan_tenant row = record {
  id = (column 0 row).value;
  name = (column 1 row).value;
  created = i64 (column 2 row);
}

-- `INSERT INTO tokens (token, tenant_id, labels, created, expires_at, max_uses, uses, used) VALUES …`:
-- a second row of a token breaks the primary key.
unfoldable pub insert_token : Statement Tables
insert_token vs db =
    let new : TokenRow = record {
      token = param 0 vs;
      tenant_id = param 1 vs;
      labels = param 2 vs;
      created = param 3 vs;
      expires_at = param 4 vs;
      max_uses = param 5 vs;
      uses = param 6 vs;
      used = param 7 vs;
    } in
    if any (λ r. r.token =v= new.token) db.tokens
    then (refused "UNIQUE constraint failed: tokens.token", db)
    else (
      done [] 1,
      record db { tokens = upsert (λ r. r.token =v= new.token) (λ r. r) new db.tokens },
    )

-- `uses+1`
unfoldable pub plus_one : SqlValue → SqlValue
plus_one (integer (pos n)) = integer (pos (n + 1))
plus_one (integer (negsuc zero)) = integer (pos 0)
plus_one (integer (negsuc (suc n))) = integer (negsuc n)
plus_one _ = null

-- `token=? AND (expires_at=0 OR expires_at>?) AND (max_uses<0 OR uses<max_uses)`
unfoldable pub redeemable : SqlValue → SqlValue → TokenRow → Bool
redeemable token now r =
    (r.token =v= token)
    && ((r.expires_at =v= integer (pos 0)) || less now r.expires_at)
    && (less r.max_uses (integer (pos 0)) || less r.uses r.max_uses)

-- `SET uses=uses+1, used=(max_uses>0 AND uses+1>=max_uses)`
unfoldable pub redeem : TokenRow → TokenRow
unfolding plus_one less
redeem r = record r {
  uses = plus_one r.uses;
  used = of_bool (less (integer (pos 0)) r.max_uses && not (less (plus_one r.uses) r.max_uses));
}

-- `UPDATE tokens SET … WHERE … RETURNING token, tenant_id, labels, created`
unfoldable pub update_token : Statement Tables
unfolding redeemable redeem
update_token vs db =
    let hits = redeemable (param 0 vs) (param 1 vs) in
    let rows = keep_if hits db.tokens in
    (
      done (map (λ r. r.token ∷ r.tenant_id ∷ r.labels ∷ r.created ∷ []) rows) (length rows),
      record db { tokens = update_where hits redeem db.tokens },
    )

-- `_ = json.Unmarshal(…, &out.Labels)`: an error leaves no labels.
abbrev read_labels : Codec (GoMap String) → String → GoMap String
read_labels labels s = elim (labels.unmarshal s) [ ok m ↦ m | err e ↦ [] ]

unfoldable pub scan_token : Codec (GoMap String) → List HranaValue → EnrollToken
unfolding i64
scan_token labels row = record {
  token = (column 0 row).value;
  tenant_id = (column 1 row).value;
  labels = read_labels labels (column 2 row).value;
  created = i64 (column 3 row);
  expires_at = 0;
  max_uses = pos 0;
  uses = 0;
  used = true;
}

module _ (h : Hrana) where
  unfoldable pub save_tenant : Tenant → Exec (Remote Tables) TursoError (Unit {0})
  unfolding insert_tenant
  save_tenant t = do
    exec h insert_tenant (str t.id ∷ str t.name ∷ int (pos t.created) ∷ [])
    pure tt

  unfoldable pub get_tenant : String → Exec (Remote Tables) TursoError Tenant
  unfolding select_tenant scan_tenant
  get_tenant id = do
    r ← exec h select_tenant (str id ∷ [])
    elim r.rows [ [] ↦ raise (store not_found) | row ∷ rows ↦ pure (scan_tenant row) ]

  unfoldable pub list_tenants : Exec (Remote Tables) TursoError (List Tenant)
  unfolding select_tenants scan_tenant
  list_tenants = do r ← exec h select_tenants []; pure (map scan_tenant r.rows)

  module _ (labels : Codec (GoMap String)) where
    -- `mu := t.MaxUses; if mu == 0 { mu = 1 }`
    unfoldable pub save_token : EnrollToken → Exec (Remote Tables) TursoError (Unit {0})
    unfolding insert_token
    save_token t = do
      exec h insert_token (
          str t.token
          ∷ str t.tenant_id
          ∷ str (labels.marshal t.labels)
          ∷ int (pos t.created)
          ∷ int (pos t.expires_at)
          ∷ int (if is_zero t.max_uses then pos 1 else t.max_uses)
          ∷ int (pos t.uses)
          ∷ bool t.used
          ∷ [])
      pure tt

    -- `now` is `time.Now().Unix()`.
    unfoldable pub consume_token : ℕ → String → Exec (Remote Tables) TursoError EnrollToken
    unfolding update_token scan_token
    consume_token now token = do
      r ← exec h update_token (str token ∷ int (pos now) ∷ [])
      elim r.rows [ [] ↦ raise (store token_used) | row ∷ rows ↦ pure (scan_token labels row) ]

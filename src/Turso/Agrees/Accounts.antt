-- ===== src/Turso/Agrees/Accounts.antt =====
-- internal/store/turso.go: what the calls on tenants and tokens do to the tables, against the
-- FileStore's maps. The two stores test a token in different words.
use fleet_core.Prelude.{
  All, ℕ, ◌+◌, ◌≤◌, String, ◌≡◌, refl, sym, ap, ap₂, ◌∙◌, Bool, true, false, not, ◌&&◌, ◌||◌, none,
  some, List, [], ◌∷◌, map, arith, ltb, ◌==◌, if◌then◌else◌, Bool-cases, inl, inr, length, keep_if,
  ◌=s=◌, eq_iff,
}
use fleet_core.Prelude.Int.{ℤ, pos, negsuc, is_zero}
use fleet_core.GoMap.{get, put}
use fleet_core.Api.{Tenant, EnrollToken}
use fleet_core.Store.{FileData}
use fleet_core.Store.Tokens.{expired, legacy, token_limit, exhausted, use_once}
use fleet_core.Turso.{
  str, int, bool, GoValue, SqlValue, text, integer, Fits, Hrana, IsHrana, delivered, Remote,
  cell_of, less, ◌=v=◌, done,
}
use fleet_core.Turso.Delivered.{exec-pure}
use fleet_core.Turso.Table.{find, upsert}
use fleet_core.Turso.Table.Laws.{any-find, count-upsert_new, length-find-none}
use fleet_core.Turso.Tables.{TokenRow, Tables, of_bool}
use fleet_core.Turso.Machines.{Json}
use fleet_core.Turso.Accounts.{
  insert_tenant, save_tenant, insert_token, save_token, plus_one, redeemable, redeem,
}
use fleet_core.Turso.Same.{Same-upsert, Same-key, row_of}
use fleet_core.Turso.Agrees.{Agrees, Done, tenant_row, token_row, Agrees-tenants, Agrees-tokens}

-- The number of uses left, as `exhausted` and the WHERE test it.
limit_test :
    (z : ℤ) (uses : ℕ)
    → (less (integer (if is_zero z then pos 1 else z)) (integer (pos 0))
        || less (integer (pos uses)) (integer (if is_zero z then pos 1 else z)))
      ≡ not (exhausted (if is_zero z then pos 1 else z) uses)
unfolding less exhausted
limit_test (pos n) uses = ground arith
limit_test (negsuc n) uses = refl

-- The new value of `used`, as both set it.
used_test :
    (z : ℤ) (uses : ℕ)
    → (less (integer (pos 0)) (integer z) && not (less (integer (pos uses)) (integer z)))
      ≡ exhausted z uses
unfolding less exhausted
used_test (pos n) uses = ground arith
used_test (negsuc n) uses = refl

-- The expiry, where the token does not expire in this very second.
expiry_test :
    (e now : ℕ)
    → (e == now) ≡ false
    → ((integer (pos e) =v= integer (pos 0)) || less (integer (pos now)) (integer (pos e)))
      ≡ not (ltb 0 e && ltb e now)
unfolding less ◌=v=◌
expiry_test e now d = ground arith

legacy_lem : (t : EnrollToken) → legacy t ≡ record t { uses = (legacy t).uses }
unfolding legacy
legacy_lem t = elim (Bool-cases (t.used && t.uses == 0)) [ inl e ↦ rw e | inr e ↦ rw e ]

-- A token that has been used with its use counted stays as it is.
legacy-counted :
    (t : EnrollToken) (n : ℕ) (b : Bool)
    → (legacy (record t { uses = n + 1; used = b })).uses ≡ n + 1
unfolding legacy
legacy-counted t n true = ground arith
legacy-counted t n false = refl

module _ (j : Json) where
  -- The WHERE of `ConsumeToken` is the test of the FileStore.
  pub redeemable_lem :
      (t : EnrollToken) (k : String) (now : ℕ)
      → (text t.token =v= text k) ≡ true
      → (t.expires_at == now) ≡ false
      → redeemable (text k) (integer (pos now)) (token_row j t)
        ≡ (not (expired now t) && not (exhausted (token_limit (legacy t)) (legacy t).uses))
  unfolding redeemable expired token_limit
  redeemable_lem t k now e d = rw e (
      ap₂ ◌&&◌ (expiry_test t.expires_at now d) (
        limit_test t.max_uses (legacy t).uses
        ∙ ap (λ x. not (exhausted (token_limit x) (legacy t).uses)) (sym (legacy_lem t))))

  pub redeem_lem : (t : EnrollToken) → redeem (token_row j t) ≡ token_row j (use_once (legacy t))
  unfolding redeem use_once token_limit plus_one
  redeem_lem t =
      let u = (legacy t).uses in
      let l : ℤ = if is_zero t.max_uses then pos 1 else t.max_uses in
      ap₂ (λ x b. record (token_row j t) { uses = integer (pos x); used = of_bool b })
        (sym (legacy-counted t u (exhausted l (u + 1)))) (used_test l (u + 1))
      ∙ ap (λ x. token_row j (use_once x)) (sym (legacy_lem t))

pub redeemable-narrow :
    (k : String) (now : SqlValue) (r : TokenRow)
    → redeemable (text k) now r ≡ true
    → (r.token =v= text k) ≡ true
unfolding redeemable
redeemable-narrow k now r h = ground arith

merged :
    (old t : Tenant)
    → text old.id ≡ text t.id
    → old.created ≡ t.created
    → record (tenant_row old) { name = text t.name } ≡ tenant_row t
merged old t k c = ground (arith, k, c)

legacy-unused : (t : EnrollToken) → t.used ≡ false → (legacy t).uses ≡ t.uses
unfolding legacy
legacy-unused t h = ground (arith, h)

cell_of_bool : (b : Bool) → cell_of (bool b) ≡ of_bool b
cell_of_bool true = refl
cell_of_bool false = refl

abbrev pub tenant_args : Tenant → List GoValue
tenant_args t = str t.id ∷ str t.name ∷ int (pos t.created) ∷ []

abbrev pub token_args : Json → EnrollToken → List GoValue
token_args j t =
    str t.token
    ∷ str t.tenant_id
    ∷ str (j.labels.marshal t.labels)
    ∷ int (pos t.created)
    ∷ int (pos t.expires_at)
    ∷ int (if is_zero t.max_uses then pos 1 else t.max_uses)
    ∷ int (pos t.uses)
    ∷ bool t.used
    ∷ []

abbrev pub is_token : String → TokenRow → Bool
is_token k r = r.token =v= text k

-- The statement inserts the row of an unused token that the table lacks.
insert_token_lem :
    (j : Json) (t : EnrollToken) (db : Tables)
    → t.used ≡ false
    → find (is_token t.token) db.tokens ≡ none
    → insert_token (map cell_of (token_args j t)) db ≡ (
      done [] 1,
      record db { tokens = upsert (is_token t.token) (λ r. r) (token_row j t) db.tokens },
    )
unfolding insert_token
insert_token_lem j t db fresh missing = rw (any-find (is_token t.token) db.tokens missing) (
    ap₂
      (λ n b. (
        done [] 1,
        record db {
          tokens =
              upsert (is_token t.token) (λ r. r)
                (record (token_row j t) { uses = integer (pos n); used = b }) db.tokens;
        },
      ))
      (sym (legacy-unused t fresh)) (cell_of_bool t.used))

once_after :
    (t : TokenRow) (k id : String) (rs : List TokenRow)
    → t.token ≡ text k
    → find (is_token k) rs ≡ none
    → length (keep_if (is_token id) rs) ≤ 1
    → length (keep_if (is_token id) (upsert (is_token k) (λ r. r) t rs)) ≤ 1
unfolding ◌=v=◌
once_after t k id rs e missing once = elim (Bool-cases (k =s= id)) [
  | inl same ↦
      rw (count-upsert_new (is_token id) (is_token k) (λ r. r) t rs missing)
        (rw (← (eq_iff k id).0 same) (rw (length-find-none (is_token k) rs missing) (ground arith)))
  | inr d ↦
      rw (count-upsert_new (is_token id) (is_token k) (λ r. r) t rs missing)
        (rw (e, d) (ground arith))
]

module _ (j : Json) (h : Hrana) (hrana : IsHrana h) {d : FileData} (ts : Remote Tables)
    (a : Agrees j d ts.db) (works : (n : ℕ) → ts.fates n ≡ delivered) where
  pub save_tenant-Agrees :
      (t : Tenant)
      → All Fits (tenant_args t)
      → ((old : Tenant) → get t.id d.tenants ≡ some old → old.created ≡ t.created)
      → Done j (record d { tenants = put t.id t d.tenants }) (save_tenant h t ts)
  unfolding save_tenant insert_tenant
  save_tenant-Agrees t c keeps =
      rw (exec-pure h hrana insert_tenant (tenant_args t) ts [] 1 _ c (works ts.calls) refl) (
        refl,
        Agrees-tenants j a _ _ (
            Same-upsert (λ r. r.id) tenant_row d.tenants ts.db.tenants a.tenants t.id t
              (λ r. record r { name = text t.name }) refl (λ r. refl)
              (λ old there.
                merged old t
                  (Same-key (λ r. r.id) tenant_row d.tenants ts.db.tenants a.tenants t.id there)
                  (keeps old there))),
      )

  -- A token that is new and has no use yet.
  pub save_token-Agrees :
      (t : EnrollToken)
      → All Fits (token_args j t)
      → t.used ≡ false
      → get t.token d.tokens ≡ none
      → Done j (record d { tokens = put t.token t d.tokens }) (save_token h j.labels t ts)
  unfolding save_token
  save_token-Agrees t c fresh absent =
      let missing = a.tokens t.token ∙ ap (row_of (token_row j)) absent in
      rw
        (exec-pure h hrana insert_token (token_args j t) ts [] 1 _ c (works ts.calls)
          (insert_token_lem j t ts.db fresh missing))
        (
          refl,
          Agrees-tokens j a _ _
              (Same-upsert (λ r. r.token) (token_row j) d.tokens ts.db.tokens a.tokens t.token t
                (λ r. r) refl (λ r. refl) (λ old there. cc (absent, there)))
              (λ id.
                once_after (token_row j t) t.token id ts.db.tokens refl missing (a.tokens_once id)),
        )

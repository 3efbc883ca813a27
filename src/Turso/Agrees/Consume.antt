-- ===== src/Turso/Agrees/Consume.antt =====
-- internal/store/turso.go: ConsumeToken, whose statement redeems a token exactly where the FileStore does.
use fleet_core.Prelude.{
  All, ℕ, String, ◌≡◌, refl, ap, ◌∙◌, Bool, true, none, some, List, [], ◌∷◌, map, length, keep_if,
}
use fleet_core.Prelude.Exec.{ok, err, bind_of_ok}
use fleet_core.Prelude.Int.{pos}
use fleet_core.GoMap.{get, put}
use fleet_core.Api.{EnrollToken}
use fleet_core.Store.{FileData, token_used}
use fleet_core.Store.Tokens.{legacy, use_once}
use fleet_core.Turso.{
  Fits, str, int, SqlValue, text, integer, Hrana, IsHrana, delivered, Remote, store, exec, cell_of,
  ◌=v=◌, done,
}
use fleet_core.Turso.Delivered.{exec-done}
use fleet_core.Turso.Table.{find, update_where}
use fleet_core.Turso.Table.Laws.{
  keep_if-find-none, keep_if-find-some, count-update, find-narrow_some, update_where-none,
}
use fleet_core.Turso.Tables.{TokenRow, Tables}
use fleet_core.Turso.Machines.{Json}
use fleet_core.Turso.Accounts.{redeemable, redeem, update_token, consume_token}
use fleet_core.Turso.Same.{Same-update_narrow, row_of}
use fleet_core.Turso.Agrees.{Agrees, token_row, Agrees-tokens}
use fleet_core.Turso.Agrees.Accounts.{redeem_lem, redeemable-narrow, is_token}

-- RETURNING
abbrev returned : TokenRow → List SqlValue
returned r = r.token ∷ r.tenant_id ∷ r.labels ∷ r.created ∷ []

update_token-none :
    (k : String) (now : ℕ) (db : Tables)
    → find (redeemable (text k) (integer (pos now))) db.tokens ≡ none
    → update_token (map cell_of (str k ∷ int (pos now) ∷ [])) db ≡ (done [] 0, db)
unfolding update_token
update_token-none k now db h =
    rw (keep_if-find-none (redeemable (text k) (integer (pos now))) db.tokens h)
      (rw (update_where-none (redeemable (text k) (integer (pos now))) redeem db.tokens h) refl)

update_token-some :
    (k : String) (now : ℕ) (db : Tables) (r : TokenRow) (rest : List TokenRow)
    → keep_if (redeemable (text k) (integer (pos now))) db.tokens ≡ r ∷ rest
    → update_token (map cell_of (str k ∷ int (pos now) ∷ [])) db ≡ (
      done (map returned (r ∷ rest)) (length (r ∷ rest)),
      record db {
        tokens = update_where (redeemable (text k) (integer (pos now))) redeem db.tokens;
      },
    )
unfolding update_token
update_token-some k now db r rest h = rw h refl

redeem-token : (r : TokenRow) → (redeem r).token ≡ r.token
unfolding redeem
redeem-token r = refl

module _ (j : Json) (h : Hrana) (hrana : IsHrana h) {d : FileData} (ts : Remote Tables)
    (a : Agrees j d ts.db) (works : (n : ℕ) → ts.fates n ≡ delivered) (now : ℕ) (k : String)
    (fits : All Fits (str k ∷ int (pos now) ∷ [])) where
  abbrev hits : TokenRow → Bool
  hits = redeemable (text k) (integer (pos now))

  pub consume_token-refused :
      find hits ts.db.tokens ≡ none
      → ((consume_token h j.labels now k ts).0 ≡ err (store token_used))
        × Agrees j d (consume_token h j.labels now k ts).1.db
  unfolding consume_token
  consume_token-refused none_left =
      rw
        (bind_of_ok (exec h update_token (str k ∷ int (pos now) ∷ [])) _ ts _ _ (
          exec-done h hrana update_token (str k ∷ int (pos now) ∷ []) ts [] 0 ts.db fits
            (works ts.calls) (update_token-none k now ts.db none_left)))
        (refl, a)

  pub consume_token-accepted :
      (t : EnrollToken)
      → get k d.tokens ≡ some t
      → hits (token_row j t) ≡ true
      → ((got : EnrollToken) × ((consume_token h j.labels now k ts).0 ≡ ok got))
        × Agrees j
            (record d { tokens = put k (use_once (legacy t)) d.tokens })
            (consume_token h j.labels now k ts).1.db
  unfolding consume_token
  consume_token-accepted t there passes =
      let found = a.tokens k ∙ ap (row_of (token_row j)) there in
      let (rest, kept) = keep_if-find-some hits ts.db.tokens (
        find-narrow_some (is_token k) hits (redeemable-narrow k (integer (pos now))) ts.db.tokens
          (token_row j t) found passes) in
      rw
        (bind_of_ok (exec h update_token (str k ∷ int (pos now) ∷ [])) _ ts _ _ (
          exec-done h hrana update_token (str k ∷ int (pos now) ∷ []) ts _ _ _ fits (works ts.calls)
            (update_token-some k now ts.db (token_row j t) rest kept)))
        (
          (_, refl),
          Agrees-tokens j a _ _
              (Same-update_narrow (λ r. r.token) (token_row j) d.tokens ts.db.tokens a.tokens k
                (use_once (legacy t)) t hits redeem (redeemable-narrow k (integer (pos now))) there
                passes redeem-token (redeem_lem j t))
              (λ id.
                rw
                  (count-update (is_token id) hits redeem ts.db.tokens
                    (λ r. ap (λ v. v =v= text id) (redeem-token r)))
                  (a.tokens_once id)),
        )

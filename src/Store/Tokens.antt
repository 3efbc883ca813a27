-- ===== src/Store/Tokens.antt =====
-- internal/store/store.go: enrollment tokens. `now` is what `timeNow` returns.
use fleet_core.Prelude.{
  ℕ, ◌+◌, String, Bool, false, ◌&&◌, none, some, ltb, leb, ◌==◌, if◌then◌else◌,
}
use fleet_core.Prelude.Exec.{err, Exec, pure, raise, ◌>>◌}
use fleet_core.Prelude.Int.{ℤ, pos, negsuc, is_zero}
use fleet_core.GoMap.{get, put}
use fleet_core.Api.{EnrollToken}
use fleet_core.Store.{StoreError, token_used, FileStore, commit}

unfoldable pub save_token : EnrollToken → Exec FileStore StoreError (Unit {0})
save_token t = commit (λ d. record d { tokens = put t.token t d.tokens })

-- `t.ExpiresAt > 0 && t.ExpiresAt < timeNow()`
unfoldable pub expired : ℕ → EnrollToken → Bool
expired now t = ltb 0 t.expires_at && ltb t.expires_at now

-- Records of before `Uses` existed say only that the token is used.
unfoldable pub legacy : EnrollToken → EnrollToken
legacy t = if t.used && t.uses == 0 then record t { uses = 1 } else t

-- `MaxUses`, where 0 stands for one use.
unfoldable pub token_limit : EnrollToken → ℤ
token_limit t = if is_zero t.max_uses then pos 1 else t.max_uses

-- `limit > 0 && uses >= limit`
unfoldable pub exhausted : ℤ → ℕ → Bool
exhausted (pos n) uses = ltb 0 n && leb n uses
exhausted (negsuc n) uses = false

-- The token with one use more.
unfoldable pub use_once : EnrollToken → EnrollToken
unfolding exhausted token_limit
use_once t = record t { uses = t.uses + 1; used = exhausted (token_limit t) (t.uses + 1) }

unfoldable pub consume_found : ℕ → String → EnrollToken → Exec FileStore StoreError EnrollToken
unfolding expired legacy token_limit exhausted use_once
consume_found now token t =
    if expired now t
    then raise token_used
    else let t' = legacy t in
      if exhausted (token_limit t') t'.uses then raise token_used else do
        commit (λ d. record d { tokens = put token (use_once t') d.tokens })
        pure (use_once t')

unfoldable pub consume_token : ℕ → String → Exec FileStore StoreError EnrollToken
unfolding consume_found
consume_token now token fs = elim (get token fs.contents.tokens) [
  | none ↦ (err token_used, fs)
  | some t ↦ consume_found now token t fs
]

-- ===== src/Store/Writes/TokenLimit.antt =====
-- internal/store/store.go: how often a token enrolls a machine, whatever else the store is asked
-- meanwhile, whichever writes of the file fail, and wherever the process crashes and restarts.
use fleet_core.Prelude.{
  ℕ, ◌+◌, ◌≤◌, String, ◌≡◌, refl, sym, ap, ◌∙◌, subst, ◌⊎◌, inl, inr, false, ◌||◌, some, List, [],
  ◌∷◌, arith, if◌then◌else◌, Bool-cases, Option-cases, All, ◌=s=◌, eq_iff, eq_refl,
}
use fleet_core.Prelude.Exec.{Result, ok, err}
use fleet_core.GoMap.{get, put}
use fleet_core.GoMap.Laws.{get-put, get-put_self}
use fleet_core.Api.{EnrollToken}
use fleet_core.Store.{FileData, FileStore, StoreError, commit, flush, save_tenant, restart}
use fleet_core.Store.Tokens.{
  save_token, consume_token, legacy, use_once, expired, exhausted, token_limit,
}
use fleet_core.Store.Machines.{save_machine, delete_machine, touch_heartbeat, set_status}
use fleet_core.Store.Modules.{save_module, delete_module}
use fleet_core.Store.Groups.{save_group, delete_group, add_group_member, remove_group_member}
use fleet_core.Store.Writes.UsesLeft.{Fits, Fits-use_once, Fits-suc}
use fleet_core.Store.Writes.{
  Write, tenant, token, consume, machine, drop_machine, heartbeat, status, artifact, drop_artifact,
  group, drop_group, member, drop_member, call,
}

-- What happens to the store: a call, or a crash with a restart from the file.
pub data Event : Type 0 where
  does : Write → Event
  crash : Event

-- 1 for an enrollment with the token `k`.
abbrev redeemed : String → Write → Result StoreError (Unit {0}) → ℕ
redeemed k (consume now j) (ok _) = if j =s= k then 1 else 0
redeemed k _ _ = 0

-- How many enrollments the token `k` pays for in a run of events.
unfoldable pub redemptions : String → List Event → FileStore → ℕ
redemptions k [] fs = 0
redemptions k (does w ∷ es) fs = redeemed k w (call w fs).0 + redemptions k es (call w fs).1
redemptions k (crash ∷ es) fs = redemptions k es (restart fs)

-- The token itself is not saved anew: the server saves a token once, under a fresh random name.
abbrev pub Keeps : String → Event → Type 0
Keeps k (does (token t)) = (t.token =s= k) ≡ false
Keeps k _ = Unit

-- Whatever memory or the file hold under the token's name pays for `n` more enrollments at most.
pub record HasRoom (k : String) (n : ℕ) (fs : FileStore) : Type 0 where
  pub in_memory : (t : EnrollToken) → get k fs.contents.tokens ≡ some t → Fits n t
  pub in_file :
      (d : FileData) (t : EnrollToken) → fs.disk ≡ some d → get k d.tokens ≡ some t → Fits n t

-- After any call the file is as it was, or holds what memory does.
disk-call :
    (w : Write) (fs : FileStore)
    → ((call w fs).1.disk ≡ fs.disk) ⊎ ((call w fs).1.disk ≡ some (call w fs).1.contents)
unfolding call commit save_tenant save_token consume_token save_machine delete_machine
    touch_heartbeat set_status save_module delete_module save_group delete_group add_group_member
    remove_group_member
disk-call (tenant t) fs = ground arith
disk-call _ fs = ground arith

-- A consumption that answers an error leaves the token, or uses it in memory only; one that succeeds
-- found the token not used up, and memory and file hold it with one use more.
consume_cases :
    (now : ℕ) (j : String) (fs : FileStore)
    → ((redeemed j (consume now j) (call (consume now j) fs).0 ≡ 0)
        × ((call (consume now j) fs).1.contents.tokens ≡ fs.contents.tokens)
        × ((call (consume now j) fs).1.disk ≡ fs.disk))
      ⊎ ((t : EnrollToken) × (get j fs.contents.tokens ≡ some t)
          × (exhausted (token_limit (legacy t)) (legacy t).uses ≡ false)
          × ((call (consume now j) fs).1.contents.tokens
              ≡ put j (use_once (legacy t)) fs.contents.tokens)
          × (((redeemed j (consume now j) (call (consume now j) fs).0 ≡ 0)
                × ((call (consume now j) fs).1.disk ≡ fs.disk))
              ⊎ ((redeemed j (consume now j) (call (consume now j) fs).0 ≡ 1)
                  × ((call (consume now j) fs).1.disk
                      ≡ some (call (consume now j) fs).1.contents))))
unfolding call consume_token commit flush
consume_cases now j fs = elim (Option-cases (get j fs.contents.tokens)) [
  | inl e ↦ inl (ground arith, ground arith, ground arith)
  | inr (t, e) ↦
      elim (Bool-cases (expired now t || exhausted (token_limit (legacy t)) (legacy t).uses)) [
        | inl no_use ↦ inl (ground arith, ground arith, ground arith)
        | inr fits ↦ inr (t, e, ground arith, ground arith, ground (arith, eq_refl j))
      ]
]

HasRoom-same :
    (k : String) (n : ℕ) (fs fs' : FileStore)
    → get k fs'.contents.tokens ≡ get k fs.contents.tokens
    → (fs'.disk ≡ fs.disk) ⊎ (fs'.disk ≡ some fs'.contents)
    → HasRoom k n fs
    → HasRoom k n fs'
HasRoom-same k n fs fs' same (inl d) h = record {
  in_memory = λ t p. h.in_memory t (sym same ∙ p);
  in_file = λ x t p q. h.in_file x t (sym d ∙ p) q;
}
HasRoom-same k n fs fs' same (inr d) h = record {
  in_memory = λ t p. h.in_memory t (sym same ∙ p);
  in_file = λ x t p q. h.in_memory t (ground (arith, same, d, p, q));
}

HasRoom-memory :
    (k : String) (n : ℕ) (fs : FileStore) (u : EnrollToken)
    → get k fs.contents.tokens ≡ some u
    → Fits n u
    → (t : EnrollToken) → get k fs.contents.tokens ≡ some t
    → Fits n t
HasRoom-memory k n fs u p f t q = let e : u ≡ t = cc in subst (Fits n) e f

HasRoom-flushed :
    (k : String) (n : ℕ) (fs : FileStore) (u : EnrollToken)
    → get k fs.contents.tokens ≡ some u
    → fs.disk ≡ some fs.contents
    → Fits n u
    → HasRoom k n fs
HasRoom-flushed k n fs u p d f = record {
  in_memory = HasRoom-memory k n fs u p f;
  in_file = λ x t q r. HasRoom-memory k n fs u p f t (ground (arith, d, q, r));
}

-- One call: what it redeems and what stays are no more than there was.
abbrev Spends : String → ℕ → Write → FileStore → Type 0
Spends k n w fs = (m : ℕ) × HasRoom k m (call w fs).1 × (redeemed k w (call w fs).0 + m ≤ n)

consume_self :
    (k : String) (n now : ℕ) (fs : FileStore) → HasRoom k n fs → Spends k n (consume now k) fs
consume_self k n now fs h = elim (consume_cases now k fs) [
  | inl (r, c, d) ↦ (
    n,
    HasRoom-same k n fs (call (consume now k) fs).1 (ap (get k) c) (inl d) h,
    omega (arith, r),
  )
  | inr (t, p, e, c, rest) ↦
      let (m, left, fits) = Fits-use_once n t e (h.in_memory t p) in
      elim rest [
        | inl (r, d) ↦ (
          n,
          record {
            in_memory =
                HasRoom-memory k n (call (consume now k) fs).1 (use_once (legacy t))
                  (ap (get k) c ∙ get-put_self k (use_once (legacy t)) fs.contents.tokens)
                  (rw left (Fits-suc m (use_once (legacy t)) fits));
            in_file = λ x u q. h.in_file x u (sym d ∙ q);
          },
          omega (arith, r),
        )
        | inr (r, d) ↦ (
          m,
          HasRoom-flushed k m (call (consume now k) fs).1 (use_once (legacy t))
              (ap (get k) c ∙ get-put_self k (use_once (legacy t)) fs.contents.tokens) d fits,
          omega (arith, r, left),
        )
      ]
]

abbrev Other : String → Write → Type 0
Other k (token t) = (t.token =s= k) ≡ false
Other k (consume now j) = (j =s= k) ≡ false
Other k _ = Unit

-- A call that is not about the token.
Other-token :
    (k : String) (w : Write) (fs : FileStore)
    → Other k w
    → get k (call w fs).1.contents.tokens ≡ get k fs.contents.tokens
unfolding call commit flush save_tenant save_token save_machine delete_machine touch_heartbeat
    set_status save_module delete_module save_group delete_group add_group_member
    remove_group_member
Other-token k (token t) fs h = ground (arith, get-put t.token k t fs.contents.tokens)
Other-token k (consume now j) fs h = elim (consume_cases now j fs) [
  | inl (_, c, _) ↦ ap (get k) c
  | inr (t, _, _, c, _) ↦
      ap (get k) c ∙ ground (arith, h, get-put j k (use_once (legacy t)) fs.contents.tokens)
]
Other-token k _ fs h = ground arith

redeemed-Other :
    (k : String) (w : Write) (r : Result StoreError (Unit {0})) → Other k w → redeemed k w r ≡ 0
redeemed-Other k (tenant t) r h = refl
redeemed-Other k (consume now j) (ok x) h = ground arith
redeemed-Other k (consume now j) (err x) h = refl
redeemed-Other k _ r h = refl

spend-Other :
    (k : String) (n : ℕ) (w : Write) (fs : FileStore) → Other k w → HasRoom k n fs → Spends k n w fs
spend-Other k n w fs o h = (
  n,
  HasRoom-same k n fs (call w fs).1 (Other-token k w fs o) (disk-call w fs) h,
  omega (arith, redeemed-Other k w (call w fs).0 o),
)

spend :
    (k : String) (n : ℕ) (w : Write) (fs : FileStore)
    → Keeps k (does w)
    → HasRoom k n fs
    → Spends k n w fs
spend k n (consume now j) fs u h = elim (Bool-cases (j =s= k)) [
  | inl e ↦
      subst (λ i. Spends k n (consume now i) fs) (sym ((eq_iff j k).0 e))
        (consume_self k n now fs h)
  | inr e ↦ spend-Other k n (consume now j) fs e h
]
spend k n (token t) fs u h = spend-Other k n (token t) fs u h
spend k n (tenant t) fs u h = spend-Other k n (tenant t) fs tt h
spend k n (machine m) fs u h = spend-Other k n (machine m) fs tt h
spend k n (drop_machine id) fs u h = spend-Other k n (drop_machine id) fs tt h
spend k n (heartbeat id t inv) fs u h = spend-Other k n (heartbeat id t inv) fs tt h
spend k n (status id t st) fs u h = spend-Other k n (status id t st) fs tt h
spend k n (artifact a) fs u h = spend-Other k n (artifact a) fs tt h
spend k n (drop_artifact a v) fs u h = spend-Other k n (drop_artifact a v) fs tt h
spend k n (group g) fs u h = spend-Other k n (group g) fs tt h
spend k n (drop_group g) fs u h = spend-Other k n (drop_group g) fs tt h
spend k n (member g m) fs u h = spend-Other k n (member g m) fs tt h
spend k n (drop_member g m) fs u h = spend-Other k n (drop_member g m) fs tt h

HasRoom-restart : (k : String) (n : ℕ) (fs : FileStore) → HasRoom k n fs → HasRoom k n (restart fs)
unfolding restart get
HasRoom-restart k n fs h = elim (Option-cases fs.disk) [
  | inl e ↦ record { in_memory = λ t p. ground arith; in_file = h.in_file }
  | inr (d, e) ↦ record { in_memory = λ t p. h.in_file d t e (ground arith); in_file = h.in_file }
]

-- A token enrolls at most as many machines as it has uses left, whatever calls the store gets in
-- between that do not save this token again, whichever writes of the file fail, and however often the process crashes and restarts.
pub redemptions-le :
    (k : String) (n : ℕ) (es : List Event) (fs : FileStore)
    → All (Keeps k) es
    → HasRoom k n fs
    → redemptions k es fs ≤ n
unfolding redemptions
redemptions-le k n [] fs a h = omega arith
redemptions-le k n (does w ∷ es) fs a h =
    let (m, room, spent) = spend k n w fs a.0 h in
    omega (arith, spent, redemptions-le k m es (call w fs).1 a.1 room)
redemptions-le k n (crash ∷ es) fs a h =
    redemptions-le k n es (restart fs) a.1 (HasRoom-restart k n fs h)

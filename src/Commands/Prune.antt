-- ===== src/Commands/Prune.antt =====
-- internal/server/commands.go: which commands pruning keeps.
use fleet_core.Prelude.{
  ℕ, zero, suc, ◌+◌, ◌≤◌, String, ◌≡◌, refl, sym, ap, ◌∙◌, subst, inl, inr, Bool, true, false, not,
  List, [], ◌∷◌, map, arith, leb, if◌then◌else◌, Bool-cases, length, take, drop, keep_if,
  length-append, take-append-drop, length-take, length-keep_if-le, All, ◌=s=◌, eq_iff, eq_refl,
}
use fleet_core.Prelude.Filters.{
  keep_if-append, keep_if-swap, length-keep_if-perm, keep_if-none, All-perm, All-of_keep_if,
  All-keep_if, All-map_lem, All-intro, keep_if-all, keep_if-absorb, All-append, All-drop,
}
use fleet_core.Sort.{sort_slice}
use fleet_core.Sort.Laws.{StrictWeak, Sorted, sort_slice-perm, sort_slice-Sorted, All-sort}
use fleet_core.Api.{ModuleSpec}
use fleet_core.Commands.{
  is_command, command_created_at, default_command_history, newer, commands_of, is_listed,
  dropped_names, prune_to, prune_commands,
}

-- The cap that `pruneCommands` uses for a limit.
unfoldable pub cap : ℕ → ℕ
cap limit = if leb limit 0 then default_command_history else limit

prune_commands_lem :
    (specs : List ModuleSpec) (limit : ℕ) → prune_commands specs limit ≡ prune_to specs (cap limit)
unfolding prune_commands cap
prune_commands_lem specs limit = ground arith

-- The sorted commands in front of those that go stand no lower than these.
take-above :
    (n : ℕ) (xs : List ModuleSpec)
    → Sorted newer xs
    → All (λ c. All (λ d. newer d c ≡ false) (drop n xs)) (take n xs)
take-above zero xs h = tt
take-above (suc n) [] h = tt
take-above (suc n) (x ∷ xs) h = (All-drop (λ d. newer d x ≡ false) n xs h.0, take-above n xs h.1)

newer-StrictWeak : StrictWeak newer
unfolding newer
newer-StrictWeak = record { asym = λ a b h. ground arith; neg_trans = λ a b c h k. ground arith }

listed_self :
    (xs : List ModuleSpec)
    → All (λ (d : ModuleSpec). is_listed d.name (map (λ sp. sp.name) xs) ≡ true) xs
unfolding is_listed
listed_self [] = tt
listed_self (x ∷ xs) =
    (ground (arith, eq_refl x.name), All-map_lem xs (λ d h. ground arith) (listed_self xs))

All-names {κ} :
    (P : String → Type κ) (xs : List ModuleSpec)
    → All (λ (d : ModuleSpec). P d.name) xs
    → All P (map (λ (sp : ModuleSpec). sp.name) xs)
All-names P [] h = tt
All-names P (x ∷ xs) h = (h.0, All-names P xs h.1)

commands_of-commands :
    (specs : List ModuleSpec) → All (λ c. is_command c.name ≡ true) (commands_of specs)
unfolding commands_of
commands_of-commands specs =
    All-keep_if _ (λ sp. is_command sp.name) specs (All-intro specs (λ c i. i))

not_listed-empty : (sp : ModuleSpec) → not (is_listed sp.name []) ≡ true
unfolding is_listed
not_listed-empty sp = refl

listed-All :
    (p : String → Bool) (n : String) (ds : List String)
    → is_listed n ds ≡ true
    → All (λ d. p d ≡ true) ds
    → p n ≡ true
unfolding is_listed
listed-All p n [] h k = absurd (cc h)
listed-All p n (d ∷ ds) h k = elim (Bool-cases (d =s= n)) [
  | inl e ↦ subst (λ i. p i ≡ true) ((eq_iff d n).0 e) k.0
  | inr e ↦ listed-All p n ds (rw e at h) k.1
]

module _ (specs : List ModuleSpec) (limit : ℕ) where
  abbrev sorted : List ModuleSpec
  sorted = sort_slice newer (commands_of specs)

  abbrev is_kept : ModuleSpec → Bool
  is_kept sp = not (is_listed sp.name (dropped_names specs limit))

  drop-listed : All (λ d. is_kept d ≡ false) (drop limit sorted)
  unfolding dropped_names
  drop-listed = All-map_lem (drop limit sorted) (λ d h. rw h refl) (listed_self (drop limit sorted))

  length-keep_if-take : length (keep_if is_kept (take limit sorted)) ≤ limit
  length-keep_if-take =
      omega (arith, length-keep_if-le is_kept (take limit sorted), length-take limit sorted)

  kept_commands : length (commands_of (keep_if is_kept specs)) ≤ limit
  unfolding commands_of
  kept_commands =
      subst (λ n. n ≤ limit)
        (sym (
          ap length (keep_if-swap (λ sp. is_command sp.name) is_kept specs)
          ∙ sym (length-keep_if-perm is_kept (sort_slice-perm newer (commands_of specs)))
          ∙ ap (λ xs. length (keep_if is_kept xs)) (sym (take-append-drop limit sorted))
          ∙ ap length (keep_if-append is_kept (take limit sorted) (drop limit sorted))
          ∙ length-append (keep_if is_kept (take limit sorted))
              (keep_if is_kept (drop limit sorted))
          ∙ ap (λ xs. length (keep_if is_kept (take limit sorted)) + length xs)
              (keep_if-none is_kept (drop limit sorted) drop-listed)
          ∙ omega arith))
        length-keep_if-take

  prune_to_bound : length (commands_of (prune_to specs limit).0) ≤ limit
  unfolding prune_to
  prune_to_bound = ground (arith, kept_commands)

  -- The commands that stay are no older than those in the dropped part of the sorted list.
  kept_above : All (λ c. is_kept c ≡ true → All (λ d. newer d c ≡ false) (drop limit sorted)) sorted
  kept_above =
      subst (All (λ c. is_kept c ≡ true → All (λ d. newer d c ≡ false) (drop limit sorted)))
        (take-append-drop limit sorted)
        (All-append _ (take limit sorted) (drop limit sorted)
          (All-map_lem (take limit sorted) (λ c h k. h)
            (take-above limit sorted
              (sort_slice-Sorted newer newer-StrictWeak (commands_of specs))))
          (All-map_lem (drop limit sorted) (λ c h k. absurd (cc (h, k))) drop-listed))

  created_le :
      (c : ModuleSpec) (ds : List ModuleSpec)
      → All (λ d. newer d c ≡ false) ds
      → All (λ n. command_created_at n ≤ command_created_at c.name) (map (λ sp. sp.name) ds)
  unfolding newer
  created_le c [] h = tt
  created_le c (d ∷ ds) h = (ground arith, created_le c ds h.1)

  kept_newest :
      All
        (λ c.
          is_command c.name ≡ true
          → All (λ n. command_created_at n ≤ command_created_at c.name) (dropped_names specs limit))
        (keep_if is_kept specs)
  unfolding commands_of dropped_names
  kept_newest = All-keep_if _ is_kept specs (
      All-map_lem specs (λ c h k i. created_le c (drop limit sorted) (h i k))
        (All-of_keep_if _ (λ sp. is_command sp.name) specs
          (All-perm _ (sort_slice-perm newer (commands_of specs)) kept_above)))

  prune_to_newest :
      All
        (λ c.
          is_command c.name ≡ true
          → All (λ n. command_created_at n ≤ command_created_at c.name) (prune_to specs limit).1)
        (prune_to specs limit).0
  unfolding prune_to
  prune_to_newest = elim (Bool-cases (leb (length (commands_of specs)) limit)) [
    | inl e ↦ rw e (All-intro specs (λ c i. tt))
    | inr e ↦ rw e kept_newest
  ]

  dropped-commands : All (λ n. is_command n ≡ true) (dropped_names specs limit)
  unfolding dropped_names
  dropped-commands =
      All-names (λ n. is_command n ≡ true) (drop limit sorted)
        (All-drop _ limit sorted
          (All-sort newer _ (commands_of specs) (commands_of-commands specs)))

  kept_of_other : (sp : ModuleSpec) → not (is_command sp.name) ≡ true → is_kept sp ≡ true
  kept_of_other sp h = elim (Bool-cases (is_listed sp.name (dropped_names specs limit))) [
    | inl e ↦
        absurd
          (cc (h, listed-All is_command sp.name (dropped_names specs limit) e dropped-commands))
    | inr e ↦ rw e refl
  ]

  prune_to_rest :
      ((prune_to specs limit).0
        ≡ keep_if (λ sp. not (is_listed sp.name (prune_to specs limit).1)) specs)
      × (keep_if (λ sp. not (is_command sp.name)) (prune_to specs limit).0
          ≡ keep_if (λ sp. not (is_command sp.name)) specs)
  unfolding prune_to
  prune_to_rest = elim (Bool-cases (leb (length (commands_of specs)) limit)) [
    | inl e ↦ rw e (sym (keep_if-all _ specs not_listed-empty), refl)
    | inr e ↦ rw e (refl, keep_if-absorb _ is_kept specs kept_of_other)
  ]

-- After pruning, at most as many commands are left as the cap allows.
pub prune_commands_bound :
    (specs : List ModuleSpec) (limit : ℕ)
    → length (commands_of (prune_commands specs limit).0) ≤ cap limit
prune_commands_bound specs limit =
    rw (prune_commands_lem specs limit) (prune_to_bound specs (cap limit))

-- The commands that pruning leaves are at least as new as each of the dropped names.
pub prune_commands_newest :
    (specs : List ModuleSpec) (limit : ℕ)
    → All
        (λ c.
          is_command c.name ≡ true
          → All
              (λ n. command_created_at n ≤ command_created_at c.name)
              (prune_commands specs limit).1)
        (prune_commands specs limit).0
prune_commands_newest specs limit =
    rw (prune_commands_lem specs limit) (prune_to_newest specs (cap limit))

-- Pruning removes exactly the specs whose names it reports as dropped, and no module that is not a
-- command: those stay, in their order.
pub prune_commands_rest :
    (specs : List ModuleSpec) (limit : ℕ)
    → ((prune_commands specs limit).0
        ≡ keep_if (λ sp. not (is_listed sp.name (prune_commands specs limit).1)) specs)
      × (keep_if (λ sp. not (is_command sp.name)) (prune_commands specs limit).0
          ≡ keep_if (λ sp. not (is_command sp.name)) specs)
prune_commands_rest specs limit =
    rw (prune_commands_lem specs limit) (prune_to_rest specs (cap limit))

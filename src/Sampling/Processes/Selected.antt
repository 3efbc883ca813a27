-- ===== src/Sampling/Processes/Selected.antt =====
-- internal/agent/procsample.go: what `selectProcesses` reports.
use fleet_core.Prelude.{
  ltb, sym, if◌then◌else◌, ℕ, zero, suc, ◌≤◌, ◌≡◌, refl, ap, ◌∙◌, subst, ◌⊎◌, inl, inr, Bool, true,
  false, not, ◌||◌, List, [], ◌∷◌, ◌++◌, arith, ◌==◌, Bool-cases, length, take, drop, keep_if, any,
  take-append-drop, All, ◌=s=◌,
}
use mathlib.Core.List.{Permᴰ}
use mathlib.Core.List.Permᴰ.{middle, symm}
use fleet_core.Prelude.Int.{ℤ}
use fleet_core.Prelude.Float.{Float}
use fleet_core.Prelude.Filters.{
  All-both, All-append, All-map_lem, All-intro, All-perm, All-drop, All-keep_if,
}
use fleet_core.Sort.{sort_slice}
use fleet_core.Sort.Laws.{sort_slice-cong, StrictWeak, Sorted, sort_slice-Sorted, sort_slice-perm}
use fleet_core.Api.{ProcSample}
use fleet_core.Sampling.Processes.{
  by_cpu, by_mem, kept, pids, keep_services, top_limit, select_processes,
}

module _ {ℓ} {A : Type ℓ} where
  keep_if-split :
      (p : A → Bool) (xs : List A) → Permᴰ (keep_if p xs ++ keep_if (λ x. not (p x)) xs) xs
  keep_if-split p [] = Permᴰ.nil
  keep_if-split p (x ∷ xs) = elim (Bool-cases (p x)) [
    | inl e ↦ rw e (Permᴰ.cons refl (keep_if-split p xs))
    | inr e ↦ rw e (
        Permᴰ.trans (middle x (keep_if p xs) (keep_if (λ y. not (p y)) xs))
          (Permᴰ.cons refl (keep_if-split p xs)))
  ]

  All-take {κ} : (P : A → Type κ) (n : ℕ) (xs : List A) → All P xs → All P (take n xs)
  All-take P zero xs h = tt
  All-take P (suc n) [] h = tt
  All-take P (suc n) (x ∷ xs) h = (h.0, All-take P n xs h.1)

  All-take-drop {κ} :
      (P : A → Type κ) (n : ℕ) (xs : List A) → All P (take n xs) → All P (drop n xs) → All P xs
  All-take-drop P n xs h k =
      subst (All P) (take-append-drop n xs) (All-append P (take n xs) (drop n xs) h k)

  Sorted-keep_if :
      (less : A → A → Bool) (p : A → Bool) (xs : List A)
      → Sorted less xs
      → Sorted less (keep_if p xs)
  Sorted-keep_if less p [] h = tt
  Sorted-keep_if less p (x ∷ xs) h = elim (Bool-cases (p x)) [
    | inl e ↦ rw e (
      All-keep_if (λ y. less y x ≡ false) p xs (All-map_lem xs (λ y q k. q) h.0),
      Sorted-keep_if less p xs h.1,
    )
    | inr e ↦ rw e (Sorted-keep_if less p xs h.1)
  ]

  All-map_twice :
      {B : Type ℓ} {P Q : A → B → Type ℓ} (xs : List A) (ys : List B)
      → ((x : A) (y : B) → P x y → Q x y)
      → All (λ x. All (P x) ys) xs
      → All (λ x. All (Q x) ys) xs
  All-map_twice xs ys f h = All-map_lem xs (λ x e. All-map_lem ys (f x) e) h

  -- What stands behind the first n of a sorted list: there are n in front, and it is less than none.
  behind_top :
      (less : A → A → Bool) (n : ℕ) (xs : List A)
      → Sorted less xs
      → All (λ p. (length (take n xs) ≡ n) × All (λ q. less p q ≡ false) (take n xs)) (drop n xs)
  behind_top less zero xs h = All-intro xs (λ p. (refl, tt))
  behind_top less (suc n) [] h = tt
  behind_top less (suc n) (x ∷ xs) h =
      All-map_lem (drop n xs) (λ p e. (ap suc e.0.0, (e.1, e.0.1)))
        (All-both _ _ (drop n xs) (behind_top less n xs h.1)
          (All-drop (λ p. less p x ≡ false) n xs h.0))

pid_eq_refl : (n : ℕ) → (n == n) ≡ true
pid_eq_refl n = ground arith

kept-append : (k : ℕ) (xs ys : List ℕ) → kept k (xs ++ ys) ≡ (kept k xs || kept k ys)
kept-append k [] ys = refl
kept-append k (x ∷ xs) ys = ground (arith, kept-append k xs ys)

module _ {F : Type 0} where
  -- The list has a sample of the process.
  abbrev pub Lists : List (ProcSample F) → ProcSample F → Type 0
  Lists out p = any (λ q. q.pid == p.pid) out ≡ true

  Lists-more :
      (k : ProcSample F → Bool) (x : ProcSample F) (xs : List (ProcSample F)) (p : ProcSample F)
      → Lists (keep_if k xs) p
      → Lists (keep_if k (x ∷ xs)) p
  Lists-more k x xs p h = elim (Bool-cases (k x)) [
    | inl e ↦ rw e (ground (arith, h))
    | inr e ↦ rw e h
  ]

  keep_if-Lists :
      (k : ProcSample F → Bool) (xs : List (ProcSample F))
      → All (λ p. k p ≡ true → Lists (keep_if k xs) p) xs
  keep_if-Lists k [] = tt
  keep_if-Lists k (x ∷ xs) = (
    λ h. rw h (rw (pid_eq_refl x.pid) refl),
    All-map_lem xs (λ p g h. Lists-more k x xs p (g h)) (keep_if-Lists k xs),
  )

  kept-pids : (xs : List (ProcSample F)) → All (λ p. kept p.pid (pids xs) ≡ true) xs
  kept-pids [] = tt
  kept-pids (x ∷ xs) =
      (rw (pid_eq_refl x.pid) refl, All-map_lem xs (λ p e. ground (arith, e)) (kept-pids xs))

  keep_services-stays :
      (ps : List (ProcSample F)) (keep : List ℕ) (k : ℕ)
      → kept k keep ≡ true
      → kept k (keep_services ps keep) ≡ true
  unfolding keep_services
  keep_services-stays [] keep k h = h
  keep_services-stays (p ∷ ps) keep k h = keep_services-stays ps _ k (ground (arith, h))

  kept-services :
      (ps : List (ProcSample F)) (keep : List ℕ)
      → All (λ p. (p.service =s= "") ≡ false → kept p.pid (keep_services ps keep) ≡ true) ps
  unfolding keep_services
  kept-services [] keep = tt
  kept-services (p ∷ ps) keep =
      (λ e. keep_services-stays ps _ p.pid (rw e (rw (pid_eq_refl p.pid) refl)), kept-services ps _)

  in_keep :
      (all : List (ProcSample F)) (xs ys : List ℕ) (k : ℕ)
      → kept k xs ≡ true
      → kept k (keep_services all (xs ++ ys)) ≡ true
  in_keep all xs ys k h = keep_services-stays all (xs ++ ys) k (kept-append k xs ys ∙ rw h refl)

  not_below : (p q : ProcSample F) → by_mem p q ≡ false → p.mem_bytes ≤ q.mem_bytes
  unfolding by_mem
  not_below p q e = ground (arith, e)

  by_mem-StrictWeak : StrictWeak (by_mem {F = F})
  unfolding by_mem
  by_mem-StrictWeak = record { asym = λ a b. ground arith; neg_trans = λ a b c. ground arith }

  in_keep_right :
      (all : List (ProcSample F)) (xs ys : List ℕ) (k : ℕ)
      → kept k ys ≡ true
      → kept k (keep_services all (xs ++ ys)) ≡ true
  in_keep_right all xs ys k h =
      keep_services-stays all (xs ++ ys) k (kept-append k xs ys ∙ rw h (ground arith))

  -- The report has the process; or there are n others, each of which it has and none of which the process
  -- outdoes.
  abbrev pub IsAccounted :
      (ProcSample F → ProcSample F → Type 0)
      → ℕ
      → List (ProcSample F)
      → List (ProcSample F)
      → ProcSample F
      → Type 0
  IsAccounted Outdone n all out p =
      Lists out p
      ⊎ ((top : List (ProcSample F)) × (rest : List (ProcSample F)) × Permᴰ (top ++ rest) all
          × (length top ≡ n)
          × All (λ q. Outdone p q × Lists out q) top)

  top-IsAccounted :
      (less : ProcSample F → ProcSample F → Bool) (Outdone : ProcSample F → ProcSample F → Type 0)
      (n : ℕ) (all out sorted : List (ProcSample F))
      → ((p q : ProcSample F) → less p q ≡ false → Outdone p q)
      → Sorted less sorted
      → Permᴰ sorted all
      → All (Lists out) (take n sorted)
      → All (IsAccounted Outdone n all out) all
  top-IsAccounted less Outdone n all out sorted outdone s same listed =
      let split = subst (λ xs. Permᴰ xs all) (sym (take-append-drop n sorted)) same in
      All-perm _ same (
        All-take-drop _ n sorted (All-map_lem (take n sorted) (λ p e. inl e) listed) (
          All-map_lem (drop n sorted)
            (λ p e. inr (
              take n sorted,
              drop n sorted,
              split,
              e.0,
              All-map_lem (take n sorted) (λ q g. (outdone p q g.0, g.1))
                  (All-both _ _ (take n sorted) e.1 listed),
            ))
            (behind_top less n sorted s)))

  module _ (f : Float F) (level : F → ℕ) where
    -- The CPU values of the samples compare as their levels do: they are numbers, with no NaN among them.
    abbrev pub CompareAsLevels : List (ProcSample F) → Type 0
    CompareAsLevels all =
        All
          (λ a.
            All
              (λ b.
                (f.lt b.cpu_percent a.cpu_percent ≡ ltb (level b.cpu_percent) (level a.cpu_percent))
                × (f.eq a.cpu_percent b.cpu_percent ≡ (level a.cpu_percent == level b.cpu_percent)))
              all)
          all

    -- q takes at least as much CPU as p, and where it takes as much, at least as much memory.
    abbrev pub NotAbove : ProcSample F → ProcSample F → Type 0
    NotAbove p q =
        (level p.cpu_percent ≤ level q.cpu_percent)
        × (level p.cpu_percent ≡ level q.cpu_percent → p.mem_bytes ≤ q.mem_bytes)

    -- None of the list stands behind one that is below it.
    abbrev pub FallsByCpu : List (ProcSample F) → Type 0
    FallsByCpu [] = Unit
    FallsByCpu (q ∷ ps) = All (λ p. NotAbove p q) ps × FallsByCpu ps

    unfoldable by_level : ProcSample F → ProcSample F → Bool
    by_level a b =
        if level a.cpu_percent == level b.cpu_percent
        then ltb b.mem_bytes a.mem_bytes
        else ltb (level b.cpu_percent) (level a.cpu_percent)

    by_level-StrictWeak : StrictWeak by_level
    unfolding by_level
    by_level-StrictWeak = record { asym = λ a b. ground arith; neg_trans = λ a b c. ground arith }

    by_level-NotAbove : (p q : ProcSample F) → by_level p q ≡ false → NotAbove p q
    unfolding by_level
    by_level-NotAbove p q e = (ground (arith, e), λ k. ground (arith, e, k))

    Sorted-FallsByCpu : (ps : List (ProcSample F)) → Sorted by_level ps → FallsByCpu ps
    Sorted-FallsByCpu [] h = tt
    Sorted-FallsByCpu (q ∷ ps) h =
        (All-map_lem ps (λ p e. by_level-NotAbove p q e) h.0, Sorted-FallsByCpu ps h.1)

    by_cpu-level :
        (all : List (ProcSample F))
        → CompareAsLevels all
        → All (λ a. All (λ b. by_cpu f a b ≡ by_level a b) all) all
    unfolding by_cpu by_level
    by_cpu-level all h = All-map_twice all all (λ a b e. ground (arith, e.0, e.1)) h

    by_cpu-Sorted :
        (all : List (ProcSample F))
        → CompareAsLevels all
        → Sorted by_level (sort_slice (by_cpu f) all)
    by_cpu-Sorted all h =
        subst (Sorted by_level) (sym (sort_slice-cong (by_cpu f) by_level all (by_cpu-level all h)))
          (sort_slice-Sorted by_level by_level-StrictWeak all)

  -- The report has only samples of the interval, each at most once, from the most CPU to the least and,
  -- of those with as much CPU, from the most memory to the least. It has every process of known server
  -- software. A process that it lacks has no more memory than any of n others, which it has, and stands
  -- below n others by CPU, which it has.
  pub select_processes_lem :
      (f : Float F) (level : F → ℕ) (all : List (ProcSample F)) (n : ℤ)
      → CompareAsLevels f level all
      → let out = select_processes f all n in
        ((rest : List (ProcSample F)) × Permᴰ (out ++ rest) all)
        × FallsByCpu f level out
        × All (λ p. (p.service =s= "") ≡ false → Lists out p) all
        × All (IsAccounted (λ p q. p.mem_bytes ≤ q.mem_bytes) (top_limit n) all out) all
        × All (IsAccounted (NotAbove f level) (top_limit n) all out) all
  unfolding select_processes
  select_processes_lem f level all n w =
      let sorted = sort_slice (by_cpu f) all in
      let by_memory = sort_slice by_mem all in
      let top = take (top_limit n) by_memory in
      let top_cpu = take (top_limit n) sorted in
      let keep = keep_services all (pids top ++ pids top_cpu) in
      let k : ProcSample F → Bool = λ p. kept p.pid keep in
      let out = keep_if k sorted in
      let same : Permᴰ sorted all = sort_slice-perm (by_cpu f) all in
      let same_mem : Permᴰ by_memory all = sort_slice-perm by_mem all in
      let falls = by_cpu-Sorted f level all w in
      let listed : All (λ p. k p ≡ true → Lists out p) sorted = keep_if-Lists k sorted in
      let listed_all = All-perm _ same listed in
      let listed_by_mem = All-perm _ (symm same_mem) listed_all in
      (
        (keep_if (λ p. not (k p)) sorted, Permᴰ.trans (keep_if-split k sorted) same),
        Sorted-FallsByCpu f level out (Sorted-keep_if (by_level f level) k sorted falls),
        All-map_lem all (λ p e h. e.0 (e.1 h)) (All-both _ _ all listed_all (kept-services all _)),
        top-IsAccounted by_mem _ (top_limit n) all out by_memory not_below
            (sort_slice-Sorted by_mem by_mem-StrictWeak all) same_mem
            (All-map_lem top (λ q e. e.0 e.1)
              (All-both _ _ top (All-take _ (top_limit n) by_memory listed_by_mem)
                (All-map_lem top (λ q e. in_keep all (pids top) _ q.pid e) (kept-pids top)))),
        top-IsAccounted (by_level f level) _ (top_limit n) all out sorted
            (by_level-NotAbove f level) falls same
            (All-map_lem top_cpu (λ q e. e.0 e.1)
              (All-both _ _ top_cpu (All-take _ (top_limit n) sorted listed) (
                All-map_lem top_cpu (λ q e. in_keep_right all (pids top) _ q.pid e)
                  (kept-pids top_cpu)))),
      )

-- ===== src/Sinks/Balancer/Failover.antt =====
-- `FailoverBalancer::select` chooses by health first and priority second.
use mathlib.Core.List.{Mem, mem-cons_self, mem-cons_of_mem}
use ipb.Base.{
  ◌≤◌, ◌≡◌, refl, ◌⊎◌, inl, inr, Bool, true, false, List, [], ◌∷◌, Option, none, some, leb, All,
  Bool-cases, arith,
}
use ipb.Sinks.Info.{SinkInfo, is_available}
use ipb.Sinks.Balancer.{
  insert_by_priority, sort_by_priority, first_available, first_enabled, failover_choice, or_else,
}

module _ (P : SinkInfo → Type 0) where
  All-insert : (s : SinkInfo) (l : List SinkInfo) → P s → All P l → All P (insert_by_priority s l)
  unfolding insert_by_priority
  All-insert s [] p h = (p, tt)
  All-insert s (t ∷ l) p h = elim (Bool-cases (leb s.priority t.priority)) [
    | inl e ↦ rw e (p, h)
    | inr e ↦ rw e (h.0, All-insert s l p h.1)
  ]

  All-of_insert :
      (s : SinkInfo) (l : List SinkInfo) → All P (insert_by_priority s l) → P s × All P l
  unfolding insert_by_priority
  All-of_insert s [] h = h
  All-of_insert s (t ∷ l) h = elim (Bool-cases (leb s.priority t.priority)) [
    | inl e ↦ let g : All P (s ∷ t ∷ l) = rw e at h in g
    | inr e ↦
        let g : All P (t ∷ insert_by_priority s l) = rw e at h in
        let r = All-of_insert s l g.1 in (r.0, (g.0, r.1))
  ]

  All-sort : (l : List SinkInfo) → All P l → All P (sort_by_priority l)
  unfolding sort_by_priority
  All-sort [] h = tt
  All-sort (s ∷ l) h = All-insert s (sort_by_priority l) h.0 (All-sort l h.1)

  All-of_sort : (l : List SinkInfo) → All P (sort_by_priority l) → All P l
  unfolding sort_by_priority
  All-of_sort [] h = tt
  All-of_sort (s ∷ l) h = let r = All-of_insert s (sort_by_priority l) h in (r.0, All-of_sort l r.1)

All-mono :
    {P Q : SinkInfo → Type 0} (l : List SinkInfo) → ((t : SinkInfo) → P t → Q t) → All P l → All Q l
All-mono [] f h = tt
All-mono (s ∷ l) f h = (f s h.0, All-mono l f h.1)

abbrev NotBefore : SinkInfo → SinkInfo → Type 0
NotBefore s t = s.priority ≤ t.priority

abbrev IsSorted : List SinkInfo → Type 0
IsSorted [] = Unit
IsSorted (s ∷ l) = All (NotBefore s) l × IsSorted l

insert-IsSorted :
    (s : SinkInfo) (l : List SinkInfo) → IsSorted l → IsSorted (insert_by_priority s l)
unfolding insert_by_priority
insert-IsSorted s [] h = (tt, tt)
insert-IsSorted s (t ∷ l) h = elim (Bool-cases (leb s.priority t.priority)) [
  | inl e ↦
      let le : s.priority ≤ t.priority = ground arith in
      rw e ((le, All-mono l (λ u k. omega arith) h.0), h)
  | inr e ↦
      let le : t.priority ≤ s.priority = ground arith in
      rw e (All-insert (NotBefore t) s l le h.0, insert-IsSorted s l h.1)
]

sort-IsSorted : (l : List SinkInfo) → IsSorted (sort_by_priority l)
unfolding sort_by_priority
sort-IsSorted [] = tt
sort-IsSorted (s ∷ l) = insert-IsSorted s (sort_by_priority l) (sort-IsSorted l)

-- What a search for the first sink that passes `test` finds in a sorted list.
abbrev pub Best : (SinkInfo → Bool) → List SinkInfo → Option SinkInfo → Type 0
Best test l none = All (λ t. test t ≡ false) l
Best test l (some s) = (test s ≡ true) × All (λ t. test t ≡ true → s.priority ≤ t.priority) l

Best-cons_false :
    (test : SinkInfo → Bool) (s : SinkInfo) (l : List SinkInfo) (o : Option SinkInfo)
    → test s ≡ false
    → Best test l o
    → Best test (s ∷ l) o
Best-cons_false test s l none e b = (e, b)
Best-cons_false test s l (some t) e b = (b.0, (λ p. cc, b.1))

first_available-Best : (l : List SinkInfo) → IsSorted l → Best is_available l (first_available l)
unfolding first_available
first_available-Best [] h = tt
first_available-Best (s ∷ l) h = elim (Bool-cases (is_available s)) [
  | inl e ↦ rw e (e, ((λ p. omega arith), All-mono l (λ t k p. k) h.0))
  | inr e ↦
      rw e (Best-cons_false is_available s l (first_available l) e (first_available-Best l h.1))
]

first_enabled-Best : (l : List SinkInfo) → IsSorted l → Best (λ s. s.enabled) l (first_enabled l)
unfolding first_enabled
first_enabled-Best [] h = tt
first_enabled-Best (s ∷ l) h = elim (Bool-cases s.enabled) [
  | inl e ↦ simp e (refl, ((λ p. omega arith), All-mono l (λ t k p. k) h.0))
  | inr e ↦
      simp e (Best-cons_false (λ s. s.enabled) s l (first_enabled l) e (first_enabled-Best l h.1))
]

Best-of_sort :
    (test : SinkInfo → Bool) (c : List SinkInfo) (o : Option SinkInfo)
    → Best test (sort_by_priority c) o
    → Best test c o
Best-of_sort test c none b = All-of_sort (λ t. test t ≡ false) c b
Best-of_sort test c (some s) b =
    (b.0, All-of_sort (λ t. test t ≡ true → s.priority ≤ t.priority) c b.1)

-- The specification: the best available sink; without any, the best enabled one; without any, none.
abbrev pub IsChoice : List SinkInfo → Option SinkInfo → Type 0
IsChoice c none = All (λ t. t.enabled ≡ false) c
IsChoice c (some s) =
    Mem s c
    × (Best is_available c (some s) ⊎ (Best is_available c none × Best (λ t. t.enabled) c (some s)))

mem-All : (c : List SinkInfo) → All (λ t. Mem t c) c
mem-All [] = tt
mem-All (s ∷ c) = (mem-cons_self, All-mono c (λ t m. mem-cons_of_mem s m) (mem-All c))

abbrev Holds : (SinkInfo → Type 0) → Option SinkInfo → Type 0
Holds P none = Unit
Holds P (some s) = P s

module _ (P : SinkInfo → Type 0) where
  first_available-Holds : (l : List SinkInfo) → All P l → Holds P (first_available l)
  unfolding first_available
  first_available-Holds [] h = tt
  first_available-Holds (s ∷ l) h = elim (Bool-cases (is_available s)) [
    | inl e ↦ rw e h.0
    | inr e ↦ rw e (first_available-Holds l h.1)
  ]

  first_enabled-Holds : (l : List SinkInfo) → All P l → Holds P (first_enabled l)
  unfolding first_enabled
  first_enabled-Holds [] h = tt
  first_enabled-Holds (s ∷ l) h = elim (Bool-cases s.enabled) [
    | inl e ↦ simp e h.0
    | inr e ↦ simp e (first_enabled-Holds l h.1)
  ]

choose :
    (c : List SinkInfo) (a b : Option SinkInfo)
    → Best is_available c a
    → Best (λ s. s.enabled) c b
    → Holds (λ s. Mem s c) a
    → Holds (λ s. Mem s c) b
    → IsChoice c (or_else a b)
choose c (some s) b ba bb ma mb = (ma, inl ba)
choose c none (some s) ba bb ma mb = (mb, inr (ba, bb))
choose c none none ba bb ma mb = bb

-- Failover returns a candidate: an available one of least priority number if any is available, else
-- an enabled one of least priority number. It returns nothing only if no candidate is enabled.
pub failover_choice-IsChoice : (c : List SinkInfo) → IsChoice c (failover_choice c)
unfolding failover_choice
failover_choice-IsChoice c =
    let sorted = sort_by_priority c in
    let order = sort-IsSorted c in
    let members = All-sort (λ t. Mem t c) c (mem-All c) in
    choose c (first_available sorted) (first_enabled sorted)
      (Best-of_sort is_available c _ (first_available-Best sorted order))
      (Best-of_sort (λ s. s.enabled) c _ (first_enabled-Best sorted order))
      (first_available-Holds (λ t. Mem t c) sorted members)
      (first_enabled-Holds (λ t. Mem t c) sorted members)

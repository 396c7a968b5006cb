-- ===== src/Security/Authorization/Roles.antt =====
-- The walk over the role hierarchy (`Role::has_permission` of authorization.hpp), cycles included: it ends
-- within as many nested calls as there are roles, and finds a permission exactly if one can be reached.
use Prim.Native.String.{String}
use text.Mathlib.Text.{◌==◌ as str_eq}
use text.Mathlib.TextEquality.{eq_iff}
use mathlib.Core.Bool.{false≢true}
use mathlib.Core.Option.{some-injective}
use mathlib.Core.Path.{subst}
use ipb.Base.{
  ℕ, zero, suc, ◌+◌, ◌≤◌, ◌<◌, ◌≡◌, ◌↔◌, refl, sym, ap, ◌∙◌, ◌⊎◌, inl, inr, Bool, true, false, List,
  [], ◌∷◌, Option, none, some, if◌then◌else◌, length, arith, Bool-cases, Option-cases,
}
use ipb.Security.Access.{Resource, Action}
use ipb.Security.Authorization.{Role, Roles, find, contains, permits, visit_parents, has_permission}

abbrev pub AnyOf : {A : Type 0} → (A → Type 0) → List A → Type 0
AnyOf P [] = ⊥
AnyOf P (a ∷ rest) = P a ⊎ AnyOf P rest

-- Each role stands under its own name.
abbrev pub Keyed : Roles → Type 0
Keyed [] = Unit
Keyed ((k, r) ∷ roles) = (r.name ≡ k) × Keyed roles

pub find-Keyed :
    (name : String) (roles : Roles) (role : Role)
    → Keyed roles
    → find name roles ≡ some role
    → role.name ≡ name
unfolding find
find-Keyed name [] role k e = cc
find-Keyed name ((key, r) ∷ roles) role k e =
    ground (arith, eq_iff key name, find-Keyed name roles role k.1, k.0)

-- A role that another one is, or inherits from over any number of steps, by names that are registered.
pub data Reaches (roles : Roles) : Role → Role → Type 0 where
  here : {r : Role} → Reaches roles r r
  up :
      {r s t : Role}
      → AnyOf (λ p. find p roles ≡ some s) r.inherits
      → Reaches roles s t
      → Reaches roles r t

-- Some role in reach has itself a permission that allows the action.
abbrev pub Grants : Roles → Resource → Action → Role → Type 0
Grants roles resource action role =
    (s : Role) × Reaches roles role s × (permits resource action s ≡ true)

-- The registered roles that are not yet visited.
abbrev left : Roles → List String → ℕ
left [] visited = 0
left ((k, r) ∷ roles) visited = (if contains k visited then 0 else 1) + left roles visited

abbrev Extends : List String → List String → Type 0
Extends visited after = (name : String) → contains name visited ≡ true → contains name after ≡ true

left-Extends :
    (roles : Roles) (visited after : List String)
    → Extends visited after
    → left roles after ≤ left roles visited
left-Extends [] visited after e = omega arith
left-Extends ((k, r) ∷ roles) visited after e =
    ground (arith, e k, left-Extends roles visited after e)

Extends-cons : (name : String) (visited : List String) → Extends visited (name ∷ visited)
Extends-cons name visited other e = ground (arith, e)

contains_self : (name : String) (visited : List String) → contains name (name ∷ visited) ≡ true
contains_self name visited = ground (arith, eq_iff name name)

left_visit :
    (roles : Roles) (name : String) (role : Role) (visited : List String)
    → find name roles ≡ some role
    → contains name visited ≡ false
    → left roles (name ∷ visited) < left roles visited
unfolding find
left_visit [] name role visited f c = cc
left_visit ((k, r) ∷ roles) name role visited f c =
    let older = left-Extends roles visited (name ∷ visited) (Extends-cons name visited) in
    ground (arith, f, c, older, eq_iff k name, eq_iff name k, left_visit roles name role visited)

left-length : (roles : Roles) → left roles [] ≤ length roles
left-length [] = omega arith
left-length ((k, r) ∷ roles) = omega (arith, left-length roles)

module _ (roles : Roles) where
  -- The parents that are registered are visited.
  abbrev Known : List String → List String → Type 0
  Known after [] = Unit
  Known after (p ∷ parents) =
      ((s : Role) → find p roles ≡ some s → contains p after ≡ true) × Known after parents

  Known-Extends :
      (parents visited after : List String)
      → Extends visited after
      → Known visited parents
      → Known after parents
  Known-Extends [] visited after e k = tt
  Known-Extends (p ∷ parents) visited after e k =
      (λ s f. e p (k.0 s f), Known-Extends parents visited after e k.1)

  -- A role among known parents is visited.
  Known-AnyOf :
      (parents after : List String) (s : Role)
      → Known after parents
      → AnyOf (λ p. find p roles ≡ some s) parents
      → (p : String) × (find p roles ≡ some s) × (contains p after ≡ true)
  Known-AnyOf [] after s k h = absurd h
  Known-AnyOf (p ∷ parents) after s k (inl f) = (p, f, k.0 s f)
  Known-AnyOf (p ∷ parents) after s k (inr h) = Known-AnyOf parents after s k.1 h

-- The loop at one parent.
visit_parents-none :
    (visit : Role → List String → Option (Bool × List String)) (roles : Roles) (p : String)
    (parents visited : List String)
    → find p roles ≡ none
    → visit_parents visit roles (p ∷ parents) visited ≡ visit_parents visit roles parents visited
unfolding visit_parents
visit_parents-none visit roles p parents visited e = rw (e, visit_parents) refl

visit_parents-some :
    (visit : Role → List String → Option (Bool × List String)) (roles : Roles) (p : String)
    (parents visited : List String) (r : Role) (result : Bool × List String)
    → find p roles ≡ some r
    → visit r visited ≡ some result
    → let rest = visit_parents visit roles parents result.1 in
      visit_parents visit roles (p ∷ parents) visited
      ≡ (if result.0 then some (true, result.1) else rest)
unfolding visit_parents
visit_parents-some visit roles p parents visited r result e f = rw (e, f, visit_parents) refl

module _ (roles : Roles) (resource : Resource) (action : Action) where
  -- The role of this name grants nothing itself, and its parents are visited.
  abbrev IsDone : List String → String → Type 0
  IsDone after name =
      (r : Role)
      → find name roles ≡ some r
      → (permits resource action r ≡ false) × Known roles after r.inherits

  abbrev Closed : List String → List String → Type 0
  Closed visited after =
      (name : String)
      → contains name after ≡ true
      → (contains name visited ≡ true) ⊎ IsDone after name

  -- What a walk answers: that the goal is found; or that it is not, with more names visited.
  abbrev Outcome : Type 0 → (List String → Type 0) → List String → Bool × List String → Type 0
  Outcome Goal Kept visited (true, after) = Goal
  Outcome Goal Kept visited (false, after) =
      Extends visited after × Kept after × Closed visited after

  abbrev Answers :
      Type 0 → (List String → Type 0) → List String → Option (Bool × List String) → Type 0
  Answers Goal Kept visited o =
      (result : Bool × List String) × (o ≡ some result) × Outcome Goal Kept visited result

  Closed-Extends :
      (visited mid after : List String)
      → Extends mid after
      → Closed visited mid
      → Closed mid after
      → Closed visited after
  Closed-Extends visited mid after e c d name h = elim (d name h) [
    | inr done ↦ inr done
    | inl older ↦ elim (c name older) [
      | inl old ↦ inl old
      | inr done ↦
          inr (λ r f. ((done r f).0, Known-Extends roles r.inherits mid after e (done r f).1))
    ]
  ]

  abbrev Visits : ℕ → Type 0
  Visits n =
      (r : Role) (visited : List String)
      → find r.name roles ≡ some r
      → left roles visited < n
      → Answers (Grants roles resource action r) (λ after. contains r.name after ≡ true) visited
          (has_permission n roles resource action r visited)

  abbrev AnyGrants : List String → Type 0
  AnyGrants parents =
      AnyOf (λ p. (s : Role) × (find p roles ≡ some s) × Grants roles resource action s) parents

  module _ (keyed : Keyed roles) where
    parents-Answers :
        (n : ℕ)
        → Visits n
        → (parents visited : List String) → left roles visited < n
        → Answers
            (AnyGrants parents)
            (λ after. Known roles after parents)
            visited
            (visit_parents (has_permission n roles resource action) roles parents visited)
    unfolding visit_parents
    parents-Answers n visits [] visited small =
        ((false, visited), refl, (λ name h. h, tt, λ name h. inl h))
    parents-Answers n visits (p ∷ parents) visited small = elim (Option-cases (find p roles)) [
      | inl e ↦
          let (result, found, outcome) =
            absent e (parents-Answers n visits parents visited small) in
          (
            result,
            visit_parents-none (has_permission n roles resource action) roles p parents visited e
                ∙ found,
            outcome,
          )
      | inr (r, e) ↦
          let named = find-Keyed p roles r keyed e in
          let (result, found, outcome) =
            visits r visited (ap (λ k. find k roles) named ∙ e) small in
          let (result', found', outcome') =
            present r named e (parents-Answers n visits parents) result outcome in
          (
            result',
            visit_parents-some (has_permission n roles resource action) roles p parents visited r
                  result e found
                ∙ found',
            outcome',
          )
    ]
      where
        absent :
            find p roles ≡ none
            → Answers
                (AnyGrants parents)
                (λ after. Known roles after parents)
                visited
                (visit_parents (has_permission n roles resource action) roles parents visited)
            → Answers
                (AnyGrants (p ∷ parents))
                (λ after. Known roles after (p ∷ parents))
                visited
                (visit_parents (has_permission n roles resource action) roles parents visited)
        absent e ((true, after), f, h) = ((true, after), f, inr h)
        absent e ((false, after), f, h) = ((false, after), f, (h.0, (λ s g. cc, h.1), h.2))

        further :
            (r : Role)
            → r.name ≡ p
            → find p roles ≡ some r
            → (mid : List String) → Extends visited mid
            → contains r.name mid ≡ true
            → Closed visited mid
            → (result : Bool × List String)
            → Outcome (AnyGrants parents) (λ after. Known roles after parents) mid result
            → Outcome
                (AnyGrants (p ∷ parents))
                (λ after. Known roles after (p ∷ parents))
                visited
                result
        further r named e mid ext seen closed (true, after) h = inr h
        further r named e mid ext seen closed (false, after) h = (
          λ k i. h.0 k (ext k i),
          (λ s f. h.0 p (ap (λ k. contains k mid) (sym named) ∙ seen), h.1),
          Closed-Extends visited mid after h.0 closed h.2,
        )

        present :
            (r : Role)
            → r.name ≡ p
            → find p roles ≡ some r
            → ((mid : List String)
                → left roles mid < n
                → Answers
                    (AnyGrants parents)
                    (λ after. Known roles after parents)
                    mid
                    (visit_parents (has_permission n roles resource action) roles parents mid))
            → (result : Bool × List String)
            → Outcome
                (Grants roles resource action r)
                (λ after. contains r.name after ≡ true)
                visited
                result
            → Answers
                (AnyGrants (p ∷ parents))
                (λ after. Known roles after (p ∷ parents))
                visited
                (let rest =
                    visit_parents (has_permission n roles resource action) roles parents result.1 in
                  if result.0 then some (true, result.1) else rest)
        present r named e rest (true, mid) h = ((true, mid), refl, inl (r, e, h))
        present r named e rest (false, mid) h =
            let fewer = left-Extends roles visited mid h.0 in
            let (result, found, outcome) = rest mid (omega (arith, fewer, small)) in
            (result, found, further r named e mid h.0 h.1 h.2 result outcome)

    -- A walk from a registered role, with the bound above the number of names that are still left.
    walk : (n : ℕ) → Visits n
    unfolding has_permission
    walk zero r visited f small = absurd (omega arith)
    walk (suc n) r visited f small = elim (Bool-cases (contains r.name visited)) [
      | inl seen ↦ rw seen ((false, visited), refl, (λ name h. h, seen, λ name h. inl h))
      | inr new ↦ elim (Bool-cases (permits resource action r)) [
        | inl itself ↦ rw (new, itself) ((true, r.name ∷ visited), refl, (r, here, itself))
        | inr bare ↦
            let fewer = left_visit roles r.name r visited f new in
            let (result, found, outcome) =
              parents-Answers n (walk n) r.inherits (r.name ∷ visited)
                (omega (arith, fewer, small)) in
            rw (new, bare) (result, found, finish bare result outcome)
      ]
    ]
      where
        climb :
            (parents : List String)
            → AnyGrants parents
            → (s : Role) × AnyOf (λ p. find p roles ≡ some s) parents
              × Grants roles resource action s
        climb [] h = absurd h
        climb (p ∷ parents) (inl (s, e, g)) = (s, inl e, g)
        climb (p ∷ parents) (inr h) = let (s, e, g) = climb parents h in (s, inr e, g)

        own :
            (after : List String)
            → permits resource action r ≡ false
            → Known roles after r.inherits
            → IsDone after r.name
        own after bare known r' f' =
            let same : r ≡ r' = some-injective r r' (sym f ∙ f') in
            subst (λ (q : Role). (permits resource action q ≡ false) × Known roles after q.inherits)
              same (bare, known)

        split :
            (after : List String)
            → permits resource action r ≡ false
            → Known roles after r.inherits
            → (name : String) → (contains name (r.name ∷ visited) ≡ true) ⊎ IsDone after name
            → (contains name visited ≡ true) ⊎ IsDone after name
        split after bare known name (inr done) = inr done
        split after bare known name (inl c) = elim (Bool-cases (str_eq r.name name)) [
          | inl same ↦
              inr (subst (λ k. IsDone after k) ((eq_iff r.name name).0 same) (own after bare known))
          | inr other ↦ inl (rw other at c)
        ]

        finish :
            permits resource action r ≡ false
            → (result : Bool × List String)
            → Outcome
                (AnyGrants r.inherits)
                (λ after. Known roles after r.inherits)
                (r.name ∷ visited)
                result
            → Outcome
                (Grants roles resource action r)
                (λ after. contains r.name after ≡ true)
                visited
                result
        finish bare (true, after) h =
            let (s, e, (t, reach, itself)) = climb r.inherits h in (t, up e reach, itself)
        finish bare (false, after) h = (
          λ name i. h.0 name (Extends-cons r.name visited name i),
          h.0 r.name (contains_self r.name visited),
          λ name i. split after bare h.1 name (h.2 name i),
        )

    -- Nothing within reach of a visited name grants the action, when the walk has begun with no name.
    reach-bare :
        (after : List String)
        → Closed [] after
        → (r s : Role) → find r.name roles ≡ some r
        → contains r.name after ≡ true
        → Reaches roles r s
        → permits resource action s ≡ false
    reach-bare after closed r s f seen Reaches.here = elim (closed r.name seen) [
      | inl older ↦ absurd (false≢true older)
      | inr done ↦ (done r f).0
    ]
    reach-bare after closed r t f seen (Reaches.up {s = s} parent reach) =
        elim (closed r.name seen) [
          | inl older ↦ absurd (false≢true older)
          | inr done ↦
              let (p, e, seen') = Known-AnyOf roles r.inherits after s (done r f).1 parent in
              let named = find-Keyed p roles s keyed e in
              reach-bare after closed s t (ap (λ k. find k roles) named ∙ e)
                (ap (λ k. contains k after) named ∙ seen') reach
        ]

    -- `has_permission` from a registered role, with one more nested call than there are roles, returns:
    -- true exactly if the role itself or one it inherits from, over any number of steps, has a permission
    -- that allows the action.
    pub has_permission-Grants :
        (name : String) (role : Role)
        → find name roles ≡ some role
        → (granted : Bool) × (visited : List String) × (has_permission
              (suc (length roles))
              roles
              resource
              action
              role
              []
            ≡ some (granted, visited))
          × ((granted ≡ true) ↔ Grants roles resource action role)
    has_permission-Grants name role f =
        let bound = left-length roles in
        let named = find-Keyed name roles role keyed f in
        let (result, found, outcome) =
          walk (suc (length roles)) role [] (ap (λ k. find k roles) named ∙ f)
            (omega (arith, bound)) in
        (result.0, result.1, found, decides result outcome)
      where
        decides :
            (result : Bool × List String)
            → Outcome
                (Grants roles resource action role)
                (λ after. contains role.name after ≡ true)
                []
                result
            → (result.0 ≡ true) ↔ Grants roles resource action role
        decides (true, after) h = (λ e. h, λ g. refl)
        decides (false, after) h = (
          λ e. absurd (false≢true e),
          λ (s, reach, itself).
              sym (
                reach-bare after h.2 role s
                  (ap (λ k. find k roles) (find-Keyed name roles role keyed f) ∙ f) h.1 reach)
              ∙ itself,
        )

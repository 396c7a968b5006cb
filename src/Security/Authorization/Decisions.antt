-- ===== src/Security/Authorization/Decisions.antt =====
-- `AuthorizationService::authorize` (authorization.hpp) against the rule it stands for: deny policies come
-- first, then the permissions of the roles and what they inherit, then the allow policies.
use Prim.Native.String.{String, ◌++◌ as append}
use text.Mathlib.TextEquality.{eq_iff}
use mathlib.Core.Bool.{false≢true}
use mathlib.Core.Option.{some-injective}
use mathlib.Core.Path.{subst}
use ipb.Base.{
  suc, ◌≡◌, ◌≢◌, ◌↔◌, refl, sym, ap, ◌∙◌, ◌⊎◌, inl, inr, Bool, true, false, ◌&&◌, List, [], ◌∷◌,
  Option, none, some, if◌then◌else◌, length, arith, Bool-cases, Option-cases,
}
use ipb.Security.Access.{Resource, Action}
use ipb.Security.Authorization.{
  Role, Roles, Service, Policy, PolicyEffect, Identity, AuthzResult, AuthzDecision, find, put,
  erase, has_permission, concerns, same_effect, find_policy, granting_role, authorize,
  register_role, remove_role, add_policy, register_all, default_roles, setup_default_roles,
}
use ipb.Security.Authorization.Roles.{AnyOf, Keyed, Grants, has_permission-Grants}

-- The calls that change a service.
pub data Change : Type 0 where
  registering : Role → Change
  removing : String → Change
  adding : Policy → Change
  defaults : Change

abbrev pub apply : Change → Service → Service
apply (registering r) service = register_role r service
apply (removing name) service = (remove_role name service).1
apply (adding p) service = add_policy p service
apply defaults service = setup_default_roles service

abbrev pub apply_all : List Change → Service → Service
apply_all [] service = service
apply_all (c ∷ changes) service = apply_all changes (apply c service)

abbrev pub new_service : Service
new_service = record { roles = []; policies = [] }

put-Keyed :
    (name : String) (role : Role) (roles : Roles)
    → role.name ≡ name
    → Keyed roles
    → Keyed (put name role roles)
unfolding put
put-Keyed name role [] e k = (e, tt)
put-Keyed name role ((key, r) ∷ roles) e k =
    ground (arith, eq_iff key name, put-Keyed name role roles e k.1, k.0, k.1, e)

erase-Keyed : (name : String) (roles : Roles) → Keyed roles → Keyed (erase name roles)
unfolding erase
erase-Keyed name [] k = tt
erase-Keyed name ((key, r) ∷ roles) k = ground (arith, erase-Keyed name roles k.1, k.0, k.1)

register-Keyed :
    (r : Role) (service : Service) → Keyed service.roles → Keyed (register_role r service).roles
unfolding register_role
register-Keyed r service k = put-Keyed r.name r service.roles refl k

register_all-Keyed :
    (roles : List Role) (service : Service)
    → Keyed service.roles
    → Keyed (register_all roles service).roles
register_all-Keyed [] service k = k
register_all-Keyed (r ∷ roles) service k =
    register_all-Keyed roles (register_role r service) (register-Keyed r service k)

apply-Keyed : (c : Change) (service : Service) → Keyed service.roles → Keyed (apply c service).roles
unfolding remove_role add_policy setup_default_roles
apply-Keyed (registering r) service k = register-Keyed r service k
apply-Keyed (removing name) service k = erase-Keyed name service.roles k
apply-Keyed (adding p) service k = k
apply-Keyed defaults service k = register_all-Keyed default_roles service k

apply_all-Keyed :
    (changes : List Change) (service : Service)
    → Keyed service.roles
    → Keyed (apply_all changes service).roles
apply_all-Keyed [] service k = k
apply_all-Keyed (c ∷ changes) service k =
    apply_all-Keyed changes (apply c service) (apply-Keyed c service k)

-- A search finds nothing and there is nothing, or finds something and there is.
abbrev Decided : {X : Type 0} → Option X → Type 0 → Type 0
Decided {X} o A = ((o ≡ none) × (¬ A)) ⊎ ((x : X) × (o ≡ some x) × A)

and_both : (a b : Bool) → (a && b) ≡ true → (a ≡ true) × (b ≡ true)
and_both true true e = (refl, refl)
and_both true false e = absurd (false≢true e)
and_both false b e = absurd (false≢true e)

same_effect_sound : (a b : PolicyEffect) → same_effect a b ≡ true → a ≡ b
same_effect_sound PolicyEffect.allow PolicyEffect.allow e = refl
same_effect_sound PolicyEffect.allow PolicyEffect.deny e = absurd (false≢true e)
same_effect_sound PolicyEffect.deny PolicyEffect.allow e = absurd (false≢true e)
same_effect_sound PolicyEffect.deny PolicyEffect.deny e = refl

same_effect_refl : (a : PolicyEffect) → same_effect a a ≡ true
same_effect_refl PolicyEffect.allow = refl
same_effect_refl PolicyEffect.deny = refl

module _ (identity : Identity) (resource : Resource) (action : Action) where
  -- A policy with this effect applies to the identity.
  abbrev pub Applies : PolicyEffect → List Policy → Type 0
  Applies effect policies =
      AnyOf (λ p. (p.effect ≡ effect) × (concerns p identity resource action ≡ true)) policies

  -- One of these roles, or one that it inherits from, has a permission that allows the action.
  abbrev pub RoleGrants : Roles → List String → Type 0
  RoleGrants roles names =
      AnyOf (λ name. (r : Role) × (find name roles ≡ some r) × Grants roles resource action r) names

  find_policy-Applies :
      (effect : PolicyEffect) (policies : List Policy)
      → Decided (find_policy effect identity resource action policies) (Applies effect policies)
  unfolding find_policy
  find_policy-Applies effect [] = inl (refl, λ h. h)
  find_policy-Applies effect (p ∷ policies) =
      elim (Bool-cases (same_effect p.effect effect && concerns p identity resource action)) [
        | inl both ↦
            let (same, concerned) =
              and_both (same_effect p.effect effect) (concerns p identity resource action) both in
            rw both (inr (p, refl, inl (same_effect_sound p.effect effect same, concerned)))
        | inr other ↦ rw other (later other (find_policy-Applies effect policies))
      ]
    where
      here :
          (same_effect p.effect effect && concerns p identity resource action) ≡ false
          → (p.effect ≡ effect) × (concerns p identity resource action ≡ true)
          → ⊥
      here other (same, concerned) =
          let e : same_effect p.effect effect ≡ true =
            ap (λ x. same_effect x effect) same ∙ same_effect_refl effect in
          false≢true (sym other ∙ rw (e, concerned) refl)

      later :
          (same_effect p.effect effect && concerns p identity resource action) ≡ false
          → Decided (find_policy effect identity resource action policies) (Applies effect policies)
          → Decided
              (find_policy effect identity resource action policies)
              (Applies effect (p ∷ policies))
      later other (inl (e, absent)) =
          inl (e, λ h. elim h [ inl mine ↦ here other mine | inr rest ↦ absent rest ])
      later other (inr (q, e, h)) = inr (q, e, inr h)

  -- What the search over the roles decides for a first name, given the rest.
  skip-name :
      (roles : Roles) (name : String) (names : List String) (o : Option (Option String))
      → (((r : Role) × (find name roles ≡ some r) × Grants roles resource action r) → ⊥)
      → (granting : Option String) × (o ≡ some granting) × Decided granting (RoleGrants roles names)
      → (granting : Option String) × (o ≡ some granting)
        × Decided granting (RoleGrants roles (name ∷ names))
  skip-name roles name names o bare (g, e, inl (found, absent)) =
      (g, e, inl (found, λ h. elim h [ inl mine ↦ bare mine | inr rest ↦ absent rest ]))
  skip-name roles name names o bare (g, e, inr (n, found, h)) = (g, e, inr (n, found, inr h))

  granting-none :
      (roles : Roles) (name : String) (names : List String)
      → find name roles ≡ none
      → granting_role roles resource action (name ∷ names)
        ≡ granting_role roles resource action names
  unfolding granting_role
  granting-none roles name names e = rw (e, granting_role) refl

  granting-some :
      (roles : Roles) (name : String) (names : List String) (r : Role) (granted : Bool)
      (visited : List String)
      → find name roles ≡ some r
      → has_permission (suc (length roles)) roles resource action r [] ≡ some (granted, visited)
      → let rest = granting_role roles resource action names in
        granting_role roles resource action (name ∷ names)
        ≡ (if granted then some (some name) else rest)
  unfolding granting_role
  granting-some roles name names r granted visited e f = rw (e, f, granting_role) refl

  granting-RoleGrants :
      (roles : Roles) (names : List String)
      → Keyed roles
      → (granting : Option String) × (granting_role roles resource action names ≡ some granting)
        × Decided granting (RoleGrants roles names)
  unfolding granting_role
  granting-RoleGrants roles [] k = (none, refl, inl (refl, λ h. h))
  granting-RoleGrants roles (name ∷ names) k = elim (Option-cases (find name roles)) [
    | inl e ↦
        let (g, found, decided) =
          skip-name roles name names (granting_role roles resource action names) (λ (r, e', h). cc)
            (granting-RoleGrants roles names k) in
        (g, granting-none roles name names e ∙ found, decided)
    | inr (r, e) ↦
        let (granted, visited, found, iff) =
          has_permission-Grants roles resource action k name r e in
        let (g, found', decided) = choose r e granted iff (granting-RoleGrants roles names k) in
        (g, granting-some roles name names r granted visited e found ∙ found', decided)
  ]
    where
      choose :
          (r : Role)
          → find name roles ≡ some r
          → (granted : Bool) → ((granted ≡ true) ↔ Grants roles resource action r)
          → (granting : Option String) × (granting_role roles resource action names ≡ some granting)
            × Decided granting (RoleGrants roles names)
          → (granting : Option String) × ((let rest = granting_role roles resource action names in
                if granted then some (some name) else rest)
              ≡ some granting)
            × Decided granting (RoleGrants roles (name ∷ names))
      choose r e true iff rest = (some name, refl, inr (name, refl, inl (r, e, iff.0 refl)))
      choose r e false iff rest =
          skip-name roles name names (granting_role roles resource action names)
            (λ (r', e', h). false≢true (
              iff.1
                (subst (λ q. Grants roles resource action q) (some-injective r' r (sym e' ∙ e)) h)))
            rest

  -- The answer of `authorize` for what is decided on the three searches.
  abbrev Answer : Service → Option AuthzDecision → Type 0
  Answer service o =
      (d : AuthzDecision) × (o ≡ some d)
      × ((d.result ≡ AuthzResult.allowed) ↔ (
          (¬ Applies PolicyEffect.deny service.policies)
          × (RoleGrants service.roles identity.roles
              ⊎ Applies PolicyEffect.allow service.policies)))
      × (d.result ≢ AuthzResult.allowed → d.result ≡ AuthzResult.denied)

  service-Decides :
      (service : Service)
      → Keyed service.roles
      → Answer service (authorize service identity resource action)
  unfolding authorize
  service-Decides service k = elim (find_policy-Applies PolicyEffect.deny service.policies) [
    | inr (p, e, applies) ↦
        rw (e, authorize)
          (
            record {
              result = AuthzResult.denied;
              reason = "Denied by policy";
              matched_policy = p.name;
            },
            refl,
            (λ h. cc, λ h. absurd (h.0 applies)),
            λ h. refl,
          )
    | inl (e, clear) ↦
        let (granting, found, decided) = granting-RoleGrants service.roles identity.roles k in
        elim decided [
          | inr (name, f, grants) ↦
              let by_role : granting_role service.roles resource action identity.roles
                  ≡ some (some name) =
                found ∙ ap (λ g. some g) f in
              rw (e, by_role, authorize)
                (
                  record {
                    result = AuthzResult.allowed;
                    reason = append "Allowed by role: " name;
                    matched_policy = "";
                  },
                  refl,
                  (λ h. (clear, inl grants), λ h. refl),
                  λ h. absurd (h refl),
                )
          | inl (f, bare) ↦
              let by_none : granting_role service.roles resource action identity.roles ≡ some none =
                found ∙ ap (λ g. some g) f in
              elim (find_policy-Applies PolicyEffect.allow service.policies) [
                | inr (p, e', applies) ↦
                    rw (e, by_none, e', authorize)
                      (
                        record {
                          result = AuthzResult.allowed;
                          reason = "Allowed by policy";
                          matched_policy = p.name;
                        },
                        refl,
                        (λ h. (clear, inr applies), λ h. refl),
                        λ h. absurd (h refl),
                      )
                | inl (e', unclear) ↦
                    rw (e, by_none, e', authorize)
                      (
                        record {
                          result = AuthzResult.denied;
                          reason = "No matching permission";
                          matched_policy = "";
                        },
                        refl,
                        (λ h. cc, λ h. absurd (neither bare unclear h.1)),
                        λ h. refl,
                      )
              ]
        ]
  ]
    where
      neither :
          (¬ RoleGrants service.roles identity.roles)
          → (¬ Applies PolicyEffect.allow service.policies)
          → RoleGrants service.roles identity.roles ⊎ Applies PolicyEffect.allow service.policies
          → ⊥
      neither bare unclear (inl h) = bare h
      neither bare unclear (inr h) = unclear h

  -- After any registrations, removals and additions on a new service, `authorize` returns a decision. It
  -- allows the action exactly if no deny policy applies to the identity, and one of its roles, or a role
  -- from which that one inherits over any number of steps, has a permission for it or an allow policy
  -- applies. Otherwise it denies the action; it never answers that it is not applicable.
  pub authorize-Decides :
      (changes : List Change)
      → let service = apply_all changes new_service in
        (d : AuthzDecision) × (authorize service identity resource action ≡ some d)
        × ((d.result ≡ AuthzResult.allowed) ↔ (
            (¬ Applies PolicyEffect.deny service.policies)
            × (RoleGrants service.roles identity.roles
                ⊎ Applies PolicyEffect.allow service.policies)))
        × (d.result ≢ AuthzResult.allowed → d.result ≡ AuthzResult.denied)
  unfolding authorize
  authorize-Decides changes =
      service-Decides (apply_all changes new_service) (apply_all-Keyed changes new_service tt)

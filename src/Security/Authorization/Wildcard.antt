-- ===== src/Security/Authorization/Wildcard.antt =====
-- A request for the resource "*:*@*" (authorization.hpp): `Resource::matches` takes a wildcard on either side.
use Prim.Native.String.{String}
use ipb.Base.{◌≡◌, refl, inl, inr, Bool, true, ◌||◌, List, [], ◌∷◌, some, arith, Bool-cases}
use ipb.Security.Access.{
  Resource, Permission, Action, any, allows, matches, field_matches, action_eq, all,
}
use ipb.Security.Authorization.{
  Role, Identity, PolicyEffect, AuthzDecision, AuthzResult, find, authorize, everything,
}
use ipb.Security.Authorization.Roles.{AnyOf, Reaches}
use ipb.Security.Authorization.Decisions.{
  Change, apply_all, new_service, Applies, RoleGrants, authorize-Decides,
}

-- A permission for the action, on whatever resource.
abbrev pub mentions : Action → Permission → Bool
mentions action p = any (λ a. action_eq a all) p.actions || any (λ a. action_eq a action) p.actions

field_matches_star : (field : String) → field_matches field "*" ≡ true
field_matches_star field = ground arith

matches-everything : (r : Resource) → matches r (everything "*") ≡ true
matches-everything r =
    rw (field_matches_star r.type, field_matches_star r.id, field_matches_star r.scope) refl

any-permits :
    (action : Action) (permissions : List Permission)
    → any (mentions action) permissions ≡ true
    → any (λ p. allows p (everything "*") action) permissions ≡ true
any-permits action [] e = e
any-permits action (p ∷ permissions) e =
    let m = matches-everything p.resource in
    elim (Bool-cases (mentions action p)) [
      | inl here ↦ rw (m, here) refl
      | inr other ↦ rw (m, other) (any-permits action permissions (rw other at e))
    ]

-- An identity of which one role has a permission for the action, on any one resource, is allowed the
-- action on every resource at once, if no deny policy applies to it there.
pub authorize_wildcard :
    (changes : List Change) (identity : Identity) (action : Action) (role : Role)
    → let service = apply_all changes new_service in
      AnyOf (λ name. find name service.roles ≡ some role) identity.roles
      → any (mentions action) role.permissions ≡ true
      → (¬ Applies identity (everything "*") action PolicyEffect.deny service.policies)
      → (d : AuthzDecision) × (authorize service identity (everything "*") action ≡ some d)
        × (d.result ≡ AuthzResult.allowed)
authorize_wildcard changes identity action role named permitted clear =
    let (d, e, decides, other) = authorize-Decides identity (everything "*") action changes in
    (d, e, decides.1 (clear, inl (granted identity.roles named)))
  where
    granted :
        (names : List String)
        → AnyOf (λ name. find name (apply_all changes new_service).roles ≡ some role) names
        → RoleGrants identity (everything "*") action (apply_all changes new_service).roles names
    granted [] h = absurd h
    granted (name ∷ names) (inl f) =
        inl (role, f, (role, Reaches.here, any-permits action role.permissions permitted))
    granted (name ∷ names) (inr h) = inr (granted names h)

-- ===== src/Security/Authorization.antt =====
-- core/security/include/ipb/security/authorization.hpp: resources, permissions, roles, policies and
-- `AuthorizationService`. The maps are association lists, the sets lists; locks and the latency are left out.
pub mod Roles
pub mod Decisions
pub mod Wildcard
use Prim.Native.String.{String, ◌++◌ as append}
use text.Mathlib.Text.{◌==◌ as str_eq}
use ipb.Base.{
  ℕ, zero, suc, ◌+◌, Bool, true, false, ◌&&◌, ◌||◌, List, [], ◌∷◌, ◌++◌, Option, none, some,
  if◌then◌else◌, length,
}
use ipb.Security.Access.{
  Resource, Permission, Action, read, write, delete, execute, admin, all, allows, any, matches,
  action_eq,
}

pub record Role : Type 0 where
  pub name : String
  pub description : String
  pub permissions : List Permission
  pub inherits : List String

-- `roles_`, each role under its name.
abbrev pub Roles : Type 0
Roles = List (String × Role)

unfoldable pub find : String → Roles → Option Role
find name [] = none
find name ((k, r) ∷ roles) = let rest = find name roles in if str_eq k name then some r else rest

unfoldable pub put : String → Role → Roles → Roles
put name role [] = (name, role) ∷ []
put name role ((k, r) ∷ roles) =
    let rest = put name role roles in if str_eq k name then (k, role) ∷ roles else (k, r) ∷ rest

unfoldable pub erase : String → Roles → Roles
erase name [] = []
erase name ((k, r) ∷ roles) =
    let rest = erase name roles in if str_eq k name then roles else (k, r) ∷ rest

-- The names that a walk has visited.
abbrev pub contains : String → List String → Bool
contains name [] = false
contains name (v ∷ visited) = if str_eq v name then true else contains name visited

-- The check of a role's own permissions.
abbrev pub permits : Resource → Action → Role → Bool
permits resource action role = any (λ p. allows p resource action) role.permissions

-- The loop over the parents, with the walk from one of them as `visit`.
unfoldable pub visit_parents :
    (Role → List String → Option (Bool × List String))
    → Roles
    → List String
    → List String
    → Option (Bool × List String)
visit_parents visit roles [] visited = some (false, visited)
visit_parents visit roles (parent ∷ parents) visited = elim (find parent roles) [
  | none ↦ visit_parents visit roles parents visited
  | some role ↦ elim (visit role visited) [
    | none ↦ none
    | some (granted, visited') ↦
        let rest = visit_parents visit roles parents visited' in
        if granted then some (true, visited') else rest
  ]
]

-- `Role::has_permission`, with a bound on the depth of the recursion.
unfoldable pub has_permission :
    ℕ → Roles → Resource → Action → Role → List String → Option (Bool × List String)
has_permission zero roles resource action role visited = none
has_permission (suc n) roles resource action role visited =
    let rest =
      visit_parents (has_permission n roles resource action) roles role.inherits
        (role.name ∷ visited) in
    if contains role.name visited
    then some (false, visited)
    else if permits resource action role
    then some (true, role.name ∷ visited)
    else rest

pub data PolicyEffect : Type 0 where
  allow : PolicyEffect
  deny : PolicyEffect

pub record Policy : Type 0 where
  pub name : String
  pub effect : PolicyEffect
  pub principals : List String
  pub resources : List Resource
  pub actions : List Action
  pub conditions : List (String × String)

-- `Policy::applies_to`
abbrev pub applies_to : Policy → String → Resource → Action → Bool
applies_to policy principal resource action =
    if any (λ p. str_eq p "*" || str_eq p principal) policy.principals
    then (if any (λ r. matches r resource) policy.resources
        then any (λ a. action_eq a all || action_eq a action) policy.actions
        else false)
    else false

-- The part of `Identity` that `authorize` reads.
pub record Identity : Type 0 where
  pub id : String
  pub roles : List String

pub data AuthzResult : Type 0 where
  allowed : AuthzResult
  denied : AuthzResult
  not_applicable : AuthzResult

pub record AuthzDecision : Type 0 where
  pub result : AuthzResult
  pub reason : String
  pub matched_policy : String

pub record Service : Type 0 where
  pub roles : Roles
  pub policies : List Policy

abbrev pub same_effect : PolicyEffect → PolicyEffect → Bool
same_effect PolicyEffect.allow PolicyEffect.allow = true
same_effect PolicyEffect.deny PolicyEffect.deny = true
same_effect a b = false

-- Whether a policy applies to one of the identity's roles or to its id.
abbrev pub concerns : Policy → Identity → Resource → Action → Bool
concerns policy identity resource action =
    any (λ role. applies_to policy role resource action) identity.roles
    || applies_to policy identity.id resource action

-- The loops over the policies: the first one with an effect that concerns the identity.
unfoldable pub find_policy :
    PolicyEffect → Identity → Resource → Action → List Policy → Option Policy
find_policy effect identity resource action [] = none
find_policy effect identity resource action (p ∷ policies) =
    let rest = find_policy effect identity resource action policies in
    if same_effect p.effect effect && concerns p identity resource action then some p else rest

-- The loop over the identity's roles: the first one that grants the permission, if any. The bound is one
-- more than the number of roles.
unfoldable pub granting_role : Roles → Resource → Action → List String → Option (Option String)
granting_role roles resource action [] = some none
granting_role roles resource action (name ∷ names) =
    let rest = granting_role roles resource action names in
    elim (find name roles) [
      | none ↦ rest
      | some role ↦ elim (has_permission (suc (length roles)) roles resource action role []) [
        | none ↦ none
        | some (granted, visited) ↦ if granted then some (some name) else rest
      ]
    ]

-- What follows the deny policies and the roles in `authorize`.
abbrev pub by_policy : Option Policy → AuthzDecision
by_policy (some p) = record {
  result = allowed;
  reason = "Allowed by policy";
  matched_policy = p.name;
}
by_policy none = record { result = denied; reason = "No matching permission"; matched_policy = "" }

-- `authorize`
unfoldable pub authorize : Service → Identity → Resource → Action → Option AuthzDecision
authorize service identity resource action =
    elim (find_policy PolicyEffect.deny identity resource action service.policies) [
      | some p ↦
          some (record { result = denied; reason = "Denied by policy"; matched_policy = p.name })
      | none ↦ elim (granting_role service.roles resource action identity.roles) [
        | none ↦ none
        | some (some name) ↦ some (record {
          result = allowed;
          reason = append "Allowed by role: " name;
          matched_policy = "";
        })
        | some none ↦
            some
              (by_policy (find_policy PolicyEffect.allow identity resource action service.policies))
      ]
    ]

-- `register_role`, `remove_role` and `add_policy`
unfoldable pub register_role : Role → Service → Service
register_role role service = record service { roles = put role.name role service.roles }

unfoldable pub remove_role : String → Service → Bool × Service
remove_role name service = (
  elim (find name service.roles) [ none ↦ false | some role ↦ true ],
  record service { roles = erase name service.roles },
)

unfoldable pub add_policy : Policy → Service → Service
add_policy policy service = record service { policies = service.policies ++ (policy ∷ []) }

-- `has_role`
abbrev pub has_role : Identity → String → Bool
has_role identity role = contains role identity.roles

-- `get_permissions`, of the identity's roles
unfoldable pub get_permissions : Service → List String → List Permission
get_permissions service [] = []
get_permissions service (name ∷ names) =
    let rest = get_permissions service names in
    elim (find name service.roles) [ none ↦ rest | some role ↦ role.permissions ++ rest ]

-- `setup_default_roles`
abbrev pub everything : String → Resource
everything kind = record { type = kind; id = "*"; scope = "*" }

abbrev pub default_roles : List Role
default_roles =
    record {
      name = "admin";
      description = "Administrator with full access";
      permissions = record { resource = everything "*"; actions = all ∷ [] } ∷ [];
      inherits = [];
    }
    ∷ record {
      name = "operator";
      description = "Operator with read/write access to data";
      permissions =
          record { resource = everything "datapoint"; actions = read ∷ write ∷ [] }
          ∷ record { resource = everything "route"; actions = read ∷ [] }
          ∷ [];
      inherits = [];
    }
    ∷ record {
      name = "viewer";
      description = "Read-only access";
      permissions = record { resource = everything "*"; actions = read ∷ [] } ∷ [];
      inherits = [];
    }
    ∷ record {
      name = "service";
      description = "Internal service access";
      permissions =
          record { resource = everything "datapoint"; actions = read ∷ write ∷ delete ∷ [] }
          ∷ record { resource = everything "internal"; actions = all ∷ [] }
          ∷ [];
      inherits = [];
    }
    ∷ []

abbrev pub register_all : List Role → Service → Service
register_all [] service = service
register_all (r ∷ roles) service = register_all roles (register_role r service)

unfoldable pub setup_default_roles : Service → Service
setup_default_roles service = register_all default_roles service

-- ===== src/Security/Examples.antt =====
-- The access rules of authorization.hpp on the default roles, and on roles that inherit from each other.
use Prim.Native.String.{String}
use ipb.Base.{◌≡◌, ◌≢◌, ◌↔◌, ◌⊎◌, suc, inl, refl, Bool, true, List, [], ◌∷◌, some, length}
use ipb.Security.Access.{Resource, delete}
use ipb.Security.Authorization.{
  Role, Roles, Identity, PolicyEffect, AuthzDecision, AuthzResult, find, put, has_permission,
  authorize, everything, register_role,
}
use ipb.Security.Authorization.Roles.{Grants, has_permission-Grants}
use ipb.Security.Authorization.Decisions.{
  Change, registering, removing, defaults, apply_all, new_service, Applies, RoleGrants,
  authorize-Decides,
}
use ipb.Security.Authorization.Wildcard.{authorize_wildcard}

abbrev chief : Role
chief = record { name = "chief"; description = ""; permissions = []; inherits = "clerk" ∷ [] }

abbrev clerk : Role
clerk = record {
  name = "clerk";
  description = "";
  permissions =
      record { resource = record { type = "sink"; id = "one"; scope = "*" }; actions = delete ∷ [] }
      ∷ [];
  inherits = "chief" ∷ [];
}

-- Two roles that inherit from each other.
abbrev circle : Roles
circle = ("chief", chief) ∷ ("clerk", clerk) ∷ []

abbrev sink_one : Resource
sink_one = record { type = "sink"; id = "one"; scope = "here" }

abbrev boss : Identity
boss = record { id = "b"; roles = "chief" ∷ [] }

has_permission-Grants_example :
    (granted : Bool) × (visited : List String) × (has_permission
        (suc (length circle))
        circle
        sink_one
        delete
        chief
        []
      ≡ some (granted, visited))
    × ((granted ≡ true) ↔ Grants circle sink_one delete chief)
unfolding find
has_permission-Grants_example =
    has_permission-Grants circle sink_one delete (refl, (refl, tt)) "chief" chief refl

abbrev history : List Change
history = defaults ∷ registering clerk ∷ registering chief ∷ removing "viewer" ∷ []

authorize-Decides_example :
    let service = apply_all history new_service in
    (d : AuthzDecision) × (authorize service boss sink_one delete ≡ some d)
    × ((d.result ≡ AuthzResult.allowed) ↔ (
        (¬ Applies boss sink_one delete PolicyEffect.deny service.policies)
        × (RoleGrants boss sink_one delete service.roles boss.roles
            ⊎ Applies boss sink_one delete PolicyEffect.allow service.policies)))
    × (d.result ≢ AuthzResult.allowed → d.result ≡ AuthzResult.denied)
authorize-Decides_example = authorize-Decides boss sink_one delete history

abbrev helper : Identity
helper = record { id = "h"; roles = "clerk" ∷ [] }

abbrev short_history : List Change
short_history = registering clerk ∷ []

authorize_wildcard_example :
    let service = apply_all short_history new_service in
    (d : AuthzDecision) × (authorize service helper (everything "*") delete ≡ some d)
    × (d.result ≡ AuthzResult.allowed)
unfolding find put register_role
authorize_wildcard_example =
    authorize_wildcard short_history helper delete clerk (inl refl) refl (λ h. h)

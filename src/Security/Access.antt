-- ===== src/Security/Access.antt =====
-- Resources, actions and permissions (authorization.hpp).
use Prim.Native.String.{String}
use text.Mathlib.Text.{◌==◌ as str_eq}
use ipb.Base.{ℕ, Bool, true, false, ◌&&◌, ◌||◌, ◌==◌, List, [], ◌∷◌, if◌then◌else◌}

pub data Action : Type 0 where
  read : Action
  write : Action
  delete : Action
  execute : Action
  admin : Action
  all : Action

-- The number of an enumerator.
abbrev index : Action → ℕ
index read = 0
index write = 1
index delete = 2
index execute = 3
index admin = 4
index all = 5

abbrev pub action_eq : Action → Action → Bool
action_eq a b = index a == index b

-- A loop that stops at the first element that passes a test.
abbrev pub any : {A : Type 0} → (A → Bool) → List A → Bool
any f [] = false
any f (a ∷ rest) = if f a then true else any f rest

pub record Resource : Type 0 where
  pub type : String
  pub id : String
  pub scope : String

-- A field matches if either side is a wildcard.
abbrev pub field_matches : String → String → Bool
field_matches mine theirs = str_eq mine "*" || (str_eq theirs "*" || str_eq mine theirs)

-- `Resource::matches`
abbrev pub matches : Resource → Resource → Bool
matches r other =
    field_matches r.type other.type
    && (field_matches r.id other.id && field_matches r.scope other.scope)

pub record Permission : Type 0 where
  pub resource : Resource
  pub actions : List Action

-- `Permission::allows`
abbrev pub allows : Permission → Resource → Action → Bool
allows p resource action =
    if matches p.resource resource
    then any (λ a. action_eq a all) p.actions || any (λ a. action_eq a action) p.actions
    else false

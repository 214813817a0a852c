-- ===== src/Abac/Conditions.antt =====
-- The condition combinators and the built-in conditions of abac/types.go.
use api_security_sdk.Common.{
  String, Bool, true, false, not, ◌&&◌, ◌==◌, Option, none, some, List, [], ◌∷◌, contains,
}
use api_security_sdk.Common.Values.{Value, nil, str, strs, any_eq, as_text}
use api_security_sdk.Common.Table.{lookup_or}
use api_security_sdk.Abac.{Attributes, Condition}

unfoldable pub and_all : List Condition → Condition
and_all [] req = some true
and_all (c ∷ cs) req = elim (c req) [
  | none ↦ none
  | some holds ↦ elim holds [ true ↦ and_all cs req | false ↦ some false ]
]

unfoldable pub or_any : List Condition → Condition
or_any [] req = some false
or_any (c ∷ cs) req = elim (c req) [
  | none ↦ none
  | some holds ↦ elim holds [ true ↦ some true | false ↦ or_any cs req ]
]

unfoldable pub negate : Condition → Condition
negate c req = elim (c req) [ none ↦ none | some holds ↦ some (not holds) ]

unfoldable pub action_is : List String → Condition
action_is actions req = some (contains actions req.action)

-- `attributes[key] == value`, nil for a missing key
unfoldable pub attr_equals : Attributes → String → Value → Option Bool
unfolding lookup_or any_eq
attr_equals attrs key value = any_eq (lookup_or nil key attrs) value

unfoldable pub subject_attr_equals : String → Value → Condition
unfolding attr_equals
subject_attr_equals key value req = attr_equals req.subject key value

unfoldable pub resource_attr_equals : String → Value → Condition
unfolding attr_equals
resource_attr_equals key value req = attr_equals req.resource key value

unfoldable pub env_attr_equals : String → Value → Condition
unfolding attr_equals
env_attr_equals key value req = attr_equals req.environment key value

unfoldable pub owner_is_subject : Condition
unfolding lookup_or as_text
owner_is_subject req =
    let owner = as_text (lookup_or nil "owner" req.resource) in
    let subject_id = as_text (lookup_or nil "id" req.subject) in
    some (not (owner == "") && owner == subject_id)

unfoldable pub has_role_value : String → Value → Bool
has_role_value role (strs roles) = contains roles role
has_role_value role (str s) = s == role
has_role_value role _ = false

unfoldable pub subject_has_role : String → Condition
unfolding lookup_or has_role_value
subject_has_role role req = some (has_role_value role (lookup_or nil "roles" req.subject))

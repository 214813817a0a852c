-- ===== src/Abac.antt =====
-- abac/types.go, abac/store.go and abac/abac.go: conditions, policies, the store and the evaluator.
-- A condition is code of the caller and may panic; `none` is a panic.
pub mod Conditions
pub mod Order
pub mod Attributes
pub mod Decide
pub mod Middleware
use api_security_sdk.Common.{
  ℕ, String, Bool, true, false, Option, none, some, List, [], ◌∷◌, Result, ok, err, map,
  if◌then◌else◌,
}
use api_security_sdk.Common.Int.{ℤ, gt_ℤ}
use api_security_sdk.Common.Values.{Value}
use api_security_sdk.Common.Table.{Table, lookup, insert, delete}

pub data Effect : Type 0 where
  allow deny : Effect

abbrev pub Attributes : Type 0
Attributes = Table Value

pub record Request : Type 0 where
  pub subject : Attributes
  pub resource : Attributes
  pub action : String
  pub environment : Attributes

pub record Decision : Type 0 where
  pub allowed : Bool
  pub matched_policy : String

abbrev pub Condition : Type 0
Condition = Request → Option Bool

pub record Policy : Type 0 where
  pub id : String
  pub effect : Effect
  pub condition : Option Condition
  pub priority : ℤ

pub data Error : Type 0 where
  policy_not_found : Error
  backend : String → Error

pub record MemoryStore : Type 0 where
  pub entries : Table Policy

unfoldable pub new_memory_store : MemoryStore
new_memory_store = record { entries = [] }

unfoldable pub add_policy : MemoryStore → Policy → MemoryStore
add_policy s p = record { entries = insert p.id p s.entries }

unfoldable pub remove_policy : MemoryStore → String → Result Error MemoryStore
remove_policy s id = elim (lookup id s.entries) [
  | none ↦ err policy_not_found
  | some _ ↦ ok (record { entries = delete id s.entries })
]

-- `sort.SliceStable` with `out[i].Priority > out[j].Priority`: `p` stood before the others.
unfoldable pub place : Policy → List Policy → List Policy
place p [] = p ∷ []
place p (q ∷ qs) = if gt_ℤ q.priority p.priority then q ∷ place p qs else p ∷ q ∷ qs

unfoldable pub sort_by_priority : List Policy → List Policy
unfolding place
sort_by_priority [] = []
sort_by_priority (p ∷ ps) = place p (sort_by_priority ps)

-- `Policies`, where `order` is the order in which `range` gives the values of the map.
unfoldable pub policies : List Policy → Result Error (List Policy)
unfolding sort_by_priority
policies order = ok (sort_by_priority order)

-- The values of the map, in the order of the table.
abbrev pub stored : MemoryStore → List Policy
stored s = map (λ e. e.1) s.entries

abbrev pub is_allow : Effect → Bool
is_allow allow = true
is_allow deny = false

-- `p.Condition == nil || p.Condition(req)`
unfoldable pub applies : Policy → Request → Option Bool
applies p req = elim p.condition [ none ↦ some true | some c ↦ c req ]

module _ (default_effect : Effect) (req : Request) where
  abbrev pub default_decision : Decision
  default_decision = record { allowed = is_allow default_effect; matched_policy = "" }

  -- The loop of `Evaluate`.
  unfoldable pub first_match : List Policy → Option Decision
  unfolding applies
  first_match [] = some default_decision
  first_match (p ∷ ps) = elim (applies p req) [
    | none ↦ none
    | some hit ↦ elim hit [
      | true ↦ some (record { allowed = is_allow p.effect; matched_policy = p.id })
      | false ↦ first_match ps
    ]
  ]

  -- `fetched` is the answer of `ev.store.Policies()`.
  unfoldable pub evaluate : Result Error (List Policy) → Option Decision
  unfolding first_match
  evaluate fetched = elim fetched [ err e ↦ some default_decision | ok ps ↦ first_match ps ]

-- `Evaluator.Allow`
unfoldable pub permits : Effect → Request → Result Error (List Policy) → Option Bool
unfolding evaluate
permits default_effect req fetched = elim (evaluate default_effect req fetched) [
  | none ↦ none
  | some d ↦ some d.allowed
]

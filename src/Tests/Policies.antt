-- ===== src/Tests/Policies.antt =====
-- abac on a few policies.
use api_security_sdk.Common.{
  ◌≡◌, refl, ◌⊎◌, ◌≢◌, true, false, none, some, List, [], ◌∷◌, Memᴰ, arith,
}
use mathlib.Core.List.Memᴰ
use api_security_sdk.Common.Int.{pos, gt_ℤ}
use api_security_sdk.Common.Values.{str}
use api_security_sdk.Abac.{
  allow, deny, Request, Decision, Policy, policies, sort_by_priority, place, applies, first_match,
  evaluate, permits,
}
use api_security_sdk.Abac.Conditions.{action_is}
use api_security_sdk.Abac.Decide.{
  DecidedBy, Defaulted, evaluate-Decided, evaluate_order_independent, evaluate_tie,
}

abbrev read_all : Policy
read_all = record {
  id = "read";
  effect = allow;
  condition = some (action_is ("read" ∷ []));
  priority = pos 1;
}

abbrev lock : Policy
lock = record { id = "lock"; effect = deny; condition = none; priority = pos 0 }

abbrev rival : Policy
rival = record lock { priority = pos 1 }

abbrev request : Request
request = record {
  subject = ("id", str "ann") ∷ [];
  resource = ("owner", str "ann") ∷ [];
  action = "read";
  environment = [];
}

abbrev order : List Policy
order = lock ∷ read_all ∷ []

abbrev granted : Decision
granted = record { allowed = true; matched_policy = "read" }

decides : evaluate deny request (policies order) ≡ some granted
unfolding evaluate policies sort_by_priority place first_match applies action_is
decides = refl

evaluate-Decided_example :
    DecidedBy deny request order granted ⊎ Defaulted deny request order granted
evaluate-Decided_example = evaluate-Decided deny request order granted decides

no_panic : (p : Policy) → Memᴰ p order → applies p request ≢ none
unfolding applies action_is
no_panic p (Memᴰ.head e) = rw e (λ h. absurd (ground arith))
no_panic p (Memᴰ.tail (Memᴰ.head e)) = rw e (λ h. absurd (ground arith))
no_panic p (Memᴰ.tail (Memᴰ.tail m)) = absurd (Memᴰ.not-nil m)

evaluate_tie_example :
    (permits deny request (policies (read_all ∷ rival ∷ [])) ≡ some true)
    × (permits deny request (policies (rival ∷ read_all ∷ [])) ≡ some false)
unfolding applies action_is
evaluate_tie_example = evaluate_tie deny request read_all rival refl refl refl refl refl refl

to_swapped : (p : Policy) → Memᴰ p order → Memᴰ p (read_all ∷ lock ∷ [])
to_swapped p (Memᴰ.head e) = Memᴰ.tail (Memᴰ.head e)
to_swapped p (Memᴰ.tail (Memᴰ.head e)) = Memᴰ.head e
to_swapped p (Memᴰ.tail (Memᴰ.tail m)) = absurd (Memᴰ.not-nil m)

from_swapped : (p : Policy) → Memᴰ p (read_all ∷ lock ∷ []) → Memᴰ p order
from_swapped p (Memᴰ.head e) = Memᴰ.tail (Memᴰ.head e)
from_swapped p (Memᴰ.tail (Memᴰ.head e)) = Memᴰ.head e
from_swapped p (Memᴰ.tail (Memᴰ.tail m)) = absurd (Memᴰ.not-nil m)

-- The two policies have different priorities.
no_ties :
    (p q : Policy)
    → Memᴰ p order
    → Memᴰ q order
    → applies p request ≡ some true
    → applies q request ≡ some true
    → gt_ℤ p.priority q.priority ≡ false
    → gt_ℤ q.priority p.priority ≡ false
    → (p.effect ≡ q.effect) × (p.id ≡ q.id)
no_ties p q (Memᴰ.head e) (Memᴰ.head e') _ _ _ _ = rw (e, e') (refl, refl)
no_ties p q (Memᴰ.head e) (Memᴰ.tail (Memᴰ.head e')) _ _ _ below =
    absurd (ground (arith, rw (e, e') at below))
no_ties p q (Memᴰ.tail (Memᴰ.head e)) (Memᴰ.head e') _ _ above _ =
    absurd (ground (arith, rw (e, e') at above))
no_ties p q (Memᴰ.tail (Memᴰ.head e)) (Memᴰ.tail (Memᴰ.head e')) _ _ _ _ = rw (e, e') (refl, refl)
no_ties p q (Memᴰ.tail (Memᴰ.tail m)) _ _ _ _ _ = absurd (Memᴰ.not-nil m)
no_ties p q _ (Memᴰ.tail (Memᴰ.tail m)) _ _ _ _ = absurd (Memᴰ.not-nil m)

evaluate_order_independent_example :
    evaluate deny request (policies order) ≡ evaluate deny request (policies (read_all ∷ lock ∷ []))
evaluate_order_independent_example =
    evaluate_order_independent deny request order (read_all ∷ lock ∷ []) to_swapped from_swapped
      no_panic no_ties

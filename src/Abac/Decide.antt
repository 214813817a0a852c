-- ===== src/Abac/Decide.antt =====
-- abac/abac.go: which policy decides.
use mathlib.Core.List.Memᴰ
use api_security_sdk.Common.{
  true, false, ◌≡◌, refl, ◌≢◌, ◌⊎◌, inl, inr, ⊎_elim, none, some, List, [], ◌∷◌, Memᴰ, err, arith,
  All-at, ap, Bool-cases, Option-cases,
}
use api_security_sdk.Common.Int.{gt_ℤ}
use api_security_sdk.Abac.{
  Effect, allow, deny, Request, Decision, Policy, Error, sort_by_priority, policies, is_allow,
  applies, default_decision, first_match, evaluate, permits,
}
use api_security_sdk.Abac.Order.{NotAbove, gt_irrefl, IsSorted, sort-IsSorted, mem-sort, sort-mem}

module _ (default_effect : Effect) (req : Request) where
  -- The decision is that of `policy`, which applies, and no policy above it does.
  pub record DecidedBy (order : List Policy) (d : Decision) : Type 0 where
    pub policy : Policy
    pub listed : Memᴰ policy order
    pub fits : applies policy req ≡ some true
    pub decision : d ≡ record { allowed = is_allow policy.effect; matched_policy = policy.id }
    pub highest :
        (q : Policy)
        → Memᴰ q order
        → gt_ℤ q.priority policy.priority ≡ true
        → applies q req ≡ some false

  -- No policy applies, and the default stands.
  pub record Defaulted (order : List Policy) (d : Decision) : Type 0 where
    pub decision : d ≡ default_decision default_effect req
    pub unmatched : (q : Policy) → Memᴰ q order → applies q req ≡ some false

  DecidedBy-cons :
      {ps : List Policy} {d : Decision} (p : Policy)
      → applies p req ≡ some false
      → DecidedBy ps d
      → DecidedBy (p ∷ ps) d
  DecidedBy-cons p miss h = record {
    policy = h.policy;
    listed = Memᴰ.tail h.listed;
    fits = h.fits;
    decision = h.decision;
    highest = λ q m above. ⊎_elim (λ e. rw e miss) (λ at. h.highest q at above) (Memᴰ.cases_cons m);
  }

  first_match-Decided :
      (ps : List Policy) (d : Decision)
      → IsSorted ps
      → first_match default_effect req ps ≡ some d
      → DecidedBy ps d ⊎ Defaulted ps d
  unfolding first_match
  first_match-Decided [] d s h =
      inr (record { decision = cc; unmatched = λ q m. absurd (Memᴰ.not-nil m) })
  first_match-Decided (p ∷ ps) d (s, ss) h = elim (Option-cases (applies p req)) [
    | inl panic ↦ absurd (ground arith)
    | inr (true, hit) ↦ inl (record {
      policy = p;
      listed = Memᴰ.head refl;
      fits = hit;
      decision = ground arith;
      highest = λ q m above.
          ⊎_elim
            (λ e.
              absurd (cc (gt_irrefl p.priority, ap (λ (x : Policy). gt_ℤ x.priority p.priority) e)))
            (λ at. absurd (cc (All-at (NotAbove p) at s))) (Memᴰ.cases_cons m);
    })
    | inr (false, miss) ↦
        ⊎_elim (λ by. inl (DecidedBy-cons p miss by))
          (λ none'. inr (record {
            decision = none'.decision;
            unmatched = λ q m. ⊎_elim (λ e. rw e miss) (none'.unmatched q) (Memᴰ.cases_cons m);
          }))
          (first_match-Decided ps d ss (ground arith))
  ]

-- What `Evaluate` decides over the policies of the store, whatever the order in which the map gives
-- them: the decision of a policy that applies and has none above it that applies, or, if none
-- applies, the default.
pub evaluate-Decided :
    (default_effect : Effect) (req : Request) (order : List Policy) (d : Decision)
    → evaluate default_effect req (policies order) ≡ some d
    → DecidedBy default_effect req order d ⊎ Defaulted default_effect req order d
unfolding evaluate policies
evaluate-Decided default_effect req order d h =
    ⊎_elim
      (λ by. inl (record {
        policy = by.policy;
        listed = mem-sort order by.listed;
        fits = by.fits;
        decision = by.decision;
        highest = λ q m above. by.highest q (sort-mem m) above;
      }))
      (λ rest.
        inr (record { decision = rest.decision; unmatched = λ q m. rest.unmatched q (sort-mem m) }))
      (first_match-Decided default_effect req (sort_by_priority order) d (sort-IsSorted order) h)

first_match-total :
    (default_effect : Effect) (req : Request) (ps : List Policy)
    → ((p : Policy) → Memᴰ p ps → applies p req ≢ none)
    → (d : Decision) × (first_match default_effect req ps ≡ some d)
unfolding first_match
first_match-total default_effect req [] calm = (default_decision default_effect req, refl)
first_match-total default_effect req (p ∷ ps) calm = elim (Option-cases (applies p req)) [
  | inl panic ↦ absurd (calm p (Memᴰ.head refl) panic)
  | inr (true, hit) ↦ (record { allowed = is_allow p.effect; matched_policy = p.id }, ground arith)
  | inr (false, miss) ↦
      let (d, e) = first_match-total default_effect req ps (λ q m. calm q (Memᴰ.tail m)) in
      (d, ground arith)
]

-- An evaluation ends with a decision if no condition panics.
pub evaluate-total :
    (default_effect : Effect) (req : Request) (order : List Policy)
    → ((p : Policy) → Memᴰ p order → applies p req ≢ none)
    → (d : Decision) × (evaluate default_effect req (policies order) ≡ some d)
unfolding evaluate policies
evaluate-total default_effect req order calm =
    first_match-total default_effect req (sort_by_priority order) (λ p m. calm p (mem-sort order m))

-- Two decisions over the same policies agree, where the applying policies of one priority agree.
Decided-agree :
    (default_effect : Effect) (req : Request) (xs ys : List Policy) {d e : Decision}
    → ((p : Policy) → Memᴰ p xs → Memᴰ p ys)
    → ((p : Policy) → Memᴰ p ys → Memᴰ p xs)
    → ((p q : Policy)
        → Memᴰ p xs
        → Memᴰ q xs
        → applies p req ≡ some true
        → applies q req ≡ some true
        → gt_ℤ p.priority q.priority ≡ false
        → gt_ℤ q.priority p.priority ≡ false
        → (p.effect ≡ q.effect) × (p.id ≡ q.id))
    → DecidedBy default_effect req xs d ⊎ Defaulted default_effect req xs d
    → DecidedBy default_effect req ys e ⊎ Defaulted default_effect req ys e
    → d ≡ e
Decided-agree default_effect req xs ys to from agree (inl a) (inl b) =
    elim (Bool-cases (gt_ℤ a.policy.priority b.policy.priority)) [
      | inl above ↦ absurd (cc (a.fits, b.highest a.policy (to a.policy a.listed) above))
      | inr low ↦ elim (Bool-cases (gt_ℤ b.policy.priority a.policy.priority)) [
        | inl above ↦ absurd (cc (b.fits, a.highest b.policy (from b.policy b.listed) above))
        | inr low' ↦
            let (effect, id) =
              agree a.policy b.policy a.listed (from b.policy b.listed) a.fits b.fits low low' in
            cc (a.decision, b.decision, effect, id)
      ]
    ]
Decided-agree default_effect req xs ys to from agree (inl a) (inr b) =
    absurd (cc (a.fits, b.unmatched a.policy (to a.policy a.listed)))
Decided-agree default_effect req xs ys to from agree (inr a) (inl b) =
    absurd (cc (b.fits, a.unmatched b.policy (from b.policy b.listed)))
Decided-agree default_effect req xs ys to from agree (inr a) (inr b) = cc (a.decision, b.decision)

-- The order in which the map gives the policies has no say in the decision, if no condition panics
-- and the applying policies of equal priority have one effect and one id.
pub evaluate_order_independent :
    (default_effect : Effect) (req : Request) (xs ys : List Policy)
    → ((p : Policy) → Memᴰ p xs → Memᴰ p ys)
    → ((p : Policy) → Memᴰ p ys → Memᴰ p xs)
    → ((p : Policy) → Memᴰ p xs → applies p req ≢ none)
    → ((p q : Policy)
        → Memᴰ p xs
        → Memᴰ q xs
        → applies p req ≡ some true
        → applies q req ≡ some true
        → gt_ℤ p.priority q.priority ≡ false
        → gt_ℤ q.priority p.priority ≡ false
        → (p.effect ≡ q.effect) × (p.id ≡ q.id))
    → evaluate default_effect req (policies xs) ≡ evaluate default_effect req (policies ys)
evaluate_order_independent default_effect req xs ys to from calm agree =
    let (d, x) = evaluate-total default_effect req xs calm in
    let (e, y) = evaluate-total default_effect req ys (λ p m. calm p (from p m)) in
    let same =
      Decided-agree default_effect req xs ys to from agree
        (evaluate-Decided default_effect req xs d x) (evaluate-Decided default_effect req ys e y) in
    cc (x, y, same)

-- Of two policies of one priority that both apply, the one that the map gives first decides, so a
-- deny has no precedence over an allow.
pub evaluate_tie :
    (default_effect : Effect) (req : Request) (p q : Policy)
    → p.effect ≡ allow
    → q.effect ≡ deny
    → gt_ℤ p.priority q.priority ≡ false
    → gt_ℤ q.priority p.priority ≡ false
    → applies p req ≡ some true
    → applies q req ≡ some true
    → (permits default_effect req (policies (p ∷ q ∷ [])) ≡ some true)
      × (permits default_effect req (policies (q ∷ p ∷ [])) ≡ some false)
unfolding permits policies
evaluate_tie default_effect req p q a b low low' fits fits' = (ground arith, ground arith)

-- With the default of deny a permitted request has a listed allow policy that applies and that no
-- applying policy stands above; and where the store fails nothing is permitted.
pub permits_needs_policy :
    (req : Request) (order : List Policy) (e : Error)
    → (permits deny req (policies order) ≡ some true
        → (p : Policy) × Memᴰ p order
          × (p.effect ≡ allow)
          × (applies p req ≡ some true)
          × ((q : Policy)
              → Memᴰ q order
              → gt_ℤ q.priority p.priority ≡ true
              → applies q req ≡ some false))
      × (permits deny req (err e) ≡ some false)
unfolding permits
permits_needs_policy req order e = (
  λ h. elim (Option-cases (evaluate deny req (policies order))) [
    | inl panic ↦ absurd (ground arith)
    | inr (d, x) ↦
        let yes' : d.allowed ≡ true = ground arith in
        ⊎_elim (λ by. (by.policy, by.listed, ground (arith, by.decision), by.fits, by.highest))
          (λ rest. absurd (ground (arith, rest.decision))) (evaluate-Decided deny req order d x)
  ],
  refl,
)

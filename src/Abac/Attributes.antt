-- ===== src/Abac/Attributes.antt =====
-- abac/types.go and abac/middleware.go: what the conditions read, and where a panic can come from.
use api_security_sdk.Common.{
  String, true, ◌==◌, ◌≡◌, refl, ◌≢◌, ◌↔◌, none, some, List, [], ◌∷◌, map, arith, eq_iff,
  if◌then◌else◌,
}
use api_security_sdk.Common.Values.{Value, nil, str, any_eq, as_text}
use api_security_sdk.Common.Table.{Table, lookup, lookup_or, lookup-insert}
use api_security_sdk.Http
use api_security_sdk.Jwt.{Claims}
use api_security_sdk.Abac.{Attributes, Request, Condition}
use api_security_sdk.Abac.Conditions.{and_all, or_any, negate, attr_equals, owner_is_subject}
use api_security_sdk.Abac.Middleware.{merge, subject_from_claims}

-- De Morgan for the combinators, on every request: the same answer, reached by calls of the same
-- conditions, with the same panic.
pub negate-and_all :
    (cs : List Condition) (req : Request) → negate (and_all cs) req ≡ or_any (map negate cs) req
unfolding negate and_all or_any
negate-and_all [] req = refl
negate-and_all (c ∷ cs) req = ground (arith, negate-and_all cs req)

any_eq-str :
    (v : Value) (s : String)
    → (any_eq v (str s) ≢ none) × ((any_eq v (str s) ≡ some true) ↔ (v ≡ str s))
unfolding any_eq
any_eq-str (str t) s = ground (arith, eq_iff t s)
any_eq-str v s = ground arith

lookup_or-str :
    (attrs : Attributes) (key s : String)
    → (lookup_or nil key attrs ≡ str s) ↔ (lookup key attrs ≡ some (str s))
unfolding lookup_or
lookup_or-str attrs key s = ground arith

as_text-str : (v : Value) → as_text v ≢ "" → v ≡ str (as_text v)
unfolding as_text
as_text-str (str t) h = refl
as_text-str v h = absurd (h refl)

-- A comparison with a text never panics, and holds exactly for the attribute of that text.
pub attr_equals-str :
    (attrs : Attributes) (key s : String)
    → (attr_equals attrs key (str s) ≢ none)
      × ((attr_equals attrs key (str s) ≡ some true) ↔ (lookup key attrs ≡ some (str s)))
unfolding attr_equals
attr_equals-str attrs key s =
    let (calm, (to, from)) = any_eq-str (lookup_or nil key attrs) s in
    let (to', from') = lookup_or-str attrs key s in (calm, (λ h. to' (to h), λ h. from (from' h)))

-- The owner condition never panics, and holds exactly where the owner and the subject's id are one
-- text that is not empty.
pub owner_is_subject_lem :
    (req : Request)
    → (owner_is_subject req ≢ none)
      × ((owner_is_subject req ≡ some true) ↔ (
          (s : String) × (s ≢ "")
          × (lookup "owner" req.resource ≡ some (str s))
          × (lookup "id" req.subject ≡ some (str s))))
unfolding owner_is_subject as_text
owner_is_subject_lem req =
    let o = lookup_or nil "owner" req.resource in
    let i = lookup_or nil "id" req.subject in
    (
      ground arith,
      (
        λ h.
            let full : as_text o ≢ "" = ground (arith, eq_iff (as_text o) "") in
            let same : as_text o ≡ as_text i = ground (arith, eq_iff (as_text o) (as_text i)) in
            (
              as_text o,
              full,
              (lookup_or-str req.resource "owner" (as_text o)).0 (as_text-str o full),
              (lookup_or-str req.subject "id" (as_text o)).0
                  (rw same (as_text-str i (rw (← same) full))),
            ),
        λ (s, full, owner, id).
            rw
              (
                (lookup_or-str req.resource "owner" s).1 owner,
                (lookup_or-str req.subject "id" s).1 id,
              )
              (ground (arith, eq_iff s "", eq_iff s s)),
      ),
    )

lookup-merge :
    (k : String) (custom : Table Value) (attrs : Attributes)
    → lookup k (merge custom attrs)
      ≡ elim (lookup k custom) [ none ↦ lookup k attrs | some v ↦ some v ]
unfolding merge lookup
lookup-merge k [] attrs = refl
lookup-merge k ((j, v) ∷ custom) attrs =
    ground
      (arith, lookup-insert j k v (merge custom attrs), lookup-merge k custom attrs, eq_iff j k)

-- The attributes of a request with claims are its custom claims over the subject as "id": a custom
-- claim of the name "id" takes the place of the subject.
pub lookup-subject_from_claims :
    (r : Http.Request) (claims : Claims) (k : String)
    → r.claims ≡ some claims
    → lookup k (subject_from_claims r) ≡ elim (lookup k claims.custom) [
      | none ↦ (if "id" == k then some (str claims.subject) else none)
      | some v ↦ some v
    ]
unfolding subject_from_claims lookup
lookup-subject_from_claims r claims k h =
    ground (arith, lookup-merge k claims.custom (("id", str claims.subject) ∷ []))

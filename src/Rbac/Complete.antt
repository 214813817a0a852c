-- ===== src/Rbac/Complete.antt =====
-- rbac/rbac.go: with no more than 65 role names in play the search finds every grant.
use api_security_sdk.Common.{
  ℕ, zero, suc, ◌+◌, ◌≤◌, ◌<◌, String, true, false, ◌↔◌, ◌≡◌, refl, sym, ◌∙◌, ◌⊎◌, inl, inr, some,
  List, [], ◌∷◌, Memᴰ, ok, arith, length, any, any_complete, contains, contains_iff, eq_iff, ap,
  ⊎_elim, Bool-cases, Option-cases, Result-cases,
}
use mathlib.Core.List.Memᴰ
use api_security_sdk.Rbac.{
  Role, Store, Search, matches, any_role, check_role, role_has_permission, search, can,
}
use api_security_sdk.Rbac.Grants.{matches_iff, Grants, direct, inherited, Permitted}
use api_security_sdk.Rbac.Sound.{any_role-hit, any_role-miss, search-Ends, can_sound}

-- The names of `universe` that are not yet visited.
abbrev fresh : List String → List String → ℕ
fresh [] visited = 0
fresh (u ∷ us) visited = elim (contains visited u) [
  | true ↦ fresh us visited
  | false ↦ suc (fresh us visited)
]

-- A new name takes itself out of the fresh ones.
fresh-cons_le : (us visited : List String) (n : String) → fresh us (n ∷ visited) ≤ fresh us visited
fresh-cons_le [] visited n = omega arith
fresh-cons_le (u ∷ us) visited n = ground (arith, fresh-cons_le us visited n)

fresh-cons_lt :
    (us visited : List String) (n : String)
    → Memᴰ n us
    → contains visited n ≡ false
    → fresh us (n ∷ visited) < fresh us visited
fresh-cons_lt [] visited n m new = absurd (Memᴰ.not-nil m)
fresh-cons_lt (u ∷ us) visited n (Memᴰ.head e) new =
    ground (arith, fresh-cons_le us visited n, eq_iff n u)
fresh-cons_lt (u ∷ us) visited n (Memᴰ.tail m) new =
    ground (arith, fresh-cons_lt us visited n m new)

module _ (store : Store) (action resource : String) (universe : List String) where
  -- No name outside the list can be met from a name of the list.
  abbrev pub IsClosed : Type 0
  IsClosed =
      (name : String) (role : Role) (parent : String)
      → Memᴰ name universe
      → store.role_of name ≡ ok role
      → Memᴰ parent role.parents
      → Memᴰ parent universe

  -- A visited name is finished: it grants nothing itself, and its parents are visited.
  abbrev Finished : List String → String → Type 0
  Finished seen name =
      (role : Role)
      → store.role_of name ≡ ok role
      → (any (λ p. matches p resource action) role.permissions ≡ false)
        × ((parent : String) → Memᴰ parent role.parents → Memᴰ parent seen)

  -- What a search from `visited` that ends at `seen` without a grant has done.
  record Exhausts (visited seen : List String) : Type 0 where
    grows : (x : String) → Memᴰ x visited → Memᴰ x seen
    bound : length seen + fresh universe seen ≤ 65
    finished : (x : String) → Memᴰ x seen → Memᴰ x visited ⊎ Finished seen x

  Exhausts-trans : {u v w : List String} → Exhausts u v → Exhausts v w → Exhausts u w
  Exhausts-trans a b = record {
    grows = λ x m. b.grows x (a.grows x m);
    bound = b.bound;
    finished = λ x m.
        ⊎_elim
          (λ old.
            ⊎_elim inl
              (λ done. inr (λ role found.
                let (no_grant, parents) = done role found in
                (no_grant, λ p at. b.grows p (parents p at))))
              (a.finished x old))
          inr (b.finished x m);
  }

  -- A search from `n` that found no grant.
  abbrev Misses : (String → List String → Search) → Type 0
  Misses check =
      (n : String) (visited seen : List String)
      → Memᴰ n universe
      → length visited + fresh universe visited ≤ 65
      → check n visited ≡ some (false, seen)
      → Memᴰ n seen × Exhausts visited seen

  Exhausts-refl : (v : List String) → length v + fresh universe v ≤ 65 → Exhausts v v
  Exhausts-refl v h = record { grows = λ x m. m; bound = h; finished = λ x m. inl m }

  any_role-Misses :
      (check : String → List String → Search)
      → Misses check
      → (ns visited seen : List String) → ((n : String) → Memᴰ n ns → Memᴰ n universe)
      → length visited + fresh universe visited ≤ 65
      → any_role check ns visited ≡ some (false, seen)
      → ((n : String) → Memᴰ n ns → Memᴰ n seen) × Exhausts visited seen
  unfolding any_role
  any_role-Misses check misses [] visited seen within b h =
      let same : visited ≡ seen = cc in
      (λ n m. absurd (Memᴰ.not-nil m), rw (← same) (Exhausts-refl visited b))
  any_role-Misses check misses (n ∷ ns) visited seen within b h =
      elim (Option-cases (check n visited)) [
        | inl e ↦ absurd (ground arith)
        | inr ((true, first), e) ↦ absurd (ground (arith, any_role-hit check ns e))
        | inr ((false, first), e) ↦
            let (here, done) = misses n visited first (within n (Memᴰ.head refl)) b e in
            let (later, done') =
              any_role-Misses check misses ns first seen (λ m at. within m (Memᴰ.tail at))
                done.bound (sym (any_role-miss check ns e) ∙ h) in
            (
              λ m at. ⊎_elim (λ same. rw same (done'.grows n here)) (later m) (Memᴰ.cases_cons at),
              Exhausts-trans done done',
            )
      ]

  finish :
      (n : String) (visited seen : List String)
      → Finished seen n
      → Exhausts (n ∷ visited) seen
      → Memᴰ n seen × Exhausts visited seen
  finish n visited seen f d = (
    d.grows n (Memᴰ.head refl),
    record {
      grows = λ x m. d.grows x (Memᴰ.tail m);
      bound = d.bound;
      finished = λ x m.
          ⊎_elim (λ old. ⊎_elim (λ same. inr (rw same f)) inl (Memᴰ.cases_cons old)) inr
            (d.finished x m);
    },
  )

  check_role-Misses :
      IsClosed
      → (check : String → List String → Search) → Misses check
      → (n : String) (visited seen : List String) → Memᴰ n universe
      → length (n ∷ visited) + fresh universe (n ∷ visited) ≤ 65
      → check_role store action resource check n (n ∷ visited) ≡ some (false, seen)
      → Memᴰ n seen × Exhausts visited seen
  unfolding check_role
  check_role-Misses closed check misses n visited seen at b h =
      elim (Result-cases (store.role_of n)) [
        | inr (e, absent) ↦
            let same : n ∷ visited ≡ seen = ground arith in
            rw (← same) (
              finish n visited (n ∷ visited) (λ role found. absurd (cc))
                (Exhausts-refl (n ∷ visited) b))
        | inl (role, found) ↦
            elim (Bool-cases (any (λ p. matches p resource action) role.permissions)) [
              | inl t ↦ absurd (ground arith)
              | inr f ↦
                  let (parents, done) =
                    any_role-Misses check misses role.parents (n ∷ visited) seen
                      (λ p m. closed n role p at found m) b (ground arith) in
                  finish n visited seen
                    (λ role' found'. let same : role' ≡ role = cc in rw same (f, parents)) done
            ]
      ]

  role-Misses : IsClosed → (fuel : ℕ) → Misses (role_has_permission store action resource fuel)
  unfolding role_has_permission
  role-Misses closed zero n visited seen at b h = cc
  role-Misses closed (suc fuel) n visited seen at b h = elim (Bool-cases (contains visited n)) [
    | inl old ↦
        let same : visited ≡ seen = ground arith in
        rw (← same) ((contains_iff visited n).0 old, Exhausts-refl visited b)
    | inr new ↦
        let room = fresh-cons_lt universe visited n at new in
        check_role-Misses closed (role_has_permission store action resource fuel)
          (role-Misses closed fuel) n visited seen at (omega arith) (ground arith)
  ]

  -- Where every visited name is finished, none of them grants the request.
  refutes :
      (seen : List String)
      → ((x : String) → Memᴰ x seen → Finished seen x)
      → {n : String} → Grants store action resource n
      → Memᴰ n seen
      → ⊥
  refutes seen f (direct role found p at c) m =
      let no_grant = (f _ m role found).0 in
      cc (any_complete (λ p. matches p resource action) at ((matches_iff p action resource).1 c))
  refutes seen f (inherited role found parent at g) m =
      refutes seen f g ((f _ m role found).1 parent at)

  fresh-nil : (us : List String) → fresh us [] ≡ length us
  fresh-nil [] = refl
  fresh-nil (u ∷ us) = ap suc (fresh-nil us)

  pub can_complete :
      (subject : String)
      → IsClosed
      → length universe ≤ 65
      → ((names : List String) (n : String)
          → store.roles_of subject ≡ ok names
          → Memᴰ n names
          → Memᴰ n universe)
      → Permitted store subject action resource
      → can store subject action resource ≡ true
  unfolding can search
  can_complete subject closed small within p =
      let names = p.assigned_roles in
      let (g, seen, ends, _) = search-Ends store action resource names in
      elim (Bool-cases g) [
        | inl found ↦ let hit = p.fetched in ground arith
        | inr missed ↦
            let (listed, done) =
              any_role-Misses (role_has_permission store action resource 66) (role-Misses closed 66)
                names [] seen (λ n m. within names n p.fetched m)
                (omega (arith, fresh-nil universe)) (rw missed at ends) in
            absurd (
              refutes seen
                (λ x m. ⊎_elim (λ none'. absurd (Memᴰ.not-nil none')) (λ f. f) (done.finished x m))
                p.granted (listed p.role_name p.listed))
      ]

  -- `Can` is true exactly for what the roles of the subject grant, if the names that the roles and
  -- their parents lead to are in a list of at most 65 names.
  pub can_iff :
      (subject : String)
      → IsClosed
      → length universe ≤ 65
      → ((names : List String) (n : String)
          → store.roles_of subject ≡ ok names
          → Memᴰ n names
          → Memᴰ n universe)
      → (can store subject action resource ≡ true) ↔ Permitted store subject action resource
  can_iff subject closed small within =
      (can_sound store subject action resource, can_complete subject closed small within)

-- ===== src/Abac/Order.antt =====
-- abac/store.go: the stable sort of `Policies` by descending priority.
use mathlib.Core.List.Memᴰ
use api_security_sdk.Common.{
  true, false, ◌≡◌, ◌⊎◌, inl, inr, ⊎_elim, List, [], ◌∷◌, Memᴰ, arith, All, Bool-cases,
}
use api_security_sdk.Common.Int.{ℤ, pos, gt_ℤ}
use api_security_sdk.Abac.{Policy, place, sort_by_priority}

gt_asym : (a b : ℤ) → gt_ℤ a b ≡ true → gt_ℤ b a ≡ false
gt_asym (pos a) (pos b) h = ground arith
gt_asym a b h = ground arith

pub gt_irrefl : (a : ℤ) → gt_ℤ a a ≡ false
gt_irrefl (pos a) = ground arith
gt_irrefl a = ground arith

gt_chain : (a b c : ℤ) → gt_ℤ a b ≡ false → gt_ℤ b c ≡ false → gt_ℤ a c ≡ false
gt_chain (pos a) (pos b) (pos c) h k = ground arith
gt_chain a b c h k = ground arith

-- `q` is not to be evaluated before `p`.
abbrev pub NotAbove : Policy → Policy → Type 0
NotAbove p q = gt_ℤ q.priority p.priority ≡ false

abbrev pub IsSorted : List Policy → Type 0
IsSorted [] = Unit
IsSorted (p ∷ ps) = All (NotAbove p) ps × IsSorted ps

All-weaken :
    (p q : Policy) (ps : List Policy) → NotAbove p q → All (NotAbove q) ps → All (NotAbove p) ps
All-weaken p q [] h k = tt
All-weaken p q (r ∷ rs) h (k, ks) =
    (gt_chain r.priority q.priority p.priority k h, All-weaken p q rs h ks)

All-place :
    (p q : Policy) (ps : List Policy)
    → NotAbove p q
    → All (NotAbove p) ps
    → All (NotAbove p) (place q ps)
unfolding place
All-place p q [] h k = (h, tt)
All-place p q (r ∷ rs) h (k, ks) = ground (arith, All-place p q rs h ks)

place-IsSorted : (p : Policy) (ps : List Policy) → IsSorted ps → IsSorted (place p ps)
unfolding place
place-IsSorted p [] s = (tt, tt)
place-IsSorted p (q ∷ qs) (s, ss) = elim (Bool-cases (gt_ℤ q.priority p.priority)) [
  | inl above ↦
      rw above (All-place q p qs (gt_asym q.priority p.priority above) s, place-IsSorted p qs ss)
  | inr below ↦ rw below ((below, All-weaken p q qs below s), (s, ss))
]

pub sort-IsSorted : (ps : List Policy) → IsSorted (sort_by_priority ps)
unfolding sort_by_priority
sort-IsSorted [] = tt
sort-IsSorted (p ∷ ps) = place-IsSorted p (sort_by_priority ps) (sort-IsSorted ps)

mem-place : {a : Policy} (p : Policy) (ps : List Policy) → Memᴰ a (place p ps) → (a ≡ p) ⊎ Memᴰ a ps
unfolding place
mem-place p [] m = Memᴰ.cases_cons m
mem-place {a} p (q ∷ qs) m = elim (Bool-cases (gt_ℤ q.priority p.priority)) [
  | inl above ↦
      let m' : Memᴰ a (q ∷ place p qs) = rw (above, place) at m in
      ⊎_elim (λ e. inr (Memᴰ.head e))
        (λ at. ⊎_elim inl (λ old. inr (Memᴰ.tail old)) (mem-place p qs at)) (Memᴰ.cases_cons m')
  | inr below ↦ let m' : Memᴰ a (p ∷ q ∷ qs) = rw (below, place) at m in Memᴰ.cases_cons m'
]

place-mem : {a : Policy} (p : Policy) (ps : List Policy) → (a ≡ p) ⊎ Memᴰ a ps → Memᴰ a (place p ps)
unfolding place
place-mem p [] m = ⊎_elim Memᴰ.head Memᴰ.tail m
place-mem p (q ∷ qs) m = elim (Bool-cases (gt_ℤ q.priority p.priority)) [
  | inl above ↦ rw above (
      ⊎_elim (λ e. Memᴰ.tail (place-mem p qs (inl e)))
        (λ old. ⊎_elim Memᴰ.head (λ at. Memᴰ.tail (place-mem p qs (inr at))) (Memᴰ.cases_cons old))
        m)
  | inr below ↦ rw below (⊎_elim Memᴰ.head Memᴰ.tail m)
]

pub mem-sort : {a : Policy} (ps : List Policy) → Memᴰ a (sort_by_priority ps) → Memᴰ a ps
unfolding sort_by_priority
mem-sort [] m = m
mem-sort (p ∷ ps) m =
    ⊎_elim Memᴰ.head (λ at. Memᴰ.tail (mem-sort ps at)) (mem-place p (sort_by_priority ps) m)

pub sort-mem : {a : Policy} {ps : List Policy} → Memᴰ a ps → Memᴰ a (sort_by_priority ps)
unfolding sort_by_priority
sort-mem (Memᴰ.head {x = p} {xs = ps} e) = place-mem p (sort_by_priority ps) (inl e)
sort-mem (Memᴰ.tail {x = p} {xs = ps} m) = place-mem p (sort_by_priority ps) (inr (sort-mem m))

-- ===== src/Tests/Wide.antt =====
-- rbac: a subject with 65 idle roles before its admin role.
use api_security_sdk.Common.{
  ℕ, zero, suc, String, ◌≡◌, refl, ◌<>◌, Bool, true, false, not, ◌&&◌, ◌==◌, List, [], ◌∷◌, ◌++◌,
  Memᴰ, ok, err, arith, All, contains, if◌then◌else◌, inr, inl,
}
use api_security_sdk.Rbac.{Role, Store, role_not_found, can}
use api_security_sdk.Rbac.Grants.{Grants, direct, Permitted}
use api_security_sdk.Rbac.Wide.{AllNew, IsBarren, can_denies_wide}

abbrev admin : Role
admin = record {
  name = "admin";
  parents = [];
  permissions = record { resource = "users"; action = "*" } ∷ [];
}

-- The names "a", "aa" and so on.
abbrev names : ℕ → String → List String
names zero s = []
names (suc n) s = s ∷ names n (s <> "a")

abbrev idle : List String
idle = names 65 "a"

abbrev crowd : Store
crowd = record {
  role_of = λ name. if name == "admin" then ok admin else err role_not_found;
  roles_of = λ _. ok (idle ++ "admin" ∷ []);
}

abbrev all_new : List String → List String → Bool
all_new visited [] = true
all_new visited (n ∷ ns) = not (contains visited n) && all_new (n ∷ visited) ns

all_new_sound : (visited ns : List String) → all_new visited ns ≡ true → AllNew visited ns
all_new_sound visited [] h = tt
all_new_sound visited (n ∷ ns) h = (ground arith, all_new_sound (n ∷ visited) ns (ground arith))

idle_new : all_new [] idle ≡ true
idle_new = refl

barren : (ns : List String) → contains ns "admin" ≡ false → All (IsBarren crowd "read" "users") ns
barren [] h = tt
barren (n ∷ ns) h = (λ role found. absurd (ground arith), barren ns (ground arith))

idle_barren : contains idle "admin" ≡ false
idle_barren = refl

admin_grants : Grants crowd "read" "users" "admin"
admin_grants =
    direct admin refl (record { resource = "users"; action = "*" }) (Memᴰ.head refl)
      (inr refl, inl refl)

can_denies_wide_example :
    Permitted crowd "ann" "read" "users" × (can crowd "ann" "read" "users" ≡ false)
can_denies_wide_example =
    can_denies_wide crowd "ann" "read" "users" idle ("admin" ∷ []) "admin" refl (omega arith)
      (all_new_sound [] idle idle_new) (barren idle idle_barren) (Memᴰ.head refl) admin_grants

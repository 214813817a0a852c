-- ===== src/Tests/Access.antt =====
-- rbac and ginmw on a small store: an admin inherits from an editor, and the two name each other.
use api_security_sdk.Common.{
  String, ◌≡◌, refl, ap, ◌↔◌, Bool, true, false, none, some, List, [], ◌∷◌, Memᴰ, Result, ok, err,
  arith,
}
use mathlib.Core.List.Memᴰ
use api_security_sdk.Common.Table.{lookup, lookup_or, insert}
use api_security_sdk.Common.Int.{pos}
use api_security_sdk.Http.{no_body, Request}
use api_security_sdk.Auth.{subject_from}
use api_security_sdk.Rbac.{
  Permission, Role, MemoryStore, Store, as_store, new_memory_store, add_role, remove_role,
  assign_role, unassign_role, get_role, get_subject_roles, assigned, matches, can, enforce, search,
  permission_denied, role_not_found, any_role, check_role, role_has_permission,
}
use api_security_sdk.Rbac
use api_security_sdk.Rbac.Grants.{Permitted}
use api_security_sdk.Rbac.Sound.{can_sound}
use api_security_sdk.Rbac.Complete.{IsClosed, can_iff}
use api_security_sdk.Rbac.Gate.{search_returns}

abbrev editor : Role
editor = record {
  name = "editor";
  parents = "admin" ∷ [];
  permissions = record { resource = "posts"; action = "write" } ∷ [];
}

abbrev admin : Role
admin = record {
  name = "admin";
  parents = "editor" ∷ [];
  permissions = record { resource = "users"; action = "*" } ∷ [];
}

abbrev staff : MemoryStore
staff = record {
  roles = ("editor", editor) ∷ ("admin", admin) ∷ [];
  subjects = ("ann", "admin" ∷ []) ∷ [];
}

abbrev names : List String
names = "admin" ∷ "editor" ∷ []

built : assign_role (add_role (add_role new_memory_store editor) admin) "ann" "admin" ≡ staff
unfolding new_memory_store add_role assign_role assigned insert lookup_or lookup
built = refl

ann_can_write : can (as_store staff) "ann" "write" "posts" ≡ true
unfolding can search role_has_permission check_role any_role matches get_role get_subject_roles
    assigned lookup lookup_or
ann_can_write = refl

ann_cannot_delete : can (as_store staff) "ann" "delete" "posts" ≡ false
unfolding can search role_has_permission check_role any_role matches get_role get_subject_roles
    assigned lookup lookup_or
ann_cannot_delete = refl

abbrev parents_of : Result Rbac.Error Role → List String
parents_of (ok role) = role.parents
parents_of (err _) = []

abbrev listed_of : Result Rbac.Error (List String) → List String
listed_of (ok ns) = ns
listed_of (err _) = []

closed : IsClosed (as_store staff) "write" "posts" names
unfolding get_role lookup
closed name role parent (Memᴰ.head e) found at =
    let same : "editor" ∷ [] ≡ role.parents = ap parents_of (rw (e, get_role) at found) in
    Memᴰ.tail (rw (← same) at at)
closed name role parent (Memᴰ.tail (Memᴰ.head e)) found at =
    let same : "admin" ∷ [] ≡ role.parents = ap parents_of (rw (e, get_role) at found) in
    elim (rw (← same) at at) [ Memᴰ.head e' ↦ Memᴰ.head e' | Memᴰ.tail m ↦ absurd (Memᴰ.not-nil m) ]
closed name role parent (Memᴰ.tail (Memᴰ.tail m)) found at = absurd (Memᴰ.not-nil m)

within :
    (ns : List String) (n : String)
    → (as_store staff).roles_of "ann" ≡ ok ns
    → Memᴰ n ns
    → Memᴰ n names
unfolding get_subject_roles assigned lookup_or lookup
within ns n fetched at =
    let same : "admin" ∷ [] ≡ ns = ap listed_of fetched in
    elim (rw (← same) at at) [ Memᴰ.head e ↦ Memᴰ.head e | Memᴰ.tail m ↦ absurd (Memᴰ.not-nil m) ]

can_iff_example :
    (can (as_store staff) "ann" "write" "posts" ≡ true)
    ↔ Permitted (as_store staff) "ann" "write" "posts"
can_iff_example = can_iff (as_store staff) "write" "posts" names "ann" closed (omega arith) within

can_sound_example : Permitted (as_store staff) "ann" "write" "posts"
can_sound_example = can_sound (as_store staff) "ann" "write" "posts" ann_can_write

search_returns_example :
    (granted : Bool) × (seen : List String) × (search (as_store staff) "ann" "write" "posts"
      ≡ some (granted, seen))
search_returns_example = search_returns (as_store staff) "ann" "write" "posts"

abbrev guest : Request
guest = record {
  method = "GET";
  path = "/";
  remote_addr = "10.0.0.1:99";
  get_header = λ _. "";
  claims = none;
  api_key = none;
  body = no_body;
  content_length = pos 0;
}

guest_denied : ¬ Permitted (as_store staff) (subject_from guest) "write" "posts"
unfolding subject_from get_subject_roles assigned lookup_or lookup
guest_denied p = Memᴰ.not-nil (rw (← (ap listed_of p.fetched)) at p.listed)

abbrev ann : String
ann = "ann"

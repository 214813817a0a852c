-- ===== src/Http/Headers.antt =====
-- What the header functions of net/http leave under each name.
use api_security_sdk.Common.{ℕ, String, ◌≡◌, ◌==◌, none, some, [], ◌∷◌, ◌++◌, arith, if◌then◌else◌}
use api_security_sdk.Common.Table.{lookup_or, lookup-insert, lookup-delete}
use api_security_sdk.Http.{
  Response, set_header, add_header, write_header, status_of, del_header, header_values,
}

pub header_values-set_header :
    (k j v : String) (w : Response)
    → header_values j (set_header k v w) ≡ (if k == j then v ∷ [] else header_values j w)
unfolding header_values set_header lookup_or
header_values-set_header k j v w = ground (arith, lookup-insert k j (v ∷ []) w.header)

pub header_values-add_header :
    (k j v : String) (w : Response)
    → header_values j (add_header k v w)
      ≡ (if k == j then header_values k w ++ v ∷ [] else header_values j w)
unfolding header_values add_header lookup_or
header_values-add_header k j v w =
    ground (arith, lookup-insert k j (header_values k w ++ v ∷ []) w.header)

pub header_values-del_header :
    (k j : String) (w : Response)
    → header_values j (del_header k w) ≡ (if k == j then [] else header_values j w)
unfolding header_values del_header lookup_or
header_values-del_header k j w = ground (arith, lookup-delete k j w.header)

pub header_values-write_header :
    (k : String) (status : ℕ) (w : Response)
    → header_values k (write_header status w) ≡ header_values k w
unfolding header_values write_header
header_values-write_header k status w = ground arith

pub write_header-status :
    (status : ℕ) (w : Response) → w.sent ≡ none → status_of (write_header status w) ≡ some status
unfolding write_header
write_header-status status w fresh = ground arith

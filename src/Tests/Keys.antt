-- ===== src/Tests/Keys.antt =====
-- apikey: one key is issued, used and revoked.
use api_security_sdk.Common.{
  String, ◌≡◌, refl, ◌≢◌, true, false, some, [], ◌∷◌, ◌<>◌, ok, err, arith, eq_iff, if◌then◌else◌,
}
use api_security_sdk.Common.Int.{pos}
use api_security_sdk.Common.Table.{lookup, insert}
use api_security_sdk.ApiKey.{
  Key, is_expired, IssueOptions, IssuedKey, MemoryStore, new_memory_store, memory_save,
  memory_get_by_id, memory_get_by_hash, memory_revoke, memory_store, generate_base62, plaintext_of,
  key_of, issue, verify, judge, revoked_key, expired_key,
}
use api_security_sdk.ApiKey.Lifecycle.{verify-issue}
use api_security_sdk.ApiKey.Revocation.{
  IsIndexed, Step-IsIndexed, saved, here, more, verify-revoked_forever,
}

abbrev hash_key : String → String
hash_key s = "#" <> s

abbrev opts : IssueOptions
opts = record {
  prefix = "sk";
  label = "ci";
  owner = "ann";
  meta = [];
  expires_in = pos 100;
  size = pos 2;
}

abbrev key : Key
key = record {
  id = "#sk_1a";
  hash = "#sk_1a";
  name = "ci";
  subject = "ann";
  metadata = [];
  created_at = 5;
  expires_at = some 106;
  revoked = false;
}

abbrev held : MemoryStore
held = record { by_id = ("#sk_1a", key) ∷ []; by_hash = ("#sk_1a", "#sk_1a") ∷ [] }

abbrev ended : MemoryStore
ended = record {
  by_id = ("#sk_1a", record key { revoked = true }) ∷ [];
  by_hash = ("#sk_1a", "#sk_1a") ∷ [];
}

abbrev issued : IssuedKey
issued = record { plaintext = "sk_1a"; key = key }

issues :
    issue hash_key memory_store opts (ok 1 ∷ ok 36 ∷ []) 5 6 new_memory_store ≡ ok (issued, held)
unfolding issue generate_base62 plaintext_of key_of memory_save insert new_memory_store
issues = refl

verifies : verify hash_key memory_store 50 "sk_1a" held ≡ ok key
unfolding verify judge is_expired memory_get_by_hash memory_get_by_id lookup
verifies = refl

late : verify hash_key memory_store 107 "sk_1a" held ≡ err expired_key
unfolding verify judge is_expired memory_get_by_hash memory_get_by_id lookup
late = refl

revokes : memory_revoke held "#sk_1a" ≡ ok ended
unfolding memory_revoke insert lookup
revokes = refl

verify-issue_example :
    verify hash_key memory_store 50 "sk_1a" held
    ≡ (if is_expired 50 key then err expired_key else ok key)
verify-issue_example =
    verify-issue hash_key opts (ok 1 ∷ ok 36 ∷ []) 5 6 50 new_memory_store held issued issues

none_saved : IsIndexed new_memory_store
unfolding new_memory_store lookup
none_saved = record {
  under_id = λ id k e. absurd (ground arith);
  no_dangling = λ hash id e. absurd (ground arith);
}

saves : memory_save new_memory_store key ≡ ok held
unfolding memory_save insert new_memory_store
saves = refl

held-IsIndexed : IsIndexed held
held-IsIndexed = Step-IsIndexed (saved key saves) none_saved

abbrev other : Key
other = record key { id = "#sk_22"; hash = "#sk_22" }

abbrev both : MemoryStore
both = record {
  by_id = ("#sk_1a", key) ∷ ("#sk_22", other) ∷ [];
  by_hash = ("#sk_1a", "#sk_1a") ∷ ("#sk_22", "#sk_22") ∷ [];
}

abbrev other_left : MemoryStore
other_left = record both {
  by_id = ("#sk_1a", record key { revoked = true }) ∷ ("#sk_22", other) ∷ [];
}

saves_other : memory_save held other ≡ ok both
unfolding memory_save insert
saves_other = refl

saves_later : memory_save ended other ≡ ok other_left
unfolding memory_save insert
saves_later = refl

verifies_other : verify hash_key memory_store 50 "sk_22" other_left ≡ ok other
unfolding verify judge is_expired memory_get_by_hash memory_get_by_id lookup
verifies_other = refl

refuses_revoked : verify hash_key memory_store 50 "sk_1a" other_left ≡ err revoked_key
unfolding verify judge is_expired memory_get_by_hash memory_get_by_id lookup
refuses_revoked = refl

apart : other.id ≢ "#sk_1a"
apart = λ e. absurd (ground (arith, (eq_iff "#sk_22" "#sk_1a").1 e))

verify-revoked_forever_example : other.id ≢ "#sk_1a"
verify-revoked_forever_example =
    verify-revoked_forever hash_key 50 "sk_22" "#sk_1a" held ended other_left other held-IsIndexed
      revokes (more here (saved other saves_later) apart) verifies_other

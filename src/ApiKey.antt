-- ===== src/ApiKey.antt =====
-- apikey/apikey.go and apikey/store.go: keys, the memory store and the service.
-- A time is a number of nanoseconds, and the readings of the clock are arguments. The SHA-256 of a
-- text in hexadecimal is the argument `hash_key`, and the random numbers are a list of draws.
pub mod Middleware
pub mod Lifecycle
pub mod Revocation
use Prim.Native.Char.{Char}
use Prim.Native.String
use api_security_sdk.Common.{
  ℕ, zero, suc, ◌+◌, String, Bool, true, false, not, ◌&&◌, ◌==◌, ◌<>◌, Option, none, some, List, [],
  ◌∷◌, Result, ok, err, ltb, if◌then◌else◌, take_text, char_at?,
}
use api_security_sdk.Common.Int.{ℤ, pos, negsuc, positive_or}
use api_security_sdk.Common.Values.{Value}
use api_security_sdk.Common.Table.{Table, lookup, insert}

-- ErrInvalidKey, ErrRevokedKey, ErrExpiredKey, ErrKeyNotFound; a failure of the random source; a
-- failure of another store; and an index out of range, which panics.
pub data Error : Type 0 where
  invalid_key revoked_key expired_key key_not_found : Error
  generate_failed backend : String → Error
  out_of_range : Error

pub record Key : Type 0 where
  pub id : String
  pub hash : String
  pub name : String
  pub subject : String
  pub metadata : Table Value
  pub created_at : ℕ
  pub expires_at : Option ℕ
  pub revoked : Bool

-- `time.Now().After(*k.ExpiresAt)`
unfoldable pub is_expired : ℕ → Key → Bool
is_expired now k = elim k.expires_at [ none ↦ false | some t ↦ ltb t now ]

pub record IssueOptions : Type 0 where
  pub prefix : String
  pub label : String
  pub owner : String
  pub meta : Table Value
  pub expires_in : ℤ
  pub size : ℤ

pub record IssuedKey : Type 0 where
  pub plaintext : String
  pub key : Key

-- The interface `Store`, as far as the service calls it, over the state of a backend.
pub record Store (S : Type 0) : Type 0 where
  pub save : S → Key → Result Error S
  pub get_by_hash : S → String → Result Error Key
  pub revoke : S → String → Result Error S

pub record MemoryStore : Type 0 where
  pub by_id : Table Key
  pub by_hash : Table String

unfoldable pub new_memory_store : MemoryStore
new_memory_store = record { by_id = []; by_hash = [] }

module _ (s : MemoryStore) where
  unfoldable pub memory_save : Key → Result Error MemoryStore
  memory_save k =
      ok (record { by_id = insert k.id k s.by_id; by_hash = insert k.hash k.id s.by_hash })

  unfoldable pub memory_get_by_id : String → Result Error Key
  memory_get_by_id id = elim (lookup id s.by_id) [ none ↦ err key_not_found | some k ↦ ok k ]

  unfoldable pub memory_get_by_hash : String → Result Error Key
  unfolding memory_get_by_id
  memory_get_by_hash hash = elim (lookup hash s.by_hash) [
    | none ↦ err key_not_found
    | some id ↦ memory_get_by_id id
  ]

  unfoldable pub memory_revoke : String → Result Error MemoryStore
  memory_revoke id = elim (lookup id s.by_id) [
    | none ↦ err key_not_found
    | some k ↦ ok (record s { by_id = insert id (record k { revoked = true }) s.by_id })
  ]

-- The loop of `ListBySubject`; Go gives the entries of `byID` in no order of its own.
unfoldable pub owned_by : String → Table Key → List Key
owned_by subject [] = []
owned_by subject ((_, k) ∷ m) =
    if k.subject == subject then k ∷ owned_by subject m else owned_by subject m

unfoldable pub list_by_subject : MemoryStore → String → Result Error (List Key)
unfolding owned_by
list_by_subject s subject = ok (owned_by subject s.by_id)

abbrev pub memory_store : Store MemoryStore
memory_store = record {
  save = memory_save;
  get_by_hash = memory_get_by_hash;
  revoke = memory_revoke;
}

abbrev pub base62_chars : String
base62_chars = "0123456789ABCDEFGHIJKLMNOPQRSTUVWXYZabcdefghijklmnopqrstuvwxyz"

-- `rand.Int(rand.Reader, max)` once for each character: a draw, or the reader's error.
unfoldable pub generate_base62 : ℕ → List (Result Error ℕ) → Result Error String
generate_base62 zero draws = ok ""
generate_base62 (suc n) [] = err (generate_failed "no more randomness")
generate_base62 (suc n) (err e ∷ draws) = err e
generate_base62 (suc n) (ok d ∷ draws) = elim (char_at? base62_chars d) [
  | none ↦ err out_of_range
  | some c ↦ elim (generate_base62 n draws) [ err e ↦ err e | ok rest ↦ ok (String.◌∷◌ c rest) ]
]

-- `opts.Prefix + "_" + random`, or the random part alone
unfoldable pub plaintext_of : String → String → String
plaintext_of prefix random = if prefix == "" then random else prefix <> "_" <> random

-- The tests of `Verify` on the record that was found; the constant-time comparison is `==`.
unfoldable pub judge : ℕ → String → Key → Result Error Key
unfolding is_expired
judge now hash k =
    if not (k.hash == hash)
    then err invalid_key
    else if k.revoked
    then err revoked_key
    else if is_expired now k
    then err expired_key
    else ok k

module _ (hash_key : String → String) where
  -- The record that `Issue` saves; the clock is read for the creation and, later, for the expiry.
  unfoldable pub key_of : IssueOptions → String → (now later : ℕ) → Key
  key_of opts plaintext now later = record {
    id = take_text 16 (hash_key plaintext);
    hash = hash_key plaintext;
    name = opts.label;
    subject = opts.owner;
    metadata = opts.meta;
    created_at = now;
    expires_at = elim opts.expires_in [
      | pos n ↦ if ltb 0 n then some (later + n) else none
      | negsuc n ↦ none
    ];
    revoked = false;
  }

module _ (hash_key : String → String) {S : Type 0} (store : Store S) where
  unfoldable pub issue :
      IssueOptions → List (Result Error ℕ) → (now later : ℕ) → S → Result Error (IssuedKey × S)
  unfolding plaintext_of key_of
  issue opts draws now later s = elim (generate_base62 (positive_or 40 opts.size) draws) [
    | err e ↦ err e
    | ok random ↦
        let plaintext = plaintext_of opts.prefix random in
        let k = key_of hash_key opts plaintext now later in
        elim (store.save s k) [
          | err e ↦ err e
          | ok s' ↦ ok (record { plaintext = plaintext; key = k }, s')
        ]
  ]

  unfoldable pub verify : ℕ → String → S → Result Error Key
  unfolding judge
  verify now plaintext s = elim (store.get_by_hash s (hash_key plaintext)) [
    | err e ↦ err invalid_key
    | ok k ↦ judge now (hash_key plaintext) k
  ]

  unfoldable pub revoke_key : String → S → Result Error S
  revoke_key id s = store.revoke s id

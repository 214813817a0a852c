-- ===== src/ApiKey/Lifecycle.antt =====
-- apikey/apikey.go over apikey/store.go: what `Verify` answers after `Issue` and `Revoke`.
use api_security_sdk.Common.{
  ℕ, String, false, ◌≡◌, refl, List, Result, ok, err, inl, inr, arith, eq_iff, if◌then◌else◌,
  Result-cases,
}
use api_security_sdk.Common.Table.{insert, lookup-insert}
use api_security_sdk.ApiKey.{
  Error, expired_key, Key, is_expired, IssueOptions, IssuedKey, Store, MemoryStore, memory_save,
  memory_get_by_id, memory_get_by_hash, memory_store, key_of, issue, judge, verify,
}

judge_sound :
    (now : ℕ) (hash : String) (k k' : Key)
    → judge now hash k ≡ ok k'
    → (k ≡ k') × (k'.hash ≡ hash) × (k'.revoked ≡ false) × (is_expired now k' ≡ false)
unfolding judge
judge_sound now hash k k' h = ground (arith, eq_iff k.hash hash)

-- `Verify` returns only a live key whose hash is that of the plaintext, whatever the store.
pub verify_sound :
    (hash_key : String → String) {S : Type 0} (store : Store S) (now : ℕ) (plaintext : String)
    (s : S) (k : Key)
    → verify hash_key store now plaintext s ≡ ok k
    → (store.get_by_hash s (hash_key plaintext) ≡ ok k)
      × (k.hash ≡ hash_key plaintext)
      × (k.revoked ≡ false)
      × (is_expired now k ≡ false)
unfolding verify
verify_sound hash_key store now plaintext s k h =
    elim (Result-cases (store.get_by_hash s (hash_key plaintext))) [
      | inl (k', found) ↦
          let (same, hash, live, fresh) =
            judge_sound now (hash_key plaintext) k' k (ground arith) in
          (cc, hash, live, fresh)
      | inr (e, missing) ↦ absurd (ground arith)
    ]

-- The memory store after `Save`.
abbrev after_save : MemoryStore → Key → MemoryStore
after_save s k = record { by_id = insert k.id k s.by_id; by_hash = insert k.hash k.id s.by_hash }

get-after_save : (s : MemoryStore) (k : Key) → memory_get_by_hash (after_save s k) k.hash ≡ ok k
unfolding memory_get_by_hash memory_get_by_id
get-after_save s k = ground (
  arith,
  lookup-insert k.hash k.hash k.id s.by_hash,
  lookup-insert k.id k.id k s.by_id,
  eq_iff k.hash k.hash,
  eq_iff k.id k.id,
)

module _ (hash_key : String → String) where
  issue-eq-ok :
      (opts : IssueOptions) (draws : List (Result Error ℕ)) (now later : ℕ) (s s' : MemoryStore)
      (issued : IssuedKey)
      → issue hash_key memory_store opts draws now later s ≡ ok (issued, s')
      → (issued.key ≡ key_of hash_key opts issued.plaintext now later)
        × (s' ≡ after_save s issued.key)
  unfolding issue memory_save
  issue-eq-ok opts draws now later s s' issued h = ground arith

  judge-key_of :
      (opts : IssueOptions) (plaintext : String) (now later t : ℕ)
      → judge t (hash_key plaintext) (key_of hash_key opts plaintext now later) ≡ (
          if is_expired t (key_of hash_key opts plaintext now later)
          then err expired_key
          else ok (key_of hash_key opts plaintext now later))
  unfolding judge key_of
  judge-key_of opts plaintext now later t =
      ground (arith, eq_iff (hash_key plaintext) (hash_key plaintext))

  -- After an `Issue` without an error on the memory store, `Verify` of the plaintext gives the
  -- record that was issued, or ErrExpiredKey once the key has expired.
  pub verify-issue :
      (opts : IssueOptions) (draws : List (Result Error ℕ)) (now later t : ℕ) (s s' : MemoryStore)
      (issued : IssuedKey)
      → issue hash_key memory_store opts draws now later s ≡ ok (issued, s')
      → verify hash_key memory_store t issued.plaintext s'
        ≡ (if is_expired t issued.key then err expired_key else ok issued.key)
  unfolding verify
  verify-issue opts draws now later t s s' issued h =
      let (made, saved) = issue-eq-ok opts draws now later s s' issued h in
      let hash : issued.key.hash ≡ hash_key issued.plaintext =
        rw made (key_of-hash opts issued.plaintext now later) in
      let found : memory_get_by_hash s' (hash_key issued.plaintext) ≡ ok issued.key =
        rw saved (rw (← hash) (get-after_save s issued.key)) in
      rw (found, verify) (rw made (judge-key_of opts issued.plaintext now later t))
    where
      key_of-hash :
          (opts : IssueOptions) (p : String) (now later : ℕ)
          → (key_of hash_key opts p now later).hash ≡ hash_key p
      key_of-hash opts p now later = unfold key_of in refl

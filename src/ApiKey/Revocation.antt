-- ===== src/ApiKey/Revocation.antt =====
-- apikey/store.go: the invariant of the two maps, and what revocation means over time.
use api_security_sdk.Common.{
  ℕ, String, Bool, true, false, ◌==◌, ◌≡◌, sym, ◌∙◌, subst, ap, ◌≢◌, ◌↔◌, Option, none, some, inl,
  inr, arith, eq_iff, ok, err, if◌then◌else◌, Bool-cases, Option-cases, Result-cases,
}
use api_security_sdk.Common.Table.{lookup, insert, lookup-insert, lookup-insert_self}
use api_security_sdk.ApiKey.{
  Error, invalid_key, Key, MemoryStore, memory_save, memory_get_by_id, memory_get_by_hash,
  memory_revoke, memory_store, judge, verify,
}
use api_security_sdk.ApiKey.Lifecycle.{verify_sound}

-- A key stands under its id, and a hash leads to a stored key.
pub record IsIndexed (s : MemoryStore) : Type 0 where
  pub under_id : (id : String) (k : Key) → lookup id s.by_id ≡ some k → k.id ≡ id
  pub no_dangling :
      (hash id : String)
      → lookup hash s.by_hash ≡ some id
      → (k : Key) × (lookup id s.by_id ≡ some k)

-- A change of the store by `Save` or `Revoke`.
pub data Step (s t : MemoryStore) : Type 0 where
  saved : (k : Key) → memory_save s k ≡ ok t → Step s t
  revoked_one : (id : String) → memory_revoke s id ≡ ok t → Step s t

module _ (s t : MemoryStore) (id : String) where
  revoke-eq-ok :
      memory_revoke s id ≡ ok t
      → (k : Key) × (lookup id s.by_id ≡ some k)
        × (t ≡ record s { by_id = insert id (record k { revoked = true }) s.by_id })
  unfolding memory_revoke
  revoke-eq-ok h = elim (Option-cases (lookup id s.by_id)) [
    | inl missing ↦ absurd (ground arith)
    | inr (k, found) ↦ (k, found, ground arith)
  ]

lookup-save :
    (s t : MemoryStore) (k : Key) (id hash : String)
    → memory_save s k ≡ ok t
    → (lookup id t.by_id ≡ (if k.id == id then some k else lookup id s.by_id))
      × (lookup hash t.by_hash ≡ (if k.hash == hash then some k.id else lookup hash s.by_hash))
unfolding memory_save
lookup-save s t k id hash h =
    ground (arith, lookup-insert k.id id k s.by_id, lookup-insert k.hash hash k.id s.by_hash)

-- Every change keeps the invariant.
pub Step-IsIndexed : {s t : MemoryStore} → Step s t → IsIndexed s → IsIndexed t
Step-IsIndexed {s} {t} (saved k h) v = record {
  under_id = λ id k' e. ground (arith, lookup-save s t k id "" h, v.under_id id k', eq_iff k.id id);
  no_dangling = λ hash id e. elim (Bool-cases (k.id == id)) [
    | inl same ↦ (k, ground (arith, lookup-save s t k id hash h))
    | inr other ↦
        let old : lookup hash s.by_hash ≡ some id =
          ground (arith, lookup-save s t k id hash h, eq_iff k.id id) in
        let (k', found) = v.no_dangling hash id old in
        (k', ground (arith, lookup-save s t k id hash h))
  ];
}
Step-IsIndexed {s} {t} (revoked_one id h) v =
    let (k, found, changed) = revoke-eq-ok s t id h in
    let marked = record k { revoked = true } in
    rw changed (record {
      under_id = λ j k' e. ground (
        arith,
        lookup-insert id j marked s.by_id,
        v.under_id j k',
        v.under_id id k found,
        eq_iff id j,
      );
      no_dangling = λ hash j e.
          let (k', old) = v.no_dangling hash j e in
          elim (Bool-cases (id == j)) [
            | inl same ↦ (marked, ground (arith, lookup-insert id j marked s.by_id))
            | inr other ↦ (k', ground (arith, lookup-insert id j marked s.by_id))
          ];
    })

module _ (s t : MemoryStore) (id : String) (v : IsIndexed s) (h : memory_revoke s id ≡ ok t) where
  -- What a hash leads to after `Revoke`: the same record, marked if it has the id.
  get-after_revoke :
      (hash : String) (k : Key)
      → memory_get_by_hash s hash ≡ ok k
      → memory_get_by_hash t hash ≡ ok (if id == k.id then record k { revoked = true } else k)
  unfolding memory_get_by_hash memory_get_by_id
  get-after_revoke hash k e =
      let (k', found, changed) = revoke-eq-ok s t id h in
      elim (Option-cases (lookup hash s.by_hash)) [
        | inl missing ↦ absurd (ground arith)
        | inr (j, leads) ↦ elim (Option-cases (lookup j s.by_id)) [
          | inl missing ↦ absurd (ground arith)
          | inr (kj, there) ↦
              let same : kj ≡ k = ground arith in
              let under : k.id ≡ j = v.under_id j k (rw (← same) there) in
              rw changed (
                ground (
                  arith,
                  lookup-insert id j (record k' { revoked = true }) s.by_id,
                  eq_iff id j,
                  eq_iff id k.id,
                ))
        ]
      ]

  get-before_revoke :
      (hash : String) (e : Error)
      → memory_get_by_hash s hash ≡ err e
      → memory_get_by_hash t hash ≡ err e
  unfolding memory_get_by_hash memory_get_by_id
  get-before_revoke hash e g =
      let (k', found, changed) = revoke-eq-ok s t id h in
      elim (Option-cases (lookup hash s.by_hash)) [
        | inl missing ↦ rw changed (ground arith)
        | inr (j, leads) ↦ let (k, there) = v.no_dangling hash j leads in absurd (ground arith)
      ]

judge-marked :
    (now : ℕ) (hash : String) (k k' : Key) → judge now hash (record k { revoked = true }) ≢ ok k'
unfolding judge
judge-marked now hash k k' h = ground arith

judge-same : (now : ℕ) (hash : String) (k k' : Key) → judge now hash k ≡ ok k' → k ≡ k'
unfolding judge
judge-same now hash k k' h = ground arith

-- In a store whose keys stand under their ids and whose hashes lead to stored keys, after a
-- `Revoke` without an error exactly the keys of other ids verify, and those as before.
pub verify-revoke_iff :
    (hash_key : String → String) (now : ℕ) (plaintext id : String) (s t : MemoryStore) (k : Key)
    → IsIndexed s
    → memory_revoke s id ≡ ok t
    → (verify hash_key memory_store now plaintext t ≡ ok k)
      ↔ ((verify hash_key memory_store now plaintext s ≡ ok k) × (k.id ≢ id))
unfolding verify
verify-revoke_iff hash_key now plaintext id s t k v h =
    elim (Result-cases (memory_get_by_hash s (hash_key plaintext))) [
      | inr (e, missing) ↦
          ground (arith, get-before_revoke s t id v h (hash_key plaintext) e missing)
      | inl (k', found) ↦ ground (
        arith,
        get-after_revoke s t id v h (hash_key plaintext) k' found,
        judge-marked now (hash_key plaintext) k' k,
        judge-same now (hash_key plaintext) k' k,
        eq_iff id k'.id,
      )
    ]

-- A change that saves no key under the id.
abbrev pub Spares : String → {s t : MemoryStore} → Step s t → Type 0
Spares id (saved k _) = k.id ≢ id
Spares id (revoked_one _ _) = Unit

-- The states that such changes lead to.
pub data Later (id : String) (s : MemoryStore) : MemoryStore → Type 0 where
  here : Later id s s
  more : {t u : MemoryStore} → Later id s t → (st : Step t u) → Spares id st → Later id s u

-- The invariant, with every key under the id revoked.
record IsRevoked (id : String) (s : MemoryStore) : Type 0 where
  indexed : IsIndexed s
  dead : (k : Key) → lookup id s.by_id ≡ some k → k.revoked ≡ true

Step-dead :
    (id : String) {s t : MemoryStore} (st : Step s t)
    → Spares id st
    → ((k : Key) → lookup id s.by_id ≡ some k → k.revoked ≡ true)
    → (k : Key) → lookup id t.by_id ≡ some k
    → k.revoked ≡ true
Step-dead id {s} {t} (saved k h) other dead k' e =
    ground (arith, lookup-save s t k id "" h, dead k', eq_iff k.id id)
Step-dead id {s} {t} (revoked_one j h) _ dead k' e =
    let (k, found, changed) = revoke-eq-ok s t j h in
    let e' : lookup id (insert j (record k { revoked = true }) s.by_id) ≡ some k' =
      rw changed at e in
    ground (arith, lookup-insert j id (record k { revoked = true }) s.by_id, dead k')

Later-IsRevoked : {id : String} {s t : MemoryStore} → IsRevoked id s → Later id s t → IsRevoked id t
Later-IsRevoked r here = r
Later-IsRevoked {id} r (more l st spared) =
    let r' = Later-IsRevoked r l in
    record { indexed = Step-IsIndexed st r'.indexed; dead = Step-dead id st spared r'.dead }

stored-under :
    (s : MemoryStore) (hash id : String) (k : Key)
    → IsIndexed s
    → k.id ≡ id
    → memory_get_by_hash s hash ≡ ok k
    → lookup id s.by_id ≡ some k
unfolding memory_get_by_hash memory_get_by_id
stored-under s hash id k v same_id e = elim (Option-cases (lookup hash s.by_hash)) [
  | inl missing ↦ absurd (ground arith)
  | inr (j, leads) ↦ elim (Option-cases (lookup j s.by_id)) [
    | inl missing ↦ absurd (ground arith)
    | inr (kj, there) ↦
        let same : kj ≡ k = ground arith in
        let there' : lookup j s.by_id ≡ some k = rw (← same) there in
        subst (λ x. lookup x s.by_id ≡ some k) (sym (v.under_id j k there') ∙ same_id) there'
  ]
]

-- In a store whose keys stand under their ids and whose hashes lead to stored keys, a key that is
-- revoked never verifies again: not in any state that later saves and revocations lead to, as long
-- as none of them saves a key under the same id.
pub verify-revoked_forever :
    (hash_key : String → String) (now : ℕ) (plaintext id : String) (s t u : MemoryStore) (k : Key)
    → IsIndexed s
    → memory_revoke s id ≡ ok t
    → Later id t u
    → verify hash_key memory_store now plaintext u ≡ ok k
    → k.id ≢ id
verify-revoked_forever hash_key now plaintext id s t u k v h later verified same =
    let (k', found, changed) = revoke-eq-ok s t id h in
    let start : IsRevoked id t = record {
      indexed = Step-IsIndexed (revoked_one id h) v;
      dead = λ j e. ground (
        arith,
        ap (λ (x : MemoryStore). lookup id x.by_id) changed,
        lookup-insert_self id (record k' { revoked = true }) s.by_id,
      );
    } in
    let end = Later-IsRevoked start later in
    let (got, _, live, _) = verify_sound hash_key memory_store now plaintext u k verified in
    let there = stored-under u (hash_key plaintext) id k end.indexed same got in
    cc (end.dead k there, live)

-- Whether the hash led to the id.
abbrev pub contains_id : String → Option String → Bool
contains_id id none = false
contains_id id (some j) = id == j

-- Saving a key leaves the verdict on every other plaintext, except that a key whose id is saved
-- again stops verifying.
pub verify-save :
    (hash_key : String → String) (now : ℕ) (plaintext : String) (s t : MemoryStore) (k : Key)
    → memory_save s k ≡ ok t
    → hash_key plaintext ≢ k.hash
    → verify hash_key memory_store now plaintext t ≡ (
        if contains_id k.id (lookup (hash_key plaintext) s.by_hash)
        then err invalid_key
        else verify hash_key memory_store now plaintext s)
unfolding verify memory_get_by_hash memory_get_by_id judge
verify-save hash_key now plaintext s t k h other =
    elim (Option-cases (lookup (hash_key plaintext) s.by_hash)) [
      | inl missing ↦
          ground
            (arith, lookup-save s t k "" (hash_key plaintext) h, eq_iff k.hash (hash_key plaintext))
      | inr (j, leads) ↦ ground (
        arith,
        lookup-save s t k j (hash_key plaintext) h,
        eq_iff k.hash (hash_key plaintext),
        eq_iff k.id j,
      )
    ]

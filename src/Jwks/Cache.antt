-- ===== src/Jwks/Cache.antt =====
-- auth/jwks/jwks.go: which key the cache holds under a name, and which key a token gets.
use api_security_sdk.Common.{
  String, ◌≡◌, ap, ◌↔◌, ◌≢◌, ◌||◌, ◌==◌, some, List, [], ◌∷◌, arith, Result-cases, Bool-cases, inl,
  inr, ok, eq_iff, ◌⊎◌, All, subst,
}
use api_security_sdk.Common.Table.{Table, lookup, insert, lookup-insert}
use api_security_sdk.Jwks.Key.{PublicKey, RawJwk, to_public_key}
use api_security_sdk.Jwks.{use_key, load_keys}

-- An entry that a fetch takes, with its key.
pub record Usable (raw : RawJwk) (key : PublicKey) : Type 0 where
  pub for_signing : (raw.use_for ≡ "") ⊎ (raw.use_for ≡ "sig")
  pub converts : to_public_key raw ≡ ok key

-- An entry that leaves a name as it is.
abbrev pub Skipped : String → RawJwk → Type 0
Skipped kid raw = (key : PublicKey) → raw.kid ≡ kid → ¬ Usable raw key

-- The last usable entry of a name.
pub data Last (kid : String) (key : PublicKey) : List RawJwk → Type 0 where
  here :
      {raw : RawJwk} {raws : List RawJwk}
      → raw.kid ≡ kid
      → Usable raw key
      → All (Skipped kid) raws
      → Last kid key (raw ∷ raws)
  there : {raw : RawJwk} {raws : List RawJwk} → Last kid key raws → Last kid key (raw ∷ raws)

-- Whether an entry is usable.
usable :
    (raw : RawJwk) → ((key : PublicKey) × Usable raw key) ⊎ ((key : PublicKey) → ¬ Usable raw key)
usable raw = elim (Bool-cases (raw.use_for == "" || raw.use_for == "sig")) [
  | inl signs ↦ elim (Result-cases (to_public_key raw)) [
    | inl (key, e) ↦ inl (
      key,
      record {
        for_signing = ground (arith, eq_iff raw.use_for "", eq_iff raw.use_for "sig");
        converts = e;
      },
    )
    | inr (x, e) ↦ inr (λ key u. absurd (ground (arith, u.converts)))
  ]
  | inr other ↦ inr (λ key u.
      absurd (ground (arith, u.for_signing, eq_iff raw.use_for "", eq_iff raw.use_for "sig")))
]

module _ (keys : Table PublicKey) (raw : RawJwk) where
  use_key-Usable : (key : PublicKey) → Usable raw key → use_key keys raw ≡ insert raw.kid key keys
  unfolding use_key
  use_key-Usable key u =
      ground (arith, u.for_signing, u.converts, eq_iff raw.use_for "", eq_iff raw.use_for "sig")

  use_key-unusable : ((key : PublicKey) → ¬ Usable raw key) → use_key keys raw ≡ keys
  unfolding use_key
  use_key-unusable unusable = elim (Bool-cases (raw.use_for == "" || raw.use_for == "sig")) [
    | inl signs ↦ elim (Result-cases (to_public_key raw)) [
      | inl (key, e) ↦ absurd (
          unusable key (record {
            for_signing = ground (arith, eq_iff raw.use_for "", eq_iff raw.use_for "sig");
            converts = e;
          }))
      | inr (x, e) ↦ ground arith
    ]
    | inr other ↦ ground arith
  ]

  lookup-use_key :
      (kid : String) (key : PublicKey)
      → (lookup kid (use_key keys raw) ≡ some key)
        ↔ ((raw.kid ≡ kid) × Usable raw key) ⊎ (Skipped kid raw × (lookup kid keys ≡ some key))
  lookup-use_key kid key = elim (usable raw) [
    | inl (made, u) ↦
        rw (use_key-Usable made u) rw (lookup-insert raw.kid kid made keys)
          elim (Bool-cases (raw.kid == kid)) [
            | inl e ↦
                rw e
                  let named = (eq_iff raw.kid kid).0 e in
                    (
                      λ h.
                          let same : made ≡ key = ground arith in
                          inl (named, subst (Usable raw) same u),
                      λ found. elim found [
                        | inl (_, u') ↦
                            let same : made ≡ key = ground (arith, u.converts, u'.converts) in
                            ap some same
                        | inr (skip, _) ↦ absurd (skip made named u)
                      ],
                    )
            | inr e ↦ rw e (
              λ h. inr (λ k named. absurd (ground (arith, eq_iff raw.kid kid)), h),
              λ found. elim found [
                | inl (named, _) ↦ absurd (ground (arith, eq_iff raw.kid kid))
                | inr (_, h) ↦ h
              ],
            )
          ]
    | inr unusable ↦ rw (use_key-unusable unusable) (
      λ h. inr (λ k named. unusable k, h),
      λ found. elim found [ inl (named, u) ↦ absurd (unusable key u) | inr (_, h) ↦ h ],
    )
  ]

Last-nil : {kid : String} {key : PublicKey} → ¬ Last kid key []
Last-nil l = elim l [ ]

Last-cons :
    {kid : String} {key : PublicKey} {raw : RawJwk} {raws : List RawJwk}
    → Last kid key (raw ∷ raws)
    → Last kid key raws ⊎ ((raw.kid ≡ kid) × Usable raw key × All (Skipped kid) raws)
Last-cons (here named u skipped) = inr (named, u, skipped)
Last-cons (there l) = inl l

lookup-load_keys_from :
    (keys : Table PublicKey) (kid : String) (key : PublicKey) (raws : List RawJwk)
    → (lookup kid (load_keys keys raws) ≡ some key)
      ↔ Last kid key raws ⊎ (All (Skipped kid) raws × (lookup kid keys ≡ some key))
unfolding load_keys
lookup-load_keys_from keys kid key [] =
    (λ h. inr (tt, h), λ found. elim found [ inl l ↦ absurd (Last-nil l) | inr (_, h) ↦ h ])
lookup-load_keys_from keys kid key (raw ∷ raws) =
    let later = lookup-load_keys_from (use_key keys raw) kid key raws in
    let step = lookup-use_key keys raw kid key in
    (
      λ h. elim (later.0 h) [
        | inl l ↦ inl (there l)
        | inr (skipped, found) ↦ elim (step.0 found) [
          | inl (named, u) ↦ inl (here named u skipped)
          | inr (skip, before) ↦ inr ((skip, skipped), before)
        ]
      ],
      λ h. later.1 (elim h [
        | inl l ↦ elim (Last-cons l) [
          | inl l' ↦ inl l'
          | inr (named, u, skipped) ↦ inr (skipped, step.1 (inl (named, u)))
        ]
        | inr ((skip, skipped), before) ↦ inr (skipped, step.1 (inr (skip, before)))
      ]),
    )

pub no_key : (kid : String) (key : PublicKey) → lookup kid [] ≢ some key
unfolding lookup
no_key kid key h = absurd (ground arith)

-- A fetched key set holds under a name the key of the last entry that has the name, is for
-- signatures and converts to a public key.
pub lookup-load_keys :
    (kid : String) (key : PublicKey) (raws : List RawJwk)
    → (lookup kid (load_keys [] raws) ≡ some key) ↔ Last kid key raws
lookup-load_keys kid key raws =
    let general = lookup-load_keys_from [] kid key raws in
    (
      λ h. elim (general.0 h) [
        | inl l ↦ l
        | inr (_, none_held) ↦ absurd (no_key kid key none_held)
      ],
      λ l. general.1 (inl l),
    )

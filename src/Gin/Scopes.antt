-- ===== src/Gin/Scopes.antt =====
-- ginmw/middleware.go: which scopes the claims of a token hold.
use api_security_sdk.Common.{
  String, ◌≡◌, refl, ◌↔◌, ◌⊎◌, inl, inr, Option, none, some, List, Memᴰ, sym, ap, ◌∙◌,
}
use api_security_sdk.Common.Words.{IsWord, fields_iff}
use api_security_sdk.Common.Values.{
  Value, Values, nil, str, other, strs, list, uncomparable, end, item,
}
use api_security_sdk.Common.Table.{Table, lookup}
use api_security_sdk.Gin.{text_items, listed_scopes, scopes_of, extract_scopes}

-- A value stands in a list of values.
unfoldable pub Item : Value → Values → Type 0
Item v end = ⊥
Item v (item u us) = (u ≡ v) ⊎ Item v us

-- The claims hold a scope: as a word of the text under "scope", or, where no text is there, as a
-- text of the list under "scopes".
pub data Scoped (custom : Table Value) (need : String) : Type 0 where
  word : (s : String) → lookup "scope" custom ≡ some (str s) → IsWord need s → Scoped custom need
  member :
      ((s : String) → ¬ (lookup "scope" custom ≡ some (str s)))
      → (scopes : List String) → lookup "scopes" custom ≡ some (strs scopes)
      → Memᴰ need scopes
      → Scoped custom need
  listed :
      ((s : String) → ¬ (lookup "scope" custom ≡ some (str s)))
      → (vs : Values) → lookup "scopes" custom ≡ some (list vs)
      → Item (str need) vs
      → Scoped custom need

skip_item :
    (need : String) (u : Value) (us : Values)
    → ¬ (u ≡ str need)
    → (Item (str need) us ↔ Memᴰ need (text_items us))
    → (Item (str need) (item u us) ↔ Memᴰ need (text_items us))
unfolding Item
skip_item need u us apart rest =
    (λ o. elim o [ inl e ↦ absurd (apart e) | inr later ↦ rest.0 later ], λ m. inr (rest.1 m))

text_items_iff : (need : String) (vs : Values) → Item (str need) vs ↔ Memᴰ need (text_items vs)
unfolding Item text_items
text_items_iff need end = (λ h. absurd h, λ m. elim m [ ])
text_items_iff need (item (str s) vs) =
    let rest = text_items_iff need vs in
    (
      λ o. elim o [ inl e ↦ Memᴰ.head cc | inr later ↦ Memᴰ.tail (rest.0 later) ],
      λ m. elim m [ Memᴰ.head e ↦ inl (ap str (sym e)) | Memᴰ.tail later ↦ inr (rest.1 later) ],
    )
text_items_iff need (item nil vs) = skip_item need nil vs (λ e. cc) (text_items_iff need vs)
text_items_iff need (item (other t n) vs) =
    skip_item need (other t n) vs (λ e. cc) (text_items_iff need vs)
text_items_iff need (item (strs l) vs) =
    skip_item need (strs l) vs (λ e. cc) (text_items_iff need vs)
text_items_iff need (item (list us) vs) =
    skip_item need (list us) vs (λ e. cc) (text_items_iff need vs)
text_items_iff need (item (uncomparable t) vs) =
    skip_item need (uncomparable t) vs (λ e. cc) (text_items_iff need vs)

-- The scopes of a list, or of what is none, are held where no text is under "scope".
Scoped-listed :
    (custom : Table Value) (need : String)
    → ((s : String) → ¬ (lookup "scope" custom ≡ some (str s)))
    → (found : Option Value) → lookup "scopes" custom ≡ found
    → Memᴰ need (listed_scopes found)
    → Scoped custom need
unfolding listed_scopes
Scoped-listed custom need textless (some (strs l)) e m = member textless l e m
Scoped-listed custom need textless (some (list vs)) e m =
    listed textless vs e ((text_items_iff need vs).1 m)
Scoped-listed custom need textless none e m = elim m [ ]
Scoped-listed custom need textless (some nil) e m = elim m [ ]
Scoped-listed custom need textless (some (str s)) e m = elim m [ ]
Scoped-listed custom need textless (some (other t n)) e m = elim m [ ]
Scoped-listed custom need textless (some (uncomparable t)) e m = elim m [ ]

listed_iff :
    (custom : Table Value) (need : String)
    → ((s : String) → ¬ (lookup "scope" custom ≡ some (str s)))
    → Scoped custom need ↔ Memᴰ need (listed_scopes (lookup "scopes" custom))
unfolding listed_scopes
listed_iff custom need textless = (
  λ h. elim h [
    | word s e _ ↦ absurd (textless s e)
    | member _ l e m ↦ rw e m
    | listed _ vs e i ↦ rw e ((text_items_iff need vs).0 i)
  ],
  Scoped-listed custom need textless (lookup "scopes" custom) refl,
)

-- A text under "scope", or none.
text_cases :
    (found : Option Value)
    → ((s : String) × (found ≡ some (str s)))
      ⊎ (((s : String) → ¬ (found ≡ some (str s)))
          × ((elsewhere : Option Value) → scopes_of found elsewhere ≡ listed_scopes elsewhere))
unfolding scopes_of
text_cases (some (str s)) = inl (s, refl)
text_cases none = inr (λ s e. cc, λ elsewhere. refl)
text_cases (some nil) = inr (λ s e. cc, λ elsewhere. refl)
text_cases (some (other t n)) = inr (λ s e. cc, λ elsewhere. refl)
text_cases (some (strs l)) = inr (λ s e. cc, λ elsewhere. refl)
text_cases (some (list us)) = inr (λ s e. cc, λ elsewhere. refl)
text_cases (some (uncomparable t)) = inr (λ s e. cc, λ elsewhere. refl)

same_text : (s t : String) → some (str s) ≡ some (str t) → s ≡ t
same_text s t e = cc

-- The scopes that are extracted are those that the claims hold.
pub extract_scopes_iff :
    (custom : Table Value) (need : String) → Scoped custom need ↔ Memᴰ need (extract_scopes custom)
unfolding extract_scopes scopes_of
extract_scopes_iff custom need = elim (text_cases (lookup "scope" custom)) [
  | inl (s, e) ↦ rw e (
    λ h. elim h [
      | word t e' w ↦ (fields_iff need s).0 (rw (same_text s t (sym e ∙ e')) w)
      | member textless _ _ _ ↦ absurd (textless s e)
      | listed textless _ _ _ ↦ absurd (textless s e)
    ],
    λ m. word s e ((fields_iff need s).1 m),
  )
  | inr (textless, elsewhere) ↦
      rw (elsewhere (lookup "scopes" custom)) (listed_iff custom need textless)
]

-- ===== src/Common/Words.antt =====
-- strings.Fields against a description of the words of a text.
use Prim.Native.Char.{Char, code}
use Prim.Native.String.{String}
use mathlib.Core.Path.{◌≡◌, refl, sym, ◌∙◌}
use mathlib.Core.Logic.{◌≢◌, ◌↔◌, ◌⊎◌, inl, inr}
use mathlib.Core.Bool.{Bool, true, false}
use mathlib.Core.List.{Memᴰ}
use native.Mathlib.Omega.{arith}
use api_security_sdk.Common.Tests.{Bool-cases}
use api_security_sdk.Common.Texts.{is_space, fields_from, push_field, fields}

-- A text starts with a word, behind which a space or the end comes.
unfoldable pub LeadsWith : String → String → Type 0
LeadsWith String.[] String.[] = Unit
LeadsWith String.[] (String.◌∷◌ c s) = is_space (code c) ≡ true
LeadsWith (String.◌∷◌ w ws) String.[] = ⊥
LeadsWith (String.◌∷◌ w ws) (String.◌∷◌ c s) =
    (is_space (code c) ≡ false) × (w ≡ c) × LeadsWith ws s

-- A word stands in a text, at its start where words can begin there, or behind a space.
unfoldable pub Occurs : String → Bool → String → Type 0
unfolding LeadsWith
Occurs w begins String.[] = ⊥
Occurs w begins (String.◌∷◌ c s) =
    ((begins ≡ true) × (w ≢ "") × LeadsWith w (String.◌∷◌ c s)) ⊎ Occurs w (is_space (code c)) s

abbrev pub IsWord : String → String → Type 0
IsWord w s = Occurs w true s

same_cons : (c d : Char) (s t : String) → String.◌∷◌ c s ≡ String.◌∷◌ d t → (c ≡ d) × (s ≡ t)
same_cons c d s t e = (cc, cc)

cons_apart : (c : Char) (s : String) → ¬ (String.◌∷◌ c s ≡ "")
cons_apart c s e = cc

leads_iff : (w s : String) → LeadsWith w s ↔ (w ≡ (fields_from s).0)
unfolding LeadsWith
leads_iff String.[] String.[] = (λ _. refl, λ _. tt)
leads_iff (String.◌∷◌ w ws) String.[] = (λ h. absurd h, λ e. absurd (cons_apart w ws e))
leads_iff String.[] (String.◌∷◌ c s) = elim (Bool-cases (is_space (code c))) [
  | inl space ↦ rw space (λ _. refl, λ _. refl)
  | inr letter ↦
      rw letter
        (λ h. absurd (ground (arith, h)), λ e. absurd (cons_apart c (fields_from s).0 (sym e)))
]
leads_iff (String.◌∷◌ w ws) (String.◌∷◌ c s) = elim (Bool-cases (is_space (code c))) [
  | inl space ↦ rw space (λ (h, _, _). absurd (ground (arith, h)), λ e. absurd (cons_apart w ws e))
  | inr letter ↦
      let behind = leads_iff ws s in
      rw letter (
        λ (_, same, h). let rest = behind.0 h in cc,
        λ e. let (same, rest) = same_cons w c ws (fields_from s).0 e in (refl, same, behind.1 rest),
      )
]

-- The words behind the one that is being read, and all of a text.
Occurs-iff :
    (w s : String)
    → (Occurs w false s ↔ Memᴰ w (fields_from s).1)
      × (Occurs w true s ↔ Memᴰ w (push_field (fields_from s).0 (fields_from s).1))
unfolding Occurs
Occurs-iff w String.[] = ((λ h. absurd h, λ m. elim m [ ]), (λ h. absurd h, λ m. elim m [ ]))
Occurs-iff w (String.◌∷◌ c s) = elim (Bool-cases (is_space (code c))) [
  | inl space ↦
      let (_, all) = Occurs-iff w s in
      let first : (fields_from (String.◌∷◌ c s)).0 ≡ "" = rw space refl in
      let leads = leads_iff w (String.◌∷◌ c s) in
      rw space (
        (
          λ o. elim o [
            | inl (begins, _, _) ↦ absurd (ground (arith, begins))
            | inr later ↦ all.0 later
          ],
          λ m. inr (all.1 m),
        ),
        (
          λ o. elim o [
            | inl (_, full, h) ↦ absurd (full (leads.0 h ∙ first))
            | inr later ↦ all.0 later
          ],
          λ m. inr (all.1 m),
        ),
      )
  | inr letter ↦
      let (behind, _) = Occurs-iff w s in
      let first : (fields_from (String.◌∷◌ c s)).0 ≡ String.◌∷◌ c (fields_from s).0 =
        rw letter refl in
      let leads = leads_iff w (String.◌∷◌ c s) in
      rw letter (
        (
          λ o. elim o [
            | inl (begins, _, _) ↦ absurd (ground (arith, begins))
            | inr later ↦ behind.0 later
          ],
          λ m. inr (behind.1 m),
        ),
        (
          λ o. elim o [
            | inl (_, _, h) ↦ Memᴰ.head (leads.0 h ∙ first)
            | inr later ↦ Memᴰ.tail (behind.0 later)
          ],
          λ m. elim m [
            | Memᴰ.head e ↦ inl (
              refl,
              λ none'. cons_apart c (fields_from s).0 (sym e ∙ none'),
              leads.1 (e ∙ sym first),
            )
            | Memᴰ.tail later ↦ inr (behind.1 later)
          ],
        ),
      )
]

pub fields_iff : (w s : String) → IsWord w s ↔ Memᴰ w (fields s)
unfolding fields
fields_iff w s = (Occurs-iff w s).1

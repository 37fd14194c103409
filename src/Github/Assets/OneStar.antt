-- ===== src/Github/Assets/OneStar.antt =====
-- Patterns with one star: exact on texts that are long enough, and wrong on shorter ones.
use mathlib.Core.List.{append_assoc}
use i_phone_loadly.Common.{
  ◌+◌, ◌≤◌, ◌≡◌, ◌≢◌, ◌↔◌, refl, sym, ap, subst, ◌∙◌, true, false, some, [], ◌∷◌, ◌++◌, Text, arith,
  length, length-append, Bool-cases, inl, inr, starts_with, ends_with, split, to_ascii_lowercase,
  starts_with_append, starts_with_sound, ends_with_append, ends_with_sound,
}
use i_phone_loadly.Github.Assets.{match_split, wildcard_match}
use i_phone_loadly.Github.Assets.Wildcard.{Fits, wildcard_match_complete}

-- Of two decompositions of a text, the shorter start is a start of the longer one.
gap_between :
    (a u w b : Text) → a ++ u ≡ w ++ b → length a ≤ length w → (gap : Text) × (u ≡ gap ++ b)
gap_between [] u w b e h = (w, e)
gap_between (c ∷ a) u [] b e h = absurd (omega arith)
gap_between (c ∷ a) u (d ∷ w) b e h = gap_between a u w b (ground arith) (omega arith)

match_one_sound :
    (head last pattern v : Text)
    → length head + length last ≤ length v
    → match_split (head ∷ last ∷ []) pattern v ≡ some true
    → Fits (head ∷ last ∷ []) v
unfolding match_split
match_one_sound head last pattern v long h = elim (Bool-cases (starts_with v head)) [
  | inl b ↦ elim (Bool-cases (ends_with v last)) [
    | inl c ↦
        let (u, e) = starts_with_sound v head b in
        let (w, k) = ends_with_sound v last c in
        let fits : length head ≤ length w = omega (arith, ap length k ∙ length-append w last) in
        let (gap, g) = gap_between head u w last (sym e ∙ k) fits in
        (gap, last, e ∙ ap (λ t. head ++ t) g, refl)
    | inr c ↦ absurd (false-ne-true (rw (b, c) at h))
  ]
  | inr b ↦ absurd (false-ne-true (rw b at h))
]
  where
    false-ne-true : some false ≡ some true → ⊥
    false-ne-true e = cc e

-- A pattern with one star accepts a text that is at least as long as its two parts together exactly
-- when the text begins with the first part, ends with the second, and these do not overlap.
pub wildcard_match_one_star_iff :
    (pattern value head last : Text)
    → split b'*' (to_ascii_lowercase pattern) ≡ head ∷ last ∷ []
    → length head + length last ≤ length (to_ascii_lowercase value)
    → (wildcard_match pattern value ≡ some true)
      ↔ Fits (head ∷ last ∷ []) (to_ascii_lowercase value)
unfolding wildcard_match
wildcard_match_one_star_iff pattern value head last parts long = (
  λ h. match_one_sound head last (to_ascii_lowercase pattern) (to_ascii_lowercase value) long (
      ap (λ ps. match_split ps (to_ascii_lowercase pattern) (to_ascii_lowercase value)) (sym parts)
      ∙ h),
  λ fits.
      wildcard_match_complete pattern value
        (subst (λ ps. Fits ps (to_ascii_lowercase value)) (sym parts) fits),
)

-- The two parts may not share characters of the text.
Fits-length :
    (head last v : Text) → Fits (head ∷ last ∷ []) v → length head + length last ≤ length v
Fits-length head last v (gap, u, e, k) =
    omega (arith, ap length e ∙ length-append head (gap ++ u), length-append gap u, ap length k)

match_overlap :
    (a b c pattern : Text)
    → match_split ((a ++ b) ∷ (b ++ c) ∷ []) pattern (a ++ (b ++ c)) ≡ some true
unfolding match_split
match_overlap a b c pattern =
    let starts =
      ap (λ t. starts_with t (a ++ b)) (sym (append_assoc a b c)) ∙ starts_with_append (a ++ b) c in
    rw (starts, ends_with_append a (b ++ c)) refl

-- A pattern whose first part ends as its second begins accepts the text in which the two overlap,
-- which the pattern does not describe.
pub wildcard_match_overlap :
    (pattern value a b c : Text)
    → b ≢ []
    → split b'*' (to_ascii_lowercase pattern) ≡ (a ++ b) ∷ (b ++ c) ∷ []
    → to_ascii_lowercase value ≡ a ++ (b ++ c)
    → (wildcard_match pattern value ≡ some true)
      × ¬ Fits ((a ++ b) ∷ (b ++ c) ∷ []) (to_ascii_lowercase value)
unfolding wildcard_match
wildcard_match_overlap pattern value a b c some_shared parts text = (
  rw (parts, text) (match_overlap a b c (to_ascii_lowercase pattern)),
  λ fits.
      let long = Fits-length (a ++ b) (b ++ c) (to_ascii_lowercase value) fits in
      some_shared (
        empty_of_length b (
          omega (
            arith,
            ap length text,
            length-append a (b ++ c),
            length-append b c,
            length-append a b,
          ))),
)
  where
    empty_of_length : (t : Text) → length t ≤ 0 → t ≡ []
    empty_of_length [] h = refl
    empty_of_length (d ∷ t) h = absurd (omega arith)

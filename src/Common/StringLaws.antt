-- ===== src/Common/StringLaws.antt =====
-- Prefixes, suffixes and occurrences, as concatenations.
use Prim.Native.Nat.{ℕ, zero, suc, ◌+◌, ◌≤◌, ◌-◌}
use mathlib.Core.Path.{◌≡◌, refl, sym, ap, ◌∙◌}
use mathlib.Core.Logic.{inl, inr}
use mathlib.Core.Bool.{true}
use mathlib.Core.List.{List, [], ◌∷◌, ◌++◌}
use mathlib.Core.Option.{some}
use native.Mathlib.Omega.{arith}
use i_phone_loadly.Common.Tests.{◌==◌, Bool-cases, Option-cases}
use i_phone_loadly.Common.Lists.{length, drop}
use i_phone_loadly.Common.Strings.{
  Text, text_eq, text_eq_iff, text_eq_refl, starts_with, ends_with, find, split,
}

pub starts_with_append : (p u : Text) → starts_with (p ++ u) p ≡ true
unfolding starts_with
starts_with_append [] u = refl
starts_with_append (c ∷ p) u = ground (arith, starts_with_append p u)

pub starts_with_sound : (v p : Text) → starts_with v p ≡ true → (u : Text) × (v ≡ p ++ u)
unfolding starts_with
starts_with_sound v [] h = (v, refl)
starts_with_sound [] (c ∷ p) h = absurd (ground arith)
starts_with_sound (d ∷ v) (c ∷ p) h =
    let (u, e) = starts_with_sound v p (ground arith) in (u, ground arith)

pub ends_with_append : (w s : Text) → ends_with (w ++ s) s ≡ true
unfolding ends_with
ends_with_append [] [] = refl
ends_with_append [] (c ∷ s) = ground (arith, text_eq_refl (c ∷ s))
ends_with_append (c ∷ w) s = ground (arith, ends_with_append w s)

pub ends_with_sound : (v s : Text) → ends_with v s ≡ true → (w : Text) × (v ≡ w ++ s)
unfolding ends_with
ends_with_sound [] s h = ([], (text_eq_iff [] s).0 h)
ends_with_sound (c ∷ v) s h = elim (Bool-cases (text_eq (c ∷ v) s)) [
  | inl e ↦ ([], (text_eq_iff (c ∷ v) s).0 e)
  | inr e ↦ let (w, k) = ends_with_sound v s (ground arith) in (c ∷ w, ap (λ t. c ∷ t) k)
]

pub length-drop : (n : ℕ) (v : Text) → length (drop n v) ≡ length v - n
length-drop zero v = omega arith
length-drop (suc n) [] = omega arith
length-drop (suc n) (c ∷ v) = omega (arith, length-drop n v)

pub drop-append : (n : ℕ) (a u : Text) → n ≤ length a → drop n (a ++ u) ≡ drop n a ++ u
drop-append zero a u h = refl
drop-append (suc n) [] u h = absurd (omega arith)
drop-append (suc n) (c ∷ a) u h = drop-append n a u (omega arith)

pub drop-length-append : (a u : Text) → drop (length a) (a ++ u) ≡ u
drop-length-append [] u = refl
drop-length-append (c ∷ a) u = drop-length-append a u

drop-nil : (k : ℕ) → drop {A = ℕ} k [] ≡ []
drop-nil zero = refl
drop-nil (suc k) = refl

pub drop-drop : (m n : ℕ) (v : Text) → drop n (drop m v) ≡ drop (m + n) v
drop-drop zero n v = ap (λ k. drop k v) (omega arith)
drop-drop (suc m) n [] = drop-nil n ∙ sym (drop-nil (suc m + n))
drop-drop (suc m) n (c ∷ v) =
    let same : suc (m + n) ≡ suc m + n = omega arith in
    drop-drop m n v ∙ ap (λ k. drop k (c ∷ v)) same

-- `find` gives the leftmost occurrence.
pub find_least :
    (k : ℕ) (v needle : Text)
    → k ≤ length v
    → starts_with (drop k v) needle ≡ true
    → (i : ℕ) × (find v needle ≡ some i) × (i ≤ k)
unfolding find
find_least k [] needle h e =
    let here : starts_with [] needle ≡ true =
      ap (λ t. starts_with t needle) (sym (drop-nil k)) ∙ e in
    (0, rw here refl, omega arith)
find_least zero (c ∷ v) needle h e = (0, rw e refl, omega arith)
find_least (suc k) (c ∷ v) needle h e = elim (Bool-cases (starts_with (c ∷ v) needle)) [
  | inl b ↦ (0, rw b refl, omega arith)
  | inr b ↦
      let (i, f, below) = find_least k v needle (omega arith) e in
      (i + 1, rw (b, f) refl, omega arith)
]

pub find_sound :
    (i : ℕ) (v needle : Text)
    → find v needle ≡ some i
    → (i ≤ length v) × (starts_with (drop i v) needle ≡ true)
unfolding find
find_sound i [] needle e = elim (Bool-cases (starts_with [] needle)) [
  | inl b ↦
      let zeroth : i ≡ 0 = ground arith in
      (omega arith, ap (λ t. starts_with t needle) (drop-nil i) ∙ b)
  | inr b ↦ absurd (ground arith)
]
find_sound i (c ∷ v) needle e = elim (Bool-cases (starts_with (c ∷ v) needle)) [
  | inl b ↦ let zeroth : i ≡ 0 = ground arith in rw zeroth (omega arith, b)
  | inr b ↦ elim (Option-cases (find v needle)) [
    | inl f ↦ absurd (ground arith)
    | inr (j, f) ↦
        let (below, k) = find_sound j v needle f in
        let next : i ≡ suc j = ground arith in rw next (omega arith, k)
  ]
]

pub split-cons : (sep : ℕ) (s : Text) → (p : Text) × (ps : List Text) × (split sep s ≡ p ∷ ps)
unfolding split
split-cons sep [] = ([], [], refl)
split-cons sep (c ∷ s) =
    let (p, ps, e) = split-cons sep s in
    elim (Bool-cases (c == sep)) [
      | inl b ↦ ([], split sep s, rw b refl)
      | inr b ↦ (c ∷ p, ps, rw (b, e) refl)
    ]

pub split-single : (sep : ℕ) (s head : Text) → split sep s ≡ head ∷ [] → head ≡ s
unfolding split
split-single sep [] head h = cc h
split-single sep (c ∷ s) head h =
    let (p, ps, e) = split-cons sep s in
    elim (Bool-cases (c == sep)) [
      | inl b ↦ absurd (ground arith)
      | inr b ↦
          let only : split sep s ≡ p ∷ [] = ground arith in
          let rest = split-single sep s p only in ground arith
    ]

-- ===== src/Ipa/Paths/Bundle.antt =====
-- The bundle that `main_bundle_from_entry` reads from the name of an entry.
use mathlib.Core.List.{append_assoc, append-nil}
use mathlib.Core.Option.{some-injective}
use i_phone_loadly.Common.{
  ℕ, ◌+◌, ◌≡◌, refl, sym, ap, subst, ◌∙◌, true, false, some, List, [], ◌∷◌, ◌++◌, Text, arith,
  codes, contains, ends_with, starts_with, starts_with_append, length, length-append, split,
  split-cons, take, text_eq, text_eq_iff, Bool-cases, inl, inr, ◌==◌, ==_iff, All,
}
use i_phone_loadly.Ipa.Paths.{bundle_of, main_bundle_from_entry}

-- The parts with the separator between them.
abbrev join : ℕ → List Text → Text
join sep [] = []
join sep (p ∷ []) = p
join sep (p ∷ q ∷ ps) = p ++ sep ∷ join sep (q ∷ ps)

join-split : (sep : ℕ) (s : Text) → join sep (split sep s) ≡ s
unfolding split
join-split sep [] = refl
join-split sep (c ∷ s) =
    let (p, ps, e) = split-cons sep s in
    let rest : join sep (p ∷ ps) ≡ s = subst (λ l. join sep l ≡ s) e (join-split sep s) in
    elim (Bool-cases (c == sep)) [
      | inl b ↦ rw (b, e) (cons_same c sep ((==_iff c sep).0 b) rest)
      | inr b ↦ rw (b, e) (join-prepend sep c p ps ∙ ap (λ t. c ∷ t) rest)
    ]
  where
    cons_same : (c sep : ℕ) {t u : Text} → c ≡ sep → t ≡ u → ◌≡◌ {A = Text} (sep ∷ t) (c ∷ u)
    cons_same c sep h k = cc

    join-prepend :
        (sep c : ℕ) (p : Text) (ps : List Text)
        → ◌≡◌ {A = Text} (join sep ((c ∷ p) ∷ ps)) (c ∷ join sep (p ∷ ps))
    join-prepend sep c p [] = refl
    join-prepend sep c p (q ∷ ps) = refl

no_sep-split : (sep : ℕ) (s : Text) → All (λ p. contains sep p ≡ false) (split sep s)
unfolding split contains
no_sep-split sep [] = (refl, tt)
no_sep-split sep (c ∷ s) =
    let (p, ps, e) = split-cons sep s in
    let (first, rest) = subst (All (λ p. contains sep p ≡ false)) e (no_sep-split sep s) in
    elim (Bool-cases (c == sep)) [
      | inl b ↦ rw (b, e) (refl, (first, rest))
      | inr b ↦ rw (b, e) (ground arith, rest)
    ]

take-append : (s t : Text) → take (length s) (s ++ t) ≡ s
take-append [] t = refl
take-append (c ∷ s) t = ap (λ u. c ∷ u) (take-append s t)

-- A bundle is one directory right under Payload.
pub record IsBundle (name bundle : Text) : Type 0 where
  pub app : Text
  pub is_path : bundle ≡ codes "Payload/" ++ app
  pub is_app : ends_with app (codes ".app") ≡ true
  pub is_directory : contains b'/' app ≡ false
  pub is_start : starts_with name bundle ≡ true

join-head : (sep : ℕ) (p : Text) (ps : List Text) → (tail : Text) × (join sep (p ∷ ps) ≡ p ++ tail)
join-head sep p [] = ([], sym (append-nil p))
join-head sep p (q ∷ ps) = (sep ∷ join sep (q ∷ ps), refl)

-- the name and the bundle, once the tests on the parts have passed
IsBundle-parts :
    (app tail name bundle : Text)
    → contains b'/' app ≡ false
    → ends_with app (codes ".app") ≡ true
    → name ≡ codes "Payload/" ++ (app ++ tail)
    → take (length (codes "Payload/") + length app) name ≡ bundle
    → IsBundle name bundle
IsBundle-parts app tail name bundle plain is_app e h =
    let start : name ≡ (codes "Payload/" ++ app) ++ tail =
      e ∙ sym (append_assoc (codes "Payload/") app tail) in
    let path : bundle ≡ codes "Payload/" ++ app =
      sym h
      ∙ ap (take (length (codes "Payload/") + length app)) start
      ∙ ap (λ n. take n ((codes "Payload/" ++ app) ++ tail))
          (sym (length-append (codes "Payload/") app))
      ∙ take-append (codes "Payload/" ++ app) tail in
    record {
      app = app;
      is_path = path;
      is_app = is_app;
      is_directory = plain;
      is_start = rw (path, start) (starts_with_append (codes "Payload/" ++ app) tail);
    }

bundle_of-IsBundle :
    (parts : List Text) (name bundle : Text)
    → All (λ p. contains b'/' p ≡ false) parts
    → name ≡ join b'/' parts
    → bundle_of parts name ≡ some bundle
    → IsBundle name bundle
bundle_of-IsBundle [] name bundle plain e h = absurd (cc h)
bundle_of-IsBundle (p ∷ []) name bundle plain e h = absurd (cc h)
bundle_of-IsBundle (payload ∷ app ∷ rest) name bundle plain e h =
    elim (Bool-cases (text_eq payload (codes "Payload"))) [
      | inr f ↦ absurd (cc (rw f at h))
      | inl f ↦ elim (Bool-cases (ends_with app (codes ".app"))) [
        | inr g ↦ absurd (cc (rw (f, g) at h))
        | inl g ↦
            let (tail, k) = join-head b'/' app rest in
            let same = (text_eq_iff payload (codes "Payload")).0 f in
            IsBundle-parts app tail name bundle plain.1.0 g
              (e
                ∙ ap (λ t. t ++ b'/' ∷ join b'/' (app ∷ rest)) same
                ∙ ap (λ t. codes "Payload/" ++ t) k)
              (some-injective _ bundle (rw (f, g) at h))
      ]
    ]

-- A bundle that is read from the name of an entry is a directory right under Payload whose name
-- ends with .app, and the entry's name begins with it.
pub main_bundle_from_entry-IsBundle :
    (name bundle : Text) → main_bundle_from_entry name ≡ some bundle → IsBundle name bundle
unfolding main_bundle_from_entry
main_bundle_from_entry-IsBundle name bundle h =
    bundle_of-IsBundle (split b'/' name) name bundle (no_sep-split b'/' name)
      (sym (join-split b'/' name)) h

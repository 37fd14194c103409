-- ===== src/Github/Releases/Newest.antt =====
-- The release that `latest_eligible_release` picks is eligible, and none that is eligible is newer.
use mathlib.Core.Bool.{false≢true}
use i_phone_loadly.Common.{
  ℕ, ◌≡◌, refl, sym, ap, subst, ◌∙◌, Bool, true, false, none, some, List, [], ◌∷◌, Text, arith, leb,
  text_eq, text_eq_iff, text_eq_refl, text_le, select, In, here, there, In-select_sound,
  In-select_complete, Bool-cases, Option-cases, inl, inr, if◌then◌else◌,
}
use i_phone_loadly.Github.{Release}
use i_phone_loadly.Github.Releases.{
  published, key_le, is_eligible, max_release, latest_eligible_release,
}

text_le_total : (s t : Text) → text_le s t ≡ false → text_le t s ≡ true
text_le_total [] t h = cc h
text_le_total (c ∷ s) [] h = refl
text_le_total (c ∷ s) (d ∷ t) h = ground (arith, text_le_total s t)

text_le_trans : (s t u : Text) → text_le s t ≡ true → text_le t u ≡ true → text_le s u ≡ true
text_le_trans [] t u h k = refl
text_le_trans (c ∷ s) [] u h k = cc h
text_le_trans (c ∷ s) (d ∷ t) [] h k = cc k
text_le_trans (c ∷ s) (d ∷ t) (e ∷ u) h k = ground (arith, text_le_trans s t u)

text_le_antisym : (s t : Text) → text_le s t ≡ true → text_le t s ≡ true → s ≡ t
text_le_antisym [] [] h k = refl
text_le_antisym [] (d ∷ t) h k = cc k
text_le_antisym (c ∷ s) [] h k = cc h
text_le_antisym (c ∷ s) (d ∷ t) h k = ground (arith, text_le_antisym s t)

text_eq_sym : (s t : Text) → text_eq s t ≡ text_eq t s
unfolding text_eq
text_eq_sym [] [] = refl
text_eq_sym [] (d ∷ t) = refl
text_eq_sym (c ∷ s) [] = refl
text_eq_sym (c ∷ s) (d ∷ t) = ground (arith, text_eq_sym s t)

-- The order of the keys, on the texts and the ids themselves.
abbrev pair_le : Text → ℕ → Text → ℕ → Bool
pair_le a i b j = if text_eq a b then leb i j else text_le a b

pair_le_total : (a b : Text) (i j : ℕ) → pair_le a i b j ≡ false → pair_le b j a i ≡ true
pair_le_total a b i j h = elim (Bool-cases (text_eq a b)) [
  | inl e ↦ let back = sym (text_eq_sym a b) ∙ e in ground arith
  | inr e ↦ let back = sym (text_eq_sym a b) ∙ e in ground (arith, text_le_total a b)
]

text_eq_path : (a b : Text) → text_eq a b ≡ true → a ≡ b
text_eq_path a b = (text_eq_iff a b).0

pair_le_same : (a : Text) (i j : ℕ) → pair_le a i a j ≡ leb i j
pair_le_same a i j = rw (text_eq_refl a) refl

pair_le_text : (a b : Text) (i j : ℕ) → text_eq a b ≡ false → pair_le a i b j ≡ text_le a b
pair_le_text a b i j e = rw e refl

-- Two texts below each other are the same, so a third between different ones is different.
between_not_equal :
    (a b c : Text)
    → text_le a b ≡ true
    → text_le b c ≡ true
    → text_eq a b ≡ false
    → text_eq a c ≡ false
between_not_equal a b c h l e = elim (Bool-cases (text_eq a c)) [
  | inl f ↦
      let back : text_le b a ≡ true =
        subst (λ t. text_le b t ≡ true) (sym (text_eq_path a c f)) l in
      let same = text_le_antisym a b h back in
      absurd (false≢true (sym e ∙ ap (text_eq a) (sym same) ∙ text_eq_refl a))
  | inr f ↦ f
]

pair_le_trans_text :
    (a b c : Text) (i j k : ℕ)
    → text_eq a b ≡ false
    → text_eq b c ≡ false
    → pair_le a i b j ≡ true
    → pair_le b j c k ≡ true
    → pair_le a i c k ≡ true
pair_le_trans_text a b c i j k e f h l =
    let low = sym (pair_le_text a b i j e) ∙ h in
    let high = sym (pair_le_text b c j k f) ∙ l in
    pair_le_text a c i k (between_not_equal a b c low high e) ∙ text_le_trans a b c low high

pair_le_trans_same :
    (a c : Text) (i j k : ℕ) → leb i j ≡ true → pair_le a j c k ≡ true → pair_le a i c k ≡ true
pair_le_trans_same a c i j k h l = ground arith

pair_le_trans_end :
    (a b : Text) (i j k : ℕ) → pair_le a i b j ≡ true → leb j k ≡ true → pair_le a i b k ≡ true
pair_le_trans_end a b i j k h l = ground arith

pair_le_trans :
    (a b c : Text) (i j k : ℕ)
    → pair_le a i b j ≡ true
    → pair_le b j c k ≡ true
    → pair_le a i c k ≡ true
pair_le_trans a b c i j k h l = elim (Bool-cases (text_eq a b)) [
  | inl e ↦
      let same = text_eq_path a b e in
      let start : pair_le b i b j ≡ true = subst (λ t. pair_le t i b j ≡ true) same h in
      subst (λ t. pair_le t i c k ≡ true) (sym same)
        (pair_le_trans_same b c i j k (sym (pair_le_same b i j) ∙ start) l)
  | inr e ↦ elim (Bool-cases (text_eq b c)) [
    | inl f ↦
        let same = text_eq_path b c f in
        let end : pair_le b j b k ≡ true = subst (λ t. pair_le b j t k ≡ true) (sym same) l in
        subst (λ t. pair_le a i t k ≡ true) same
          (pair_le_trans_end a b i j k h (sym (pair_le_same b j k) ∙ end))
    | inr f ↦ pair_le_trans_text a b c i j k e f h l
  ]
]

key_le_total : (r s : Release) → key_le r s ≡ false → key_le s r ≡ true
unfolding key_le
key_le_total r s h = pair_le_total (published r) (published s) r.id s.id h

key_le_trans : (r s t : Release) → key_le r s ≡ true → key_le s t ≡ true → key_le r t ≡ true
unfolding key_le
key_le_trans r s t h k = pair_le_trans (published r) (published s) (published t) r.id s.id t.id h k

-- No release of the list is newer.
pub IsNewest : List Release → Release → Type 0
IsNewest releases r = (s : Release) → In s releases → key_le s r ≡ true

key_le_refl : (r : Release) → key_le r r ≡ true
key_le_refl r = elim (Bool-cases (key_le r r)) [ inl e ↦ e | inr e ↦ key_le_total r r e ]

max_release-none : (rs : List Release) → max_release rs ≡ none → rs ≡ []
unfolding max_release
max_release-none [] h = refl
max_release-none (r ∷ rs) h = ground arith

IsNewest-cons :
    (r s : Release) (rs : List Release) → key_le r s ≡ true → IsNewest rs s → IsNewest (r ∷ rs) s
unfolding IsNewest
IsNewest-cons r s rs h k t here = h
IsNewest-cons r s rs h k t (there m) = k t m

-- The newer of a release and the newest of the rest is the newest of all.
abbrev newer : Release → Release → Release
newer q s = if key_le q s then s else q

IsNewest-above :
    (q s : Release) (rs : List Release) → key_le q s ≡ false → IsNewest rs s → IsNewest (q ∷ rs) q
unfolding IsNewest
IsNewest-above q s rs e k t here = key_le_refl q
IsNewest-above q s rs e k t (there n) = key_le_trans t s q (k t n) (key_le_total q s e)

newer-IsNewest :
    (q s : Release) (rs : List Release)
    → In s rs
    → IsNewest rs s
    → (In (newer q s) (q ∷ rs)) × IsNewest (q ∷ rs) (newer q s)
newer-IsNewest q s rs m k = elim (Bool-cases (key_le q s)) [
  | inl e ↦ rw e (there m, IsNewest-cons q s rs e k)
  | inr e ↦ rw e (here, IsNewest-above q s rs e k)
]

IsNewest-alone : (q : Release) → IsNewest (q ∷ []) q
unfolding IsNewest
IsNewest-alone q t here = key_le_refl q
IsNewest-alone q t (there n) = elim n [ ]

max_release-IsNewest :
    (rs : List Release) (r : Release) → max_release rs ≡ some r → (In r rs) × (IsNewest rs r)
unfolding max_release
max_release-IsNewest [] r h = absurd (cc h)
max_release-IsNewest (q ∷ rs) r h = elim (Option-cases (max_release rs)) [
  | inl e ↦
      let only = max_release-none rs e in
      let same : q ≡ r = ground arith in
      subst (λ xs. (In r (q ∷ xs)) × IsNewest (q ∷ xs) r) (sym only)
        (subst (λ t. (In t (q ∷ [])) × IsNewest (q ∷ []) t) same (here, IsNewest-alone q))
  | inr (s, e) ↦
      let (m, k) = max_release-IsNewest rs s e in
      let same : newer q s ≡ r = ground arith in
      subst (λ t. (In t (q ∷ rs)) × IsNewest (q ∷ rs) t) same (newer-IsNewest q s rs m k)
]

-- What `latest_eligible_release` returns is a release of the list that is eligible, and no eligible
-- release of the list has a later publication, or the same one and a higher id.
pub latest_eligible_release-IsNewest :
    (releases : List Release) (include_prereleases : Bool) (r : Release)
    → latest_eligible_release releases include_prereleases ≡ some r
    → (In r releases)
      × (is_eligible include_prereleases r ≡ true)
      × ((s : Release)
          → In s releases
          → is_eligible include_prereleases s ≡ true
          → key_le s r ≡ true)
unfolding latest_eligible_release IsNewest
latest_eligible_release-IsNewest releases include_prereleases r h =
    let eligible = select (is_eligible include_prereleases) releases in
    let (m, newest) = max_release-IsNewest eligible r h in
    let (i, e) = In-select_sound (is_eligible include_prereleases) releases m in
    (i, e, λ s n k. newest s (In-select_complete (is_eligible include_prereleases) n k))

-- `latest_eligible_release` returns none only if no release of the list is eligible.
latest_eligible_release-none :
    (releases : List Release) (include_prereleases : Bool)
    → latest_eligible_release releases include_prereleases ≡ none
    → (s : Release) → In s releases
    → is_eligible include_prereleases s ≡ false
unfolding latest_eligible_release
latest_eligible_release-none releases include_prereleases h s m =
    elim (Bool-cases (is_eligible include_prereleases s)) [
      | inl e ↦
          let empty = max_release-none (select (is_eligible include_prereleases) releases) h in
          let kept = In-select_complete (is_eligible include_prereleases) m e in
          absurd (none_in (subst (λ rs. In s rs) empty kept))
      | inr e ↦ e
    ]
  where
    none_in : In s [] → ⊥
    none_in m = elim m [ ]

-- ===== src/Common/TableLaws.antt =====
-- How the statements of `Tables` act on the queries.
use mathlib.Core.Path.{◌≡◌, refl, sym, subst, ◌∙◌}
use mathlib.Core.Logic.{◌⊎◌, inl, inr}
use mathlib.Core.Bool.{Bool, true, false, ◌||◌, false≢true}
use mathlib.Core.List.{List, [], ◌∷◌, ◌++◌, map}
use mathlib.Core.Option
use mathlib.Core.Option.{Option, none, some}
use native.Mathlib.Omega.{arith}
use i_phone_loadly.Common.Tests.{if◌then◌else◌, Bool-cases, if-intro}
use i_phone_loadly.Common.Lists.{any, All, In, here, there, take, length}
use Prim.Native.Nat.{ℕ, zero, suc, ◌+◌}
use i_phone_loadly.Common.Tables.{select, first, update, delete, count, order_by, insert_sorted}

-- one row of an UPDATE
abbrev pub changed {ℓ} : {A : Type ℓ} → (A → Bool) → (A → A) → A → A
changed test change r = if test r then change r else r

module _ {ℓ κ} {A : Type ℓ} where
  pub All-update :
      (P : A → Type κ) (test : A → Bool) (change : A → A) (rows : List A)
      → ((r : A) → test r ≡ true → P r → P (change r))
      → All P rows
      → All P (update test change rows)
  unfolding update
  All-update P test change [] keep h = tt
  All-update P test change (r ∷ rs) keep h = (
    elim (Bool-cases (test r)) [ inl e ↦ rw e (keep r e h.0) | inr e ↦ rw e h.0 ],
    All-update P test change rs keep h.1,
  )

  pub All-delete :
      (P : A → Type κ) (test : A → Bool) (rows : List A) → All P rows → All P (delete test rows)
  unfolding delete
  All-delete P test [] h = tt
  All-delete P test (r ∷ rs) h = elim (Bool-cases (test r)) [
    | inl e ↦ rw e (All-delete P test rs h.1)
    | inr e ↦ rw e (h.0, All-delete P test rs h.1)
  ]

  -- After an UPDATE the rows that pass have what the change gives.
  pub All-updated :
      (P Q : A → Type κ) (test : A → Bool) (change : A → A) (rows : List A)
      → ((r : A) → P r → Q (change r))
      → All (λ r. test r ≡ true → P r) rows
      → All (λ r. test r ≡ true → Q r) (update test change rows)
  unfolding update
  All-updated P Q test change [] gives h = tt
  All-updated P Q test change (r ∷ rs) gives h = (
    elim (Bool-cases (test r)) [
      | inl e ↦ rw e (λ _. gives r (h.0 e))
      | inr e ↦ rw e (λ k. absurd (false≢true (sym e ∙ k)))
    ],
    All-updated P Q test change rs gives h.1,
  )

  pub All-any_row : (P : A → Type κ) (rows : List A) → ((r : A) → P r) → All P rows
  All-any_row P [] h = tt
  All-any_row P (r ∷ rs) h = (h r, All-any_row P rs h)

  -- What holds of every row holds of each.
  pub All-of_In : (P : A → Type κ) {r : A} {rows : List A} → All P rows → In r rows → P r
  All-of_In P h here = h.0
  All-of_In P h (there m) = All-of_In P h.1 m

module _ {ℓ} {A : Type ℓ} where
  pub any-append : (p : A → Bool) (xs ys : List A) → any p (xs ++ ys) ≡ any p xs || any p ys
  any-append p [] ys = refl
  any-append p (x ∷ xs) ys = ground (arith, any-append p xs ys)

  pub any-update :
      (p test : A → Bool) (change : A → A) (rows : List A)
      → ((r : A) → p (changed test change r) ≡ p r)
      → any p (update test change rows) ≡ any p rows
  unfolding update
  any-update p test change [] same = refl
  any-update p test change (r ∷ rs) same = rw (same r, any-update p test change rs same)

  -- A row that passes still passes.
  pub any-update_mono :
      (p test : A → Bool) (change : A → A) (rows : List A)
      → ((r : A) → p r ≡ true → p (changed test change r) ≡ true)
      → any p rows ≡ true
      → any p (update test change rows) ≡ true
  unfolding update
  any-update_mono p test change (r ∷ rs) keep h =
      ground (arith, keep r, any-update_mono p test change rs keep)
  any-update_mono p test change [] keep h = h

  pub first-update :
      (p test : A → Bool) (change : A → A) (rows : List A)
      → ((r : A) → p (changed test change r) ≡ p r)
      → first p (update test change rows) ≡ Option.map (changed test change) (first p rows)
  unfolding update first
  first-update p test change [] same = refl
  first-update p test change (r ∷ rs) same = elim (Bool-cases (p r)) [
    | inl e ↦ rw (same r, e)
    | inr e ↦ rw (same r, e) (first-update p test change rs same)
  ]

  pub first-append :
      (p : A → Bool) (xs ys : List A)
      → first p (xs ++ ys) ≡ (elim (first p xs) [ none ↦ first p ys | some r ↦ some r ])
  unfolding first
  first-append p [] ys = refl
  first-append p (x ∷ xs) ys = elim (Bool-cases (p x)) [
    | inl e ↦ rw e
    | inr e ↦ rw e (first-append p xs ys)
  ]

  -- The first row that passes passes, and stands in the table.
  pub first_sound : (p : A → Bool) (rows : List A) (r : A) → first p rows ≡ some r → p r ≡ true
  unfolding first
  first_sound p [] r h = cc
  first_sound p (x ∷ xs) r h = elim (Bool-cases (p x)) [
    | inl e ↦ ground arith
    | inr e ↦ first_sound p xs r (ground arith)
  ]

  pub first-any : (p : A → Bool) (rows : List A) (r : A) → first p rows ≡ some r → any p rows ≡ true
  unfolding first
  first-any p [] r h = cc
  first-any p (x ∷ xs) r h = elim (Bool-cases (p x)) [
    | inl e ↦ rw e
    | inr e ↦ rw e (first-any p xs r (ground arith))
  ]

  pub first-none : (p : A → Bool) (rows : List A) → first p rows ≡ none → any p rows ≡ false
  unfolding first
  first-none p [] h = refl
  first-none p (x ∷ xs) h = elim (Bool-cases (p x)) [
    | inl e ↦ absurd (ground arith)
    | inr e ↦ rw e (first-none p xs (ground arith))
  ]

  -- An UPDATE that no row passes changes nothing.
  pub update-none :
      (test : A → Bool) (change : A → A) (rows : List A)
      → any test rows ≡ false
      → update test change rows ≡ rows
  unfolding update
  update-none test change [] h = refl
  update-none test change (r ∷ rs) h = ground (arith, update-none test change rs)

  In-kept :
      {r : A} (x : A) (xs : List A) (b : Bool)
      → In r (if b then x ∷ xs else xs)
      → ((x ≡ r) × (b ≡ true)) ⊎ In r xs
  In-kept x xs true here = inl (refl, refl)
  In-kept x xs true (there m) = inr m
  In-kept x xs false m = inr m

  -- A selected row stands in the table and passes, and every such row is selected.
  pub In-select_sound :
      {r : A} (p : A → Bool) (rows : List A) → In r (select p rows) → In r rows × (p r ≡ true)
  unfolding select
  In-select_sound p [] m = elim m [ ]
  In-select_sound p (x ∷ xs) m = elim (In-kept x (select p xs) (p x) m) [
    | inl (e, q) ↦ (subst (λ y. In y (x ∷ xs)) e here, subst (λ y. p y ≡ true) e q)
    | inr k ↦ let (i, q) = In-select_sound p xs k in (there i, q)
  ]

  pub In-select_complete :
      {r : A} (p : A → Bool) {rows : List A} → In r rows → p r ≡ true → In r (select p rows)
  unfolding select
  In-select_complete p here e = rw e here
  In-select_complete p (there {x} m) e = elim (Bool-cases (p x)) [
    | inl q ↦ rw q (there (In-select_complete p m e))
    | inr q ↦ rw q (In-select_complete p m e)
  ]

  pub any-of_In :
      {r : A} (p : A → Bool) {rows : List A} → In r rows → p r ≡ true → any p rows ≡ true
  any-of_In p here e = rw e
  any-of_In p (there {x} m) e = ground (arith, any-of_In p m e)

  pub In-append_left : {r : A} {xs : List A} (ys : List A) → In r xs → In r (xs ++ ys)
  In-append_left ys here = here
  In-append_left ys (there m) = there (In-append_left ys m)

  pub In-append_right : {r : A} (xs : List A) {ys : List A} → In r ys → In r (xs ++ ys)
  In-append_right [] m = m
  In-append_right (x ∷ xs) m = there (In-append_right xs m)

  pub In-append_cases : {r : A} (xs ys : List A) → In r (xs ++ ys) → In r xs ⊎ In r ys
  In-append_cases [] ys m = inr m
  In-append_cases (x ∷ xs) ys here = inl here
  In-append_cases (x ∷ xs) ys (there m) = elim (In-append_cases xs ys m) [
    | inl k ↦ inl (there k)
    | inr k ↦ inr k
  ]

pub In-cons {ℓ} : {A : Type ℓ} {x y : A} {xs : List A} → In y (x ∷ xs) → (x ≡ y) ⊎ In y xs
In-cons here = inl refl
In-cons (there m) = inr m

module _ {ℓ κ} {A : Type ℓ} {B : Type κ} (f : A → B) where
  pub In-map : {r : A} {xs : List A} → In r xs → In (f r) (map f xs)
  In-map here = here
  In-map (there m) = there (In-map m)

  pub In-map_sound : {y : B} (xs : List A) → In y (map f xs) → (r : A) × In r xs × (y ≡ f r)
  In-map_sound [] m = elim m [ ]
  In-map_sound (x ∷ xs) m = elim (In-cons m) [
    | inl e ↦ (x, here, sym e)
    | inr k ↦ let (r, i, e) = In-map_sound xs k in (r, there i, e)
  ]

module _ {ℓ} {A : Type ℓ} where
  pub count-append : (p : A → Bool) (xs ys : List A) → count p (xs ++ ys) ≡ count p xs + count p ys
  unfolding count
  count-append p [] ys = omega arith
  count-append p (x ∷ xs) ys = let rest = count-append p xs ys in omega arith

  pub count-any : (p : A → Bool) (xs : List A) → any p xs ≡ false → count p xs ≡ 0
  unfolding count
  count-any p [] h = refl
  count-any p (x ∷ xs) h = ground (arith, count-any p xs)

  pub any-take : (p : A → Bool) (n : ℕ) (xs : List A) → any p xs ≡ false → any p (take n xs) ≡ false
  any-take p zero xs h = refl
  any-take p (suc n) [] h = refl
  any-take p (suc n) (x ∷ xs) h = ground (arith, any-take p n xs)

  length-insert_sorted :
      (before : A → A → Bool) (r : A) (rows : List A)
      → length (insert_sorted before r rows) ≡ suc (length rows)
  length-insert_sorted before r [] = refl
  length-insert_sorted before r (s ∷ rows) =
      if-intro (λ xs. length xs ≡ suc (suc (length rows))) (before s r)
        (λ _. omega (arith, length-insert_sorted before r rows)) (λ _. refl)

  pub length-order_by :
      (before : A → A → Bool) (rows : List A) → length (order_by before rows) ≡ length rows
  unfolding order_by
  length-order_by before [] = refl
  length-order_by before (r ∷ rows) =
      omega
        (arith, length-insert_sorted before r (order_by before rows), length-order_by before rows)

module _ {ℓ κ} {A : Type ℓ} (P : A → Type κ) (before : A → A → Bool) where
  All-insert_sorted :
      (r : A) (rows : List A) → P r → All P rows → All P (insert_sorted before r rows)
  All-insert_sorted r [] p h = (p, tt)
  All-insert_sorted r (s ∷ rows) p h =
      if-intro (All P) (before s r) (λ _. (h.0, All-insert_sorted r rows p h.1)) (λ _. (p, h))

  pub All-order_by : (rows : List A) → All P rows → All P (order_by before rows)
  unfolding order_by
  All-order_by [] h = tt
  All-order_by (r ∷ rows) h = All-insert_sorted r (order_by before rows) h.0 (All-order_by rows h.1)

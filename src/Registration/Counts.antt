-- ===== src/Registration/Counts.antt =====
-- The counts of `registration_matches` in their order.
use i_phone_loadly.Common.{
  ℕ, ◌≤◌, ◌≡◌, refl, sym, ap, ◌∙◌, Bool, true, false, List, [], ◌∷◌, Text, arith, ◌&&◌, is_empty,
  text_eq, text_eq_iff, trim, trim_start, trim_end, lower, to_ascii_lowercase, is_whitespace,
  Bool-cases, inl, inr, map,
}
use i_phone_loadly.Registration.{
  RegistrationMatches, from_bool, eq_ignore_ascii_case, count_number, count_numbers,
  registration_matches,
}

is_whitespace-lower : (c : ℕ) → is_whitespace (lower c) ≡ is_whitespace c
unfolding is_whitespace lower
is_whitespace-lower c = ground arith

trim_start-lower : (s : Text) → trim_start (map lower s) ≡ map lower (trim_start s)
unfolding trim_start
trim_start-lower [] = refl
trim_start-lower (c ∷ s) = elim (Bool-cases (is_whitespace c)) [
  | inl e ↦ rw (is_whitespace-lower c, e) (trim_start-lower s)
  | inr e ↦ rw (is_whitespace-lower c, e) refl
]

is_empty-map : (s : Text) → is_empty (map lower s) ≡ is_empty s
is_empty-map [] = refl
is_empty-map (c ∷ s) = refl

trim_end-lower : (s : Text) → trim_end (map lower s) ≡ map lower (trim_end s)
unfolding trim_end
trim_end-lower [] = refl
trim_end-lower (c ∷ s) = elim (Bool-cases (is_empty (trim_end s) && is_whitespace c)) [
  | inl e ↦ rw (trim_end-lower s, is_empty-map (trim_end s), is_whitespace-lower c, e) refl
  | inr e ↦ rw (trim_end-lower s, is_empty-map (trim_end s), is_whitespace-lower c, e) refl
]

trim-to_ascii_lowercase : (s : Text) → trim (to_ascii_lowercase s) ≡ to_ascii_lowercase (trim s)
unfolding trim to_ascii_lowercase
trim-to_ascii_lowercase s = ap trim_end (trim_start-lower s) ∙ trim_end-lower (trim_start s)

exact-ignore : (s t : Text) → from_bool (text_eq s t) ≤ from_bool (eq_ignore_ascii_case s t)
unfolding eq_ignore_ascii_case
exact-ignore s t = elim (Bool-cases (text_eq s t)) [
  | inl e ↦
      let same = ap to_ascii_lowercase ((text_eq_iff s t).0 e) in
      let also = (text_eq_iff (to_ascii_lowercase s) (to_ascii_lowercase t)).1 same in
      rw (e, also) (omega arith)
  | inr e ↦ rw e (omega arith)
]

ignore-trimmed :
    (s t : Text)
    → from_bool (eq_ignore_ascii_case s t) ≤ from_bool (eq_ignore_ascii_case (trim s) (trim t))
unfolding eq_ignore_ascii_case
ignore-trimmed s t = elim (Bool-cases (text_eq (to_ascii_lowercase s) (to_ascii_lowercase t))) [
  | inl e ↦
      let same = ap trim ((text_eq_iff (to_ascii_lowercase s) (to_ascii_lowercase t)).0 e) in
      let trimmed = sym (trim-to_ascii_lowercase s) ∙ same ∙ trim-to_ascii_lowercase t in
      let also =
        (text_eq_iff (to_ascii_lowercase (trim s)) (to_ascii_lowercase (trim t))).1 trimmed in
      rw (e, also) (omega arith)
  | inr e ↦ rw e (omega arith)
]

from_bool-le : (b : Bool) → from_bool b ≤ 1
from_bool-le true = omega arith
from_bool-le false = omega arith

-- Each count is at most the next weaker one.
pub record IsOrdered (result : RegistrationMatches) : Type 0 where
  pub exact : result.exact ≤ result.ascii_case_insensitive
  pub insensitive : result.ascii_case_insensitive ≤ result.trimmed_ascii_case_insensitive
  pub listed : result.trimmed_ascii_case_insensitive ≤ result.listed_devices

count_number-IsOrdered :
    (target : Text) (result : RegistrationMatches) (number : Text)
    → IsOrdered result
    → IsOrdered (count_number target result number)
unfolding count_number
count_number-IsOrdered target result number ordered =
    let first = exact-ignore number target in
    let second = ignore-trimmed number target in
    let third = from_bool-le (eq_ignore_ascii_case (trim number) (trim target)) in
    let a = ordered.exact in
    let b = ordered.insensitive in
    let c = ordered.listed in
    record {
      exact = omega (arith, a, first);
      insensitive = omega (arith, b, second);
      listed = omega (arith, c, third);
    }

count_numbers-IsOrdered :
    (target : Text) (result : RegistrationMatches) (numbers : List Text)
    → IsOrdered result
    → IsOrdered (count_numbers target result numbers)
unfolding count_numbers
count_numbers-IsOrdered target result [] ordered = ordered
count_numbers-IsOrdered target result (number ∷ numbers) ordered =
    count_numbers-IsOrdered target (count_number target result number) numbers
      (count_number-IsOrdered target result number ordered)

-- The devices that match exactly are at most those that match without regard to case, these at most
-- those that do so once both texts are trimmed, and these at most the listed ones.
pub registration_matches-IsOrdered :
    (target : Text) (device_numbers : List Text)
    → IsOrdered (registration_matches target device_numbers)
unfolding registration_matches
registration_matches-IsOrdered target device_numbers =
    count_numbers-IsOrdered target _ device_numbers
      (record { exact = omega arith; insensitive = omega arith; listed = omega arith })

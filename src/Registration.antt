-- ===== src/Registration.antt =====
-- The counts of matching device identifiers (crates/iphoneloadly-api/src/registration_diagnostic.rs).
pub mod Counts
pub mod Tests
use i_phone_loadly.Common.{
  ℕ, ◌+◌, Text, Bool, true, false, List, [], ◌∷◌, not, ◌&&◌, ◌==◌, all, codes, length, text_eq,
  trim, to_ascii_lowercase, is_ascii_alphanumeric, if◌then◌else◌,
}

pub record RegistrationMatches : Type 0 where
  pub listed_devices : ℕ
  pub exact : ℕ
  pub ascii_case_insensitive : ℕ
  pub trimmed_ascii_case_insensitive : ℕ
  pub target_has_outer_whitespace : Bool

-- `usize::from(bool)`
abbrev pub from_bool : Bool → ℕ
from_bool b = if b then 1 else 0

-- `str::eq_ignore_ascii_case`
unfoldable pub eq_ignore_ascii_case : Text → Text → Bool
eq_ignore_ascii_case s t = text_eq (to_ascii_lowercase s) (to_ascii_lowercase t)

-- the loop's body
unfoldable pub count_number : Text → RegistrationMatches → Text → RegistrationMatches
unfolding eq_ignore_ascii_case
count_number target result number = record result {
  listed_devices = result.listed_devices + 1;
  exact = result.exact + from_bool (text_eq number target);
  ascii_case_insensitive =
      result.ascii_case_insensitive + from_bool (eq_ignore_ascii_case number target);
  trimmed_ascii_case_insensitive =
      result.trimmed_ascii_case_insensitive
      + from_bool (eq_ignore_ascii_case (trim number) (trim target));
}

-- the loop
unfoldable pub count_numbers : Text → RegistrationMatches → List Text → RegistrationMatches
unfolding count_number
count_numbers target result [] = result
count_numbers target result (number ∷ numbers) =
    count_numbers target (count_number target result number) numbers

unfoldable pub registration_matches : Text → List Text → RegistrationMatches
unfolding count_numbers
registration_matches target device_numbers =
    count_numbers target
      (record {
        listed_devices = 0;
        exact = 0;
        ascii_case_insensitive = 0;
        trimmed_ascii_case_insensitive = 0;
        target_has_outer_whitespace = not (text_eq target (trim target));
      })
      device_numbers

-- The length is that in bytes: a text of ten ASCII characters has ten code points.
unfoldable pub diagnostic_team_id : Text → Text
diagnostic_team_id team_id =
    if length team_id == 10 && all is_ascii_alphanumeric team_id
    then team_id
    else codes "<redacted-invalid-team-id>"

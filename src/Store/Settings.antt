-- ===== src/Store/Settings.antt =====
-- The refresh day of store.rs, kept as text in the table `settings`.
pub mod Laws
use mathlib.Core.Option
use i_phone_loadly.Common.{
  Result, ok, err, ℕ, ◌+◌, ◌-◌, ◌*◌, ◌/◌, ◌%◌, Text, Bool, true, false, Option, none, some, List,
  [], ◌∷◌, ◌++◌, ◌&&◌, ◌==◌, text_eq, codes, any, leb, ltb, first, update, is_ascii_digit,
  if◌then◌else◌,
}
use i_phone_loadly.Store.{Error, invalid_query, SettingRow, Database}

abbrev pub default_refresh_after_days : ℕ
default_refresh_after_days = 6

abbrev pub min_refresh_after_days : ℕ
min_refresh_after_days = 1

abbrev pub max_refresh_after_days : ℕ
max_refresh_after_days = 6

-- (MIN_REFRESH_AFTER_DAYS..=MAX_REFRESH_AFTER_DAYS).contains(&days)
unfoldable pub in_range : ℕ → Bool
in_range days = leb min_refresh_after_days days && leb days max_refresh_after_days

abbrev parse_digits : ℕ → Text → Option ℕ
parse_digits n [] = some n
parse_digits n (c ∷ s) =
    if is_ascii_digit c && leb (n * 10 + (c - b'0')) 255
    then parse_digits (n * 10 + (c - b'0')) s
    else none

abbrev parse_unsigned : Text → Option ℕ
parse_unsigned [] = none
parse_unsigned (c ∷ s) = parse_digits 0 (c ∷ s)

-- `str::parse::<u8>`: digits, at most one `+` before them, and no overflow
unfoldable pub parse_u8 : Text → Option ℕ
unfolding is_ascii_digit
parse_u8 [] = none
parse_u8 (c ∷ s) = if c == b'+' then parse_unsigned s else parse_unsigned (c ∷ s)

-- `u8::to_string`
unfoldable pub u8_to_string : ℕ → Text
u8_to_string n =
    if ltb n 10
    then (n + b'0') ∷ []
    else if ltb n 100
    then (n / 10 + b'0') ∷ (n % 10 + b'0') ∷ []
    else (n / 100 + b'0') ∷ (n / 10 % 10 + b'0') ∷ (n % 10 + b'0') ∷ []

abbrev pub refresh_key : Text
refresh_key = codes "refresh_after_days"

abbrev pub has_key : Text → SettingRow → Bool
has_key key r = text_eq r.key key

abbrev pub stored_days : Option SettingRow → ℕ
stored_days none = default_refresh_after_days
stored_days (some r) = elim (parse_u8 r.value) [
  | none ↦ default_refresh_after_days
  | some days ↦ if in_range days then days else default_refresh_after_days
]

unfoldable pub refresh_after_days : Database → ℕ
unfolding in_range parse_u8
refresh_after_days db = stored_days (first (has_key refresh_key) db.settings)

-- INSERT … ON CONFLICT(key) DO UPDATE SET value = excluded.value
unfoldable pub upsert : Text → Text → List SettingRow → List SettingRow
upsert key value rows =
    if any (has_key key) rows
    then update (has_key key) (λ r. record r { value = value }) rows
    else rows ++ record { key = key; value = value } ∷ []

unfoldable pub set_refresh_after_days : ℕ → Database → Result Error Database
unfolding in_range upsert u8_to_string
set_refresh_after_days after_days db =
    if in_range after_days
    then ok (record db { settings = upsert refresh_key (u8_to_string after_days) db.settings })
    else err invalid_query

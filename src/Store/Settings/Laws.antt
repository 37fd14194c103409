-- ===== src/Store/Settings/Laws.antt =====
-- The refresh day that is read back.
use mathlib.Core.Option
use i_phone_loadly.Common.{
  ok, err, ℕ, zero, suc, ◌≤◌, ◌≡◌, refl, subst, ap, ◌∙◌, Text, Bool, true, false, Option, none,
  some, List, [], ◌∷◌, text_eq_refl, first, update, any, Bool-cases, inl, inr, if◌then◌else◌, arith,
  ◌++◌,
}
use i_phone_loadly.Store.{Error, invalid_query, SettingRow, Database}
use i_phone_loadly.Store.Settings.{
  in_range, parse_u8, u8_to_string, has_key, refresh_key, stored_days, refresh_after_days, upsert,
  set_refresh_after_days, min_refresh_after_days, max_refresh_after_days,
}

stored_days_bounds :
    (o : Option SettingRow)
    → (min_refresh_after_days ≤ stored_days o) × (stored_days o ≤ max_refresh_after_days)
unfolding in_range
stored_days_bounds none = omega arith
stored_days_bounds (some r) = ground arith

-- Whatever the table holds, the day that is read lies between 1 and 6.
refresh_after_days_bounds :
    (db : Database)
    → (min_refresh_after_days ≤ refresh_after_days db)
      × (refresh_after_days db ≤ max_refresh_after_days)
unfolding refresh_after_days
refresh_after_days_bounds db = stored_days_bounds (first (has_key refresh_key) db.settings)

parse_u8-u8_to_string : (days : ℕ) → in_range days ≡ true → parse_u8 (u8_to_string days) ≡ some days
unfolding in_range parse_u8 u8_to_string
parse_u8-u8_to_string zero h = cc
parse_u8-u8_to_string (suc zero) h = refl
parse_u8-u8_to_string (suc (suc zero)) h = refl
parse_u8-u8_to_string (suc (suc (suc zero))) h = refl
parse_u8-u8_to_string (suc (suc (suc (suc zero)))) h = refl
parse_u8-u8_to_string (suc (suc (suc (suc (suc zero))))) h = refl
parse_u8-u8_to_string (suc (suc (suc (suc (suc (suc zero)))))) h = refl
parse_u8-u8_to_string (suc (suc (suc (suc (suc (suc (suc n))))))) h = absurd (ground arith)

-- The value that is found under the key of an upsert.
value-first-update :
    (key value : Text) (rows : List SettingRow)
    → any (has_key key) rows ≡ true
    → Option.map
        (λ r. r.value)
        (first (has_key key) (update (has_key key) (λ r. record r { value = value }) rows))
      ≡ some value
unfolding first update
value-first-update key value [] h = cc
value-first-update key value (r ∷ rs) h = elim (Bool-cases (has_key key r)) [
  | inl e ↦ rw (e, e)
  | inr e ↦ rw (e, e) (value-first-update key value rs (ground arith))
]

value-first-append :
    (key value : Text) (rows : List SettingRow)
    → any (has_key key) rows ≡ false
    → Option.map
        (λ r. r.value)
        (first (has_key key) (rows ++ record { key = key; value = value } ∷ []))
      ≡ some value
unfolding first
value-first-append key value [] h = rw (text_eq_refl key)
value-first-append key value (r ∷ rs) h = elim (Bool-cases (has_key key r)) [
  | inl e ↦ absurd (ground arith)
  | inr e ↦ rw e (value-first-append key value rs (ground arith))
]

value-first-upsert :
    (key value : Text) (rows : List SettingRow)
    → Option.map (λ r. r.value) (first (has_key key) (upsert key value rows)) ≡ some value
unfolding upsert
value-first-upsert key value rows = elim (Bool-cases (any (has_key key) rows)) [
  | inl e ↦ rw e (value-first-update key value rows e)
  | inr e ↦ rw e (value-first-append key value rows e)
]

stored_days_of_value :
    (days : ℕ) (o : Option SettingRow)
    → in_range days ≡ true
    → Option.map (λ r. r.value) o ≡ some (u8_to_string days)
    → stored_days o ≡ days
stored_days_of_value days none h e = cc
stored_days_of_value days (some r) h e =
    let same : r.value ≡ u8_to_string days = cc e in
    let parsed = ap parse_u8 same ∙ parse_u8-u8_to_string days h in ground arith

set-eq-ok :
    (b : Bool) (db : Database) (e : Error) {db' : Database}
    → (if b then ok db else err e) ≡ ok db'
    → (b ≡ true) × (db ≡ db')
set-eq-ok true db e h = ground arith
set-eq-ok false db e h = cc

-- A day that is accepted is the day that is read back.
pub refresh_after_days-set :
    (days : ℕ) (db : Database) {db' : Database}
    → set_refresh_after_days days db ≡ ok db'
    → refresh_after_days db' ≡ days
unfolding set_refresh_after_days refresh_after_days
refresh_after_days-set days db e =
    let rows = upsert refresh_key (u8_to_string days) db.settings in
    let (h, same) = set-eq-ok (in_range days) (record db { settings = rows }) invalid_query e in
    subst (λ (d : Database). refresh_after_days d ≡ days) same
      (stored_days_of_value days (first (has_key refresh_key) rows) h
        (value-first-upsert refresh_key (u8_to_string days) db.settings))

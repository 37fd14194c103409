-- ===== src/Github/Assets.antt =====
-- Asset patterns of github.rs: `validate_asset_pattern`, `wildcard_match` and `match_ipa_asset`.
pub mod Wildcard
pub mod OneStar
pub mod Unique
use mathlib.Core.Option
use i_phone_loadly.Common.{
  ℕ, ◌+◌, Text, Bool, true, false, Option, none, some, List, [], ◌∷◌, not, ◌&&◌, ◌||◌, ◌==◌, Result,
  ok, err, ◌>>=◌, ◌>>◌, codes, any, take, ◌-◌, leb, select, is_empty, text_eq, starts_with,
  ends_with, find, split, trim, to_ascii_lowercase, is_control, if◌then◌else◌,
}
use i_phone_loadly.Github.{
  Release, ReleaseAsset, GithubError, invalid_pattern, no_matching_asset, ambiguous_asset,
}

unfoldable pub validate_asset_pattern : Text → Result GithubError (Unit {0})
validate_asset_pattern pattern =
    if is_empty (trim pattern) || any (λ c. is_control c || c == b'/' || c == b'\\') pattern
    then err invalid_pattern
    else ok tt

-- The bytes of a character in UTF-8, and of a text.
abbrev pub utf8_len : ℕ → ℕ
utf8_len c = if leb 65536 c then 4 else if leb 2048 c then 3 else if leb 128 c then 2 else 1

abbrev pub byte_length : Text → ℕ
byte_length [] = 0
byte_length (c ∷ t) = utf8_len c + byte_length t

-- `value[offset..]` at an offset in bytes, which panics past the end and inside of a character
unfoldable pub slice_from : Text → ℕ → Option Text
slice_from [] offset = if offset == 0 then some [] else none
slice_from (c ∷ t) offset =
    if offset == 0
    then some (c ∷ t)
    else if leb (utf8_len c) offset
    then slice_from t (offset - utf8_len c)
    else none

-- the bytes before the character at a position
abbrev pub bytes_before : ℕ → Text → ℕ
bytes_before found t = byte_length (take found t)

-- The loop over the parts between the first and the last, with the offset in bytes; `none` is a panic.
unfoldable pub match_parts : List Text → Text → ℕ → Option Bool
unfolding slice_from
match_parts [] value offset = some true
match_parts (part ∷ parts) value offset = elim (slice_from value offset) [
  | none ↦ none
  | some rest ↦ elim (find rest part) [
    | none ↦ some false
    | some found ↦ match_parts parts value (offset + (bytes_before found rest + byte_length part))
  ]
]

-- the parts but the last, and the last
abbrev pub split_last : Text → List Text → List Text × Text
split_last p [] = ([], p)
split_last p (q ∷ ps) = let (init, last) = split_last q ps in (p ∷ init, last)

-- `wildcard_match` on the parts of the pattern, both texts in lower case
unfoldable pub match_split : List Text → Text → Text → Option Bool
unfolding match_parts
match_split [] pattern value = some (text_eq value pattern)
match_split (head ∷ []) pattern value = some (text_eq value pattern)
match_split (head ∷ part ∷ parts) pattern value =
    let (middle, last) = split_last part parts in
    if not (starts_with value head) || not (ends_with value last)
    then some false
    else match_parts middle value (byte_length head)

unfoldable pub wildcard_match : Text → Text → Option Bool
unfolding match_split
wildcard_match pattern value =
    match_split (split b'*' (to_ascii_lowercase pattern)) (to_ascii_lowercase pattern)
      (to_ascii_lowercase value)

-- a panic of `wildcard_match` counts as no match
unfoldable pub is_match : Text → Text → Bool
unfolding wildcard_match
is_match pattern value = Option.get_or (wildcard_match pattern value) false

abbrev pub is_ipa : ReleaseAsset → Bool
is_ipa asset = ends_with (to_ascii_lowercase asset.name) (codes ".ipa")

abbrev pub only : List ReleaseAsset → Result GithubError ReleaseAsset
only [] = err no_matching_asset
only (asset ∷ []) = ok asset
only (asset ∷ _ ∷ _) = err ambiguous_asset

unfoldable pub match_ipa_asset : Release → Text → Result GithubError ReleaseAsset
unfolding validate_asset_pattern is_match
match_ipa_asset release pattern =
    validate_asset_pattern pattern
    >> only (select (λ asset. is_ipa asset && is_match pattern asset.name) release.assets)

-- ===== src/Ipa/Paths.antt =====
-- The names of the entries of an archive: `validate_archive_path` and `main_bundle_from_entry` of
-- ipa.rs.
pub mod Bundle
use i_phone_loadly.Common.{
  ℕ, ◌+◌, Text, Bool, Option, none, some, List, [], ◌∷◌, not, ◌||◌, Result, ok, err, codes, any,
  contains, ends_with, length, split, starts_with, take, text_eq, if◌then◌else◌,
}
use i_phone_loadly.Ipa.{UploadError, unsafe_path}

-- An absolute path, a backslash or a parent directory among the components; on Unix no component is
-- a prefix.
unfoldable pub is_unsafe : Text → Bool
is_unsafe name =
    starts_with name (codes "/")
    || contains b'\\' name
    || any (λ component. text_eq component (codes "..")) (split b'/' name)

unfoldable pub validate_archive_path : Text → Result UploadError (Unit {0})
unfolding is_unsafe
validate_archive_path name = if is_unsafe name then err unsafe_path else ok tt

-- the components of the name, and the name
abbrev pub bundle_of : List Text → Text → Option Text
bundle_of (payload ∷ bundle ∷ rest) name =
    if not (text_eq payload (codes "Payload"))
    then none
    else if ends_with bundle (codes ".app")
    then some (take (length (codes "Payload/") + length bundle) name)
    else none
bundle_of _ name = none

unfoldable pub main_bundle_from_entry : Text → Option Text
main_bundle_from_entry name = bundle_of (split b'/' name) name

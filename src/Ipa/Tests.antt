-- ===== src/Ipa/Tests.antt =====
-- The inspection of archives at concrete files, and the theorems about it applied there.
use i_phone_loadly.Ipa.Platform.{from_info_plist}
use i_phone_loadly.Ipa.Inspect.{check_sizes, is_info_plist, next_bundle, saturating_add}
use i_phone_loadly.Common.{contains, ends_with, split, starts_with, to_ascii_lowercase, trim}
use i_phone_loadly.Ipa.Paths.{validate_archive_path}
use i_phone_loadly.Common.{
  ◌≡◌, refl, ok, err, true, Option, none, some, [], ◌∷◌, Text, codes, text_eq, if◌then◌else◌,
}
use i_phone_loadly.Ipa.{Plist, Entry, UploadFile, UploadMetadata, ios, unsafe_path}
use i_phone_loadly.Ipa.Paths.{main_bundle_from_entry}
use i_phone_loadly.Ipa.Paths.Bundle.{IsBundle, main_bundle_from_entry-IsBundle}
use i_phone_loadly.Ipa.Inspect.{inspect_ipa}
use i_phone_loadly.Ipa.Inspect.Safety.{IsSafe, inspect_ipa-IsSafe}

-- A reader for documents that are a bundle identifier and nothing else, for an iPhone.
abbrev simple_get : Text → Text → Option Text
simple_get id key =
    if text_eq key (codes "CFBundleIdentifier")
    then some id
    else if text_eq key (codes "DTPlatformName")
    then some (codes "iPhoneOS")
    else none

abbrev pub simple : Plist
simple = record {
  Value = Text;
  Dictionary = Text;
  from_reader = λ contents. some contents;
  as_dictionary = λ value. some value;
  get = simple_get;
  as_string = λ value. some value;
  as_array = λ _. none;
  as_unsigned_integer = λ _. none;
}

abbrev entry : Text → Entry
entry name = record {
  name = name;
  size = 7;
  compressed_size = 7;
  contents = some (codes "org.app");
}

abbrev pub upload : Text → UploadFile
upload name = record {
  len = some 4096;
  digest = some (codes "ab12");
  archive = some (some (entry (codes "Payload/App.app/Info.plist")) ∷ some (entry name) ∷ []);
}

abbrev pub metadata : UploadMetadata
metadata = record {
  sha256 = codes "ab12";
  size_bytes = 4096;
  app_bundle_path = codes "Payload/App.app";
  bundle_id = codes "org.app";
  display_name = codes "org.app";
  app_version = none;
  info_plist_present = true;
  platform = ios;
}

pub accepted : inspect_ipa simple (upload (codes "Payload/App.app/App")) ≡ ok metadata
unfolding inspect_ipa validate_archive_path starts_with contains split text_eq check_sizes
    saturating_add next_bundle main_bundle_from_entry ends_with is_info_plist trim from_info_plist
    to_ascii_lowercase
accepted = refl

escaping : inspect_ipa simple (upload (codes "Payload/../../etc")) ≡ err unsafe_path
unfolding inspect_ipa validate_archive_path starts_with contains split text_eq check_sizes
    saturating_add next_bundle main_bundle_from_entry ends_with is_info_plist
escaping = refl

inspect_ipa-IsSafe_example : IsSafe (upload (codes "Payload/App.app/App")) metadata
inspect_ipa-IsSafe_example =
    inspect_ipa-IsSafe simple (upload (codes "Payload/App.app/App")) metadata accepted

bundle :
    main_bundle_from_entry (codes "Payload/App.app/Info.plist") ≡ some (codes "Payload/App.app")
unfolding main_bundle_from_entry split text_eq ends_with
bundle = refl

main_bundle_from_entry-IsBundle_example :
    IsBundle (codes "Payload/App.app/Info.plist") (codes "Payload/App.app")
main_bundle_from_entry-IsBundle_example =
    main_bundle_from_entry-IsBundle (codes "Payload/App.app/Info.plist") (codes "Payload/App.app")
      bundle

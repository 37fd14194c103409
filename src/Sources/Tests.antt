-- ===== src/Sources/Tests.antt =====
-- The handlers of sources.rs at a concrete store, and the theorems about them applied there.
use i_phone_loadly.Common.{All}
use i_phone_loadly.Store.Sources.{has_id, update_github_source}
use i_phone_loadly.Sources.Edit
use i_phone_loadly.Sources.Edit.Resets.{IsReset, update-IsReset}
use i_phone_loadly.Store.Sources.{insert_github_source}
use i_phone_loadly.Github.Repository.{parse_public_repository}
use i_phone_loadly.Github.Assets.{match_ipa_asset, validate_asset_pattern}
use i_phone_loadly.Github.Releases.{latest_release}
use i_phone_loadly.Common.{
  first, update, is_unique, select, count, contains, ends_with, first, is_ascii_alphanumeric,
  is_control, select, split, starts_with, strip_prefix, to_ascii_lowercase, trim,
}
use i_phone_loadly.Common.{
  ◌+◌, ◌≡◌, refl, ok, true, false, none, some, [], ◌∷◌, Text, codes, not, text_eq,
}
use i_phone_loadly.Store.{Uuid, AppRow, SourceRow, initialize}
use i_phone_loadly.Store.Apps.{
  insert_app, active_job_exists_for_app, find_app, new_app, to_stored_app,
}
use i_phone_loadly.Store.Sources.{
  link_github_source_app, record_source_check, replace_app_from_source, find_github_source,
  new_source,
}
use i_phone_loadly.Github.Tests.{release, asset}
use i_phone_loadly.Ipa.Tests.{simple, upload, metadata, accepted}
use i_phone_loadly.Sources.{SourceConfig, HeaderMap, Response, action_allowed}
use i_phone_loadly.Sources.Check.{Releases, check, find_asset}
use i_phone_loadly.Sources.Check.Repeated.{check-again}
use i_phone_loadly.Sources.Edit.{create}
use i_phone_loadly.Sources.Edit.Guards.{IsCreated, create-IsCreated}
use i_phone_loadly.Sources.Download.{
  World, Outside, is_file, remove_file, replaced_path, added_path, store_asset, attempt, into_new,
  into_linked, replace, finish,
}
use i_phone_loadly.Sources.Download.Files.{store_asset-is_file}
use i_phone_loadly.Sources.Download.Missing.{store_asset-missing}
use i_phone_loadly.Sources.Download.Guards.{removed, store_asset_refused}

abbrev uuid_text : Uuid → Text
uuid_text id = (48 + id) ∷ []

abbrev headers : HeaderMap
headers = record { action = some (codes "1"); content_type = some (codes "application/json") }

abbrev source : SourceRow
source = new_source 120 7 none (codes "owner") (codes "repo") (codes "*.ipa") false

abbrev linked_source : SourceRow
linked_source = record source { app_id = some 1 }

abbrev linked_app : AppRow
linked_app =
    new_app 100 1 (codes "old") (codes "/apps/1.ipa") 4096 (codes "org.app") (codes "App") none

abbrev with_source : World
with_source = record { db = record initialize { sources = source ∷ [] }; files = [] }

abbrev with_linked : World
with_linked = record {
  db = record initialize { apps = linked_app ∷ []; sources = linked_source ∷ [] };
  files = codes "/apps/1.ipa" ∷ [];
}

abbrev releases : Releases
releases _ = ok (release 1 false ∷ [])

abbrev ipa_path : Text
ipa_path = codes "Payload/App.app/App"

abbrev outside : (World → World) → Outside
outside meanwhile = record {
  now = 500;
  releases = releases;
  asset = ok (upload ipa_path);
  temporary = codes "/apps/.source";
  new_app_id = 3;
  renames = true;
  meanwhile = meanwhile;
}

abbrev quiet : Outside
quiet = outside (λ w. w)

-- The other requests have removed the source.
abbrev removing : Outside
removing = outside (λ w. record w { db = record w.db { sources = [] } })

abbrev run : Outside → SourceRow → World → Response × World
run o s w =
    store_asset simple (codes "/apps") uuid_text o 7 s (release 1 false) asset (upload ipa_path) w

new_fetched : (run quiet source with_source).0.status ≡ 200
unfolding store_asset attempt into_new into_linked replace finish find_app first find_github_source
    insert_app link_github_source_app update is_unique record_source_check active_job_exists_for_app
    replace_app_from_source text_eq select count
new_fetched = rw (accepted, store_asset) refl

store_asset-missing_example :
    is_file (added_path (codes "/apps") uuid_text 3) (run quiet source with_source).1.files ≡ false
store_asset-missing_example =
    store_asset-missing simple (codes "/apps") uuid_text quiet 7 source (release 1 false) asset
      (upload ipa_path) metadata with_source accepted refl new_fetched

linked_fetched : (run quiet linked_source with_linked).0.status ≡ 200
unfolding store_asset attempt into_new into_linked replace finish find_app first find_github_source
    insert_app link_github_source_app update is_unique record_source_check active_job_exists_for_app
    replace_app_from_source text_eq select count
linked_fetched = rw (accepted, store_asset) refl

linked_found : find_app uuid_text with_linked.db 1 ≡ some (to_stored_app uuid_text linked_app)
unfolding find_app first
linked_found = refl

store_asset-is_file_example :
    is_file
      (replaced_path (codes "/apps") uuid_text 1 metadata.sha256)
      (run quiet linked_source with_linked).1.files
    ≡ not
        (text_eq (codes "/apps/1.ipa") (replaced_path (codes "/apps") uuid_text 1 metadata.sha256))
store_asset-is_file_example =
    store_asset-is_file simple (codes "/apps") uuid_text quiet 7 1 linked_source
      (to_stored_app uuid_text linked_app) (release 1 false) asset (upload ipa_path) metadata
      with_linked accepted refl linked_found linked_fetched

store_asset_refused_example :
    ((run removing linked_source with_linked).0.status ≡ 409)
    × ((run removing linked_source with_linked).1 ≡ record with_linked {
      db = record with_linked.db { sources = [] };
      files = remove_file (codes "/apps/.source") with_linked.files;
    })
unfolding find_github_source first
store_asset_refused_example =
    store_asset_refused simple (codes "/apps") uuid_text removing 7 linked_source (release 1 false)
      asset (upload ipa_path) metadata with_linked accepted (removed refl)

allowed : action_allowed headers ≡ true
unfolding action_allowed text_eq starts_with
allowed = refl

found : find_github_source with_source.db 7 ≡ some source
unfolding find_github_source first
found = refl

eligible : find_asset releases source ≡ ok (release 1 false, asset)
unfolding find_asset latest_release select match_ipa_asset trim is_control ends_with
    to_ascii_lowercase split starts_with
eligible = refl

check-again_example :
    (check 700 releases 7 headers (check 600 releases 7 headers with_source.db).1).0
    ≡ (check 600 releases 7 headers with_source.db).0
check-again_example =
    check-again 600 700 releases 7 headers with_source.db source (release 1 false) asset allowed
      found eligible

abbrev request : SourceConfig
request = record {
  repository = codes "https://github.com/owner/app";
  asset_pattern = codes "*.ipa";
  include_prereleases = false;
  app_id = none;
}

created_status : (create uuid_text 800 9 headers request with_source.db).0.status ≡ 201
unfolding create action_allowed text_eq starts_with parse_public_repository trim contains split
    strip_prefix is_ascii_alphanumeric validate_asset_pattern is_control insert_github_source
created_status = refl

create-IsCreated_example :
    IsCreated uuid_text 800 9 headers request with_source.db
      (create uuid_text 800 9 headers request with_source.db).1
create-IsCreated_example =
    create-IsCreated uuid_text 800 9 headers request with_source.db created_status

updated_status : (Edit.update uuid_text 800 7 headers request with_source.db).0.status ≡ 204
unfolding Edit.update action_allowed text_eq starts_with parse_public_repository trim contains split
    strip_prefix is_ascii_alphanumeric validate_asset_pattern is_control update_github_source first
    update count is_unique
updated_status = refl

update-IsReset_example :
    All
      (λ s. has_id 7 s ≡ true → IsReset request s)
      (Edit.update uuid_text 800 7 headers request with_source.db).1.sources
update-IsReset_example =
    update-IsReset uuid_text 800 7 headers request with_source.db updated_status

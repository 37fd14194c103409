-- ===== src/AppHandlers/Tests.antt =====
-- A removal whose file cannot be removed, and the theorem about it applied there.
use i_phone_loadly.Common.{◌≡◌, refl, true, Text, is_unique}
use i_phone_loadly.Store.Apps.{clashes}
use i_phone_loadly.Store.Tests.{db}
use i_phone_loadly.AppHandlers.{FileRemoval, not_removed, delete_ipa}
use i_phone_loadly.AppHandlers.Removal.{IsDeleted, delete_ipa-IsDeleted}

abbrev locked : Text → FileRemoval
locked _ = not_removed

apps_differ : is_unique clashes db.apps ≡ true
unfolding is_unique
apps_differ = refl

delete_ipa-IsDeleted_example :
    IsDeleted 1 locked db (delete_ipa 300 1 locked db).1 (delete_ipa 300 1 locked db).0
delete_ipa-IsDeleted_example = delete_ipa-IsDeleted 300 1 locked db apps_differ

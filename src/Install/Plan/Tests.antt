-- ===== src/Install/Plan/Tests.antt =====
-- A file system in which every directory holds another one, and the theorem applied there.
use i_phone_loadly.Common.{false, true, none, some, [], ◌∷◌, codes, ok}
use i_phone_loadly.Install.Upload.Tests.{identity}
use i_phone_loadly.Install.Plan.{
  RelativePath, Directory, Root, normal, dir, plan_signed_bundle_until,
}
use i_phone_loadly.Install.Plan.Total.{Finishes, plan_signed_bundle_until-Finishes}

abbrev endless : RelativePath → Directory
endless path = record {
  is_late = false;
  kind = some dir;
  hardens = true;
  place = none;
  children = some (
      record {
        is_late = false;
        child = some (record {
          name = normal (codes "d");
          kind = some dir;
          place = none;
          hardens = true;
          size = 0;
          identity = some identity;
          digest = ok [];
        });
      }
      ∷ []);
}

abbrev root : Root
root = record {
  is_late = false;
  kind = some dir;
  hardens = true;
  has_canonical = true;
  is_late_after = false;
}

plan_signed_bundle_until-Finishes_example : Finishes (plan_signed_bundle_until root endless)
plan_signed_bundle_until-Finishes_example = plan_signed_bundle_until-Finishes root endless

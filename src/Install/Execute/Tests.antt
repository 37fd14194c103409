-- ===== src/Install/Execute/Tests.antt =====
-- An installation that goes through, and the theorem about it applied there.
use i_phone_loadly.Common.{Text, Bool, true, false, some, codes, ok}
use i_phone_loadly.Install.Upload.{TaskStagingPath, stage_signed_bundle}
use i_phone_loadly.Install.Upload.Tests.{sum, outside, plan}
use i_phone_loadly.Install.Upload.Tests
use i_phone_loadly.Install.Execute.{
  Answers, planned, ended, removed, upgrade, execute_rsd_first_install,
}
use i_phone_loadly.Install.Execute.Sound.{IsTruthful}
use i_phone_loadly.Install.Execute.Truth.{execute_rsd_first_install-IsTruthful}

abbrev pub answers : Answers
answers = record {
  has_lookup_client = true;
  lookup_before = some false;
  planning = planned plan;
  has_afc = true;
  upload = ended;
  window_start = 100;
  now = 100;
  has_install_client = true;
  command = ok tt;
  verification_start = 110;
  verification_now = 111;
  has_verification_client = true;
  lookup_after = some true;
  has_cleaning_client = true;
  removal = removed;
}

abbrev pub is_uuid : Text → Bool
is_uuid _ = true

abbrev pub staging : TaskStagingPath
staging = record {
  root = codes "PublicStaging/iphoneloadly-spike-1";
  app = codes "PublicStaging/iphoneloadly-spike-1/Signed.app";
}

execute_rsd_first_install-IsTruthful_example : IsTruthful answers (codes "org.app") 3600 (
    execute_rsd_first_install is_uuid staging
      (stage_signed_bundle sum outside Tests.answers staging)
      answers
      (codes "org.app")
      false
      3600
      upgrade)
execute_rsd_first_install-IsTruthful_example =
    execute_rsd_first_install-IsTruthful is_uuid staging sum outside Tests.answers answers
      (codes "org.app") false 3600 upgrade

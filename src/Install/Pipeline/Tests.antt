-- ===== src/Install/Pipeline/Tests.antt =====
-- An installation from the first session on.
use i_phone_loadly.Install.Outcome.{install_verification_deadline}
use i_phone_loadly.Install.Upload.{stage_entries, stage_entry, stage_root, stage_signed_bundle}
use i_phone_loadly.Install.Execute.{clean_exact_task_staging, execute_rsd_first_install}
use i_phone_loadly.Common.{strip_prefix, text_eq}
use i_phone_loadly.Common.{◌≡◌, refl, true, false, none, some, codes, ok}
use i_phone_loadly.Install.{RsdInstallOutcome, RsdSessionCleanup}
use i_phone_loadly.Install.Identity.{SigningDeviceIdentity}
use i_phone_loadly.Install.Upload.Tests.{sum, outside}
use i_phone_loadly.Install.Upload.Tests
use i_phone_loadly.Install.Execute.{upgrade}
use i_phone_loadly.Install.Execute.Tests.{answers, is_uuid, staging}
use i_phone_loadly.Install.Pipeline.{
  Run, Preflight, opened, signed, rsd_install_timeout, install_remote_pairing_app,
}
use i_phone_loadly.Install.Pipeline.Proven.{execute}

abbrev identity : SigningDeviceIdentity
identity = record {
  name = codes "Phone";
  udid = codes "u1";
  apple_tv = false;
  product_type = some (codes "iPhone14,2");
  ios_version = none;
}

abbrev preflight : Preflight
preflight = record {
  development_certificate_count = 1;
  development_certificate_capacity = some 2;
  machine_certificate_present = true;
}

abbrev pub run : Run
run = record {
  first_opening = opened;
  first_identity = some (ok identity);
  first_close = RsdSessionCleanup.succeeded;
  signing = signed preflight (some (codes "org.app"));
  second_opening = opened;
  second_identity = some (ok identity);
  second_close = RsdSessionCleanup.succeeded;
}

installs_app :
    (install_remote_pairing_app
      (execute is_uuid staging sum outside Tests.answers answers run 50 upgrade)
      run
      50
      upgrade).0.outcome
    ≡ RsdInstallOutcome.installed
unfolding install_remote_pairing_app text_eq execute_rsd_first_install stage_signed_bundle
    stage_root stage_entries stage_entry rsd_install_timeout clean_exact_task_staging strip_prefix
    install_verification_deadline
installs_app = refl

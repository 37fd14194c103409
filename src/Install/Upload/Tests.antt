-- ===== src/Install/Upload/Tests.antt =====
-- An upload of a directory and a file, and the theorems about it applied there.
use i_phone_loadly.Common.{◌≡◌, refl, true, false, some, [], ◌∷◌, codes, ok, text_eq}
use i_phone_loadly.Install.Upload.{
  Bytes, FileIdentity, file, UploadEntry, SignedBundleUploadPlan, Outside, Metadata, Progress,
  Staging, TaskStagingPath, stage_signed_bundle, stage_root, stage_entries, stage_entry,
}
use i_phone_loadly.Install.Upload.Replay.{replay}
use i_phone_loadly.Install.Upload.Copies.{Uploads, stage_signed_bundle-Uploads}
use i_phone_loadly.Install.Upload.Percent.{Climbing, stage_signed_bundle-Climbing}

abbrev pub identity : FileIdentity
identity = record { volume = 1; file = 2; version = 3 }

abbrev pub sum : Bytes → Bytes
sum bytes = 7 ∷ bytes

abbrev pub plan : SignedBundleUploadPlan
plan = record {
  entries =
      record {
        local_path = codes "/a/f";
        remote_relative_path = codes "f";
        kind = file 3 identity (7 ∷ 1 ∷ 2 ∷ 3 ∷ []);
      }
      ∷ [];
  byte_count = 3;
}

abbrev metadata : Metadata
metadata = record {
  is_symlink = false;
  is_dir = false;
  is_file = true;
  len = 3;
  identity = some identity;
}

abbrev pub outside : UploadEntry → Outside
outside entry = record {
  metadata = some metadata;
  is_inside = true;
  opened = some metadata;
  reads = some (1 ∷ 2 ∷ []) ∷ some (3 ∷ []) ∷ some [] ∷ [];
  final = some metadata;
  makes = true;
  opens_file = true;
  takes = λ _. true;
  closes_file = true;
}

abbrev pub answers : Staging
answers = record {
  is_directory = some true;
  root_exists = some false;
  makes_root = true;
  makes_app = true;
}

abbrev staging : TaskStagingPath
staging = record { root = codes "r"; app = codes "r/Signed.app" }

abbrev end : Progress
end = record { bytes_sent = 3; last_percent = 85; content = 1 ∷ 2 ∷ 3 ∷ [] }

uploads_all : (stage_signed_bundle sum outside answers staging plan).0.0 ≡ ok end
unfolding stage_signed_bundle stage_root stage_entries stage_entry text_eq
uploads_all = refl

stage_signed_bundle-Uploads_example :
    Uploads sum staging.app plan.entries []
      (replay (stage_signed_bundle sum outside answers staging plan).0.1 [])
stage_signed_bundle-Uploads_example =
    stage_signed_bundle-Uploads sum outside answers staging plan end uploads_all

stage_signed_bundle-Climbing_example :
    Climbing 40 (stage_signed_bundle sum outside answers staging plan).0
stage_signed_bundle-Climbing_example = stage_signed_bundle-Climbing sum outside answers staging plan

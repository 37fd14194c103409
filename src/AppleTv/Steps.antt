-- ===== src/AppleTv/Steps.antt =====
-- `run_pairing` of apple_tv.rs, the task of a session, as steps between those of the requests. The
-- task writes when the device asks for the PIN, when the pairing has failed or succeeded, and when the
-- device was reached or not; an aborted task may still do its next step.
use i_phone_loadly.Common.{
  Text, Bool, Option, none, some, List, [], ◌==◌, ◌≡◌, Result, ok, err, if◌then◌else◌,
}
use i_phone_loadly.Store.{Uuid, Timestamp}
use i_phone_loadly.AppleTv.{
  ManualPairingTarget, PairingStatus, PairingError, Session, AppleTv, awaiting_pin, verifying,
  failed, status, submit_pin, cancel, discover, start, set_phase, set_ready, if_active,
}

-- Where the task of an identifier is.
pub data Point : Type 0 where
  absent pairing identifying ended : Point

pub record World : Type 0 where
  pub tv : AppleTv
  pub points : Uuid → Point

abbrev pub moved : Uuid → Point → (Uuid → Point) → Uuid → Point
moved id point points other = if other == id then point else points other

-- The task is spawned where the session is begun.
abbrev pub spawned : Uuid → Result PairingError PairingStatus → (Uuid → Point) → Uuid → Point
spawned id (ok _) points = moved id pairing points
spawned id (err _) points = points

abbrev pub write_to : (Session → Session) → Option Session → Option Session
write_to change none = none
write_to change (some s) = some (change s)

-- A write of the task of the session `id`.
unfoldable pub write : Uuid → (Session → Session) → AppleTv → AppleTv
write id change tv = record tv { session = write_to (if_active id change) tv.session }

abbrev pub written : Uuid → (Session → Session) → Point → World → World
written id change point v = record { tv = write id change v.tv; points = moved id point v.points }

-- One request, or one write of a task. The identifier of a new session is new.
pub data Step (v : World) : World → Type 0 where
  starts :
      (now : Timestamp) (id : Uuid) (identifier : Text)
      (discovered : Option (List ManualPairingTarget))
      → v.points id ≡ absent
      → Step v (record {
        tv = (start now id identifier discovered v.tv).1;
        points = spawned id (start now id identifier discovered v.tv).0 v.points;
      })
  discovers :
      (discovered : Option (List ManualPairingTarget))
      → Step v (record v { tv = (discover discovered v.tv).1 })
  asks : (now : Timestamp) (id : Uuid) → Step v (record v { tv = (status now id v.tv).1 })
  submits :
      (now : Timestamp) (is_open : Bool) (id : Uuid)
      → Step v (record v { tv = (submit_pin now is_open id v.tv).1 })
  cancels : (id : Uuid) → Step v (record v { tv = (cancel id v.tv).1 })
  prompts :
      (id : Uuid)
      → v.points id ≡ pairing
      → Step v (written id (set_phase awaiting_pin none) pairing v)
  fails :
      (id : Uuid) (failure : Text)
      → v.points id ≡ pairing
      → Step v (written id (set_phase failed (some failure)) ended v)
  pairs :
      (id : Uuid)
      → v.points id ≡ pairing
      → Step v (written id (set_phase verifying none) identifying v)
  reaches :
      (id : Uuid) (identity : Option Text)
      → v.points id ≡ identifying
      → Step v (written id (set_ready identity) ended v)

pub data Steps (v : World) : World → Type 0 where
  stay : Steps v v
  step : {w x : World} → Steps v w → Step w x → Steps v x

abbrev pub initial : World
initial = record { tv = record { targets = []; session = none }; points = λ _. absent }

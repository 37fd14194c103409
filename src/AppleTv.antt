-- ===== src/AppleTv.antt =====
-- The pairing of an Apple TV by its PIN (crates/iphoneloadly-api/src/apple_tv.rs): the session, its
-- operations and, in the children, the task that pairs, the steps of both and the handlers. The
-- discovery, the pairing protocol and the clock are arguments.
pub mod Steps
pub mod Order
pub mod Handlers
pub mod Tests
use i_phone_loadly.Common.{
  ℕ, ◌+◌, Text, Bool, true, false, not, ◌&&◌, Option, none, some, List, codes, leb, ◌==◌, text_eq,
  first, Result, ok, err, if◌then◌else◌,
}
use i_phone_loadly.Store.{Uuid, Timestamp}

abbrev pub session_lifetime : ℕ
session_lifetime = 300

-- A discovered device, less the addresses and the key that the pairing protocol uses.
pub record ManualPairingTarget : Type 0 where
  pub identifier : Text
  pub name : Text

pub data PairingPhase : Type 0 where
  connecting awaiting_pin verifying ready failed cancelled expired : PairingPhase

unfoldable pub is_terminal : PairingPhase → Bool
is_terminal connecting = false
is_terminal awaiting_pin = false
is_terminal verifying = false
is_terminal _ = true

abbrev pub is_awaiting_pin : PairingPhase → Bool
is_awaiting_pin awaiting_pin = true
is_awaiting_pin _ = false

pub record PairingStatus : Type 0 where
  pub id : Uuid
  pub phase : PairingPhase
  pub device_name : Text
  pub expires_at : Timestamp
  pub failure_code : Option Text
  pub verified : Bool

pub data PairingError : Type 0 where
  unknown_target busy not_found terminal not_awaiting_pin : PairingError

-- `has_pin` tells that the sender of the PIN is still there, `is_aborted` that the task was told to
-- stop.
pub record Session : Type 0 where
  pub status : PairingStatus
  pub has_pin : Bool
  pub is_aborted : Bool

pub record AppleTv : Type 0 where
  pub targets : List ManualPairingTarget
  pub session : Option Session

abbrev pub with_phase : PairingPhase → Session → Session
with_phase phase s = record s { status = record s.status { phase = phase } }

-- The task is told to stop and the sender is dropped.
abbrev pub stopped : PairingPhase → Session → Session
stopped phase s = record (with_phase phase s) { has_pin = false; is_aborted = true }

unfoldable pub expire_if_due : Timestamp → Session → Session
unfolding is_terminal
expire_if_due now s =
    if not (is_terminal s.status.phase) && leb s.status.expires_at now then stopped expired s else s

-- `current.filter(|session| session.status.id == id)`, with the reply of what is done to it
abbrev pub on_session {ℓ} :
    {A : Type ℓ}
    → Uuid
    → (Session → Result PairingError A × Session)
    → AppleTv
    → Result PairingError A × AppleTv
on_session id operation tv = elim tv.session [
  | none ↦ (err not_found, tv)
  | some s ↦
      if s.status.id == id
      then (let (reply, after) = operation s in (reply, record tv { session = some after }))
      else (err not_found, tv)
]

abbrev pub status_of : Timestamp → Session → Result PairingError PairingStatus × Session
status_of now s = let after = expire_if_due now s in (ok after.status, after)

unfoldable pub status : Timestamp → Uuid → AppleTv → Result PairingError PairingStatus × AppleTv
unfolding expire_if_due
status now id tv = on_session id (status_of now) tv

-- `is_open` tells that the task still holds the receiver.
abbrev send_pin : Bool → Session → Result PairingError PairingStatus × Session
send_pin is_open s =
    let taken = record s { has_pin = false } in
    let verified = with_phase verifying taken in
    if not s.has_pin
    then (err not_awaiting_pin, s)
    else if is_open
    then (ok verified.status, verified)
    else (err terminal, taken)

abbrev pub submit : Timestamp → Bool → Session → Result PairingError PairingStatus × Session
submit now is_open s =
    let due = expire_if_due now s in
    if is_awaiting_pin due.status.phase then send_pin is_open due else (err not_awaiting_pin, due)

unfoldable pub submit_pin :
    Timestamp → Bool → Uuid → AppleTv → Result PairingError PairingStatus × AppleTv
unfolding expire_if_due
submit_pin now is_open id tv = on_session id (submit now is_open) tv

abbrev pub cancel_session : Session → Result PairingError (Unit {0}) × Session
cancel_session s =
    if is_terminal s.status.phase then (err terminal, s) else (ok tt, stopped cancelled s)

unfoldable pub cancel : Uuid → AppleTv → Result PairingError (Unit {0}) × AppleTv
unfolding is_terminal
cancel id tv = on_session id cancel_session tv

-- `discovered` is none when the discovery fails.
unfoldable pub discover :
    Option (List ManualPairingTarget) → AppleTv → Option (List ManualPairingTarget) × AppleTv
discover none tv = (none, tv)
discover (some targets) tv = (some targets, record tv { targets = targets })

abbrev pub has_identifier : Text → ManualPairingTarget → Bool
has_identifier identifier target = text_eq target.identifier identifier

-- The target of the last discovery, or of a new one.
unfoldable pub find_target :
    Text → Option (List ManualPairingTarget) → AppleTv → Option ManualPairingTarget × AppleTv
unfolding discover
find_target identifier discovered tv = elim (first (has_identifier identifier) tv.targets) [
  | some target ↦ (some target, tv)
  | none ↦
      let (found, after) = discover discovered tv in
      (elim found [ none ↦ none | some targets ↦ first (has_identifier identifier) targets ], after)
]

abbrev pub new_session : Timestamp → Uuid → ManualPairingTarget → Session
new_session now id target = record {
  status = record {
    id = id;
    phase = connecting;
    device_name = target.name;
    expires_at = now + session_lifetime;
    failure_code = none;
    verified = false;
  };
  has_pin = true;
  is_aborted = false;
}

abbrev pub begin :
    Timestamp → Uuid → ManualPairingTarget → AppleTv → Result PairingError PairingStatus × AppleTv
begin now id target tv =
    let s = new_session now id target in (ok s.status, record tv { session = some s })

-- the part under the lock of the session
unfoldable pub start_target :
    Timestamp → Uuid → ManualPairingTarget → AppleTv → Result PairingError PairingStatus × AppleTv
unfolding expire_if_due
start_target now id target tv = elim tv.session [
  | none ↦ begin now id target tv
  | some s ↦
      let due = expire_if_due now s in
      if is_terminal due.status.phase
      then begin now id target tv
      else (err busy, record tv { session = some due })
]

unfoldable pub start :
    Timestamp
    → Uuid
    → Text
    → Option (List ManualPairingTarget)
    → AppleTv
    → Result PairingError PairingStatus × AppleTv
unfolding find_target
start now id identifier discovered tv =
    let (found, after) = find_target identifier discovered tv in
    elim found [
      | none ↦ (err unknown_target, after)
      | some target ↦ start_target now id target after
    ]

-- What the task writes, if the session is its own and has not ended.
unfoldable pub set_phase : PairingPhase → Option Text → Session → Session
unfolding is_terminal
set_phase phase failure_code s = if is_awaiting_pin phase && not s.has_pin then s else record s {
  status = record s.status { phase = phase; failure_code = failure_code };
  has_pin = s.has_pin && not (is_terminal phase);
}

abbrev named : Option Text → PairingStatus → PairingStatus
named none status = status
named (some name) status = record status { device_name = name }

-- The end of the task; `identity` is the name of the device that was reached.
unfoldable pub set_ready : Option Text → Session → Session
set_ready identity s = record s {
  status = named identity (record s.status {
    phase = ready;
    verified = elim identity [ none ↦ false | some _ ↦ true ];
  });
}

-- A write of the task of the session `id`.
abbrev pub if_active : Uuid → (Session → Session) → Session → Session
if_active id change s =
    if s.status.id == id && not (is_terminal s.status.phase) then change s else s

-- ===== src/AppleTv/Handlers.antt =====
-- The handlers of apple_tv.rs. The state of the server has no `AppleTv` where the support is off.
pub mod Guards
use i_phone_loadly.Common.{
  ℕ, Text, Bool, true, false, not, ◌&&◌, ◌==◌, Option, none, some, List, codes, length, all,
  is_ascii_digit, text_eq, trim, Result, ok, err, if◌then◌else◌,
}
use i_phone_loadly.Store.{Uuid, Timestamp}
use i_phone_loadly.Sources.{HeaderMap, action_allowed}
use i_phone_loadly.AppleTv
use i_phone_loadly.AppleTv.{
  AppleTv, ManualPairingTarget, PairingStatus, PairingError, unknown_target, busy, not_found,
  terminal, not_awaiting_pin,
}

unfoldable pub enabled : Option Text → Bool
enabled none = false
enabled (some value) = text_eq (trim value) (codes "on")

-- A PIN has six bytes, all of them digits, and so six characters.
unfoldable pub valid_pin : Text → Bool
valid_pin pin = length pin == 6 && all is_ascii_digit pin

pub data Body : Type 0 where
  message : Text → Body
  pairing : PairingStatus → Body
  targets : List ManualPairingTarget → Body
  overview_of : Bool → Bool → Body
  empty : Body

pub record Response : Type 0 where
  pub code : ℕ
  pub body : Body

abbrev pub reply : ℕ → Body → Response
reply code body = record { code = code; body = body }

abbrev pub disabled : Response
disabled = reply 404 (message (codes "Apple TV support is not enabled."))

abbrev pub action_required : Response
action_required = reply 400 (message (codes "JSON action header required."))

abbrev pub bad_pin : Response
bad_pin = reply 400 (message (codes "The PIN must be six digits."))

unfoldable pub pairing_error : PairingError → Response
pairing_error unknown_target = reply 404 (
    message
      (codes "The Apple TV was not found. Open Remote App and Devices on it and search again."))
pairing_error busy = reply 409 (message (codes "An Apple TV pairing is already in progress."))
pairing_error not_found = reply 404 (message (codes "Apple TV pairing session was not found."))
pairing_error terminal = reply 409 (message (codes "Apple TV pairing session is already finished."))
pairing_error not_awaiting_pin =
    reply 409 (message (codes "The Apple TV is not waiting for a PIN."))

abbrev pub State : Type 0
State = Option AppleTv

abbrev pub status_reply : ℕ → Result PairingError PairingStatus → Response
status_reply code (ok status) = reply code (pairing status)
status_reply code (err error) = pairing_error error

abbrev empty_reply : Result PairingError (Unit {0}) → Response
empty_reply (ok _) = reply 204 empty
empty_reply (err error) = pairing_error error

-- `is_paired` is what the service of the Apple TV answers.
unfoldable pub overview : Bool → State → Response
overview is_paired none = reply 200 (overview_of false false)
overview is_paired (some tv) = reply 200 (overview_of true is_paired)

abbrev discover_reply : Option (List ManualPairingTarget) → Response
discover_reply none = reply 503 (message (codes "Apple TV discovery is unavailable on this host."))
discover_reply (some found) = reply 200 (targets found)

unfoldable pub discover_handler : Option (List ManualPairingTarget) → State → Response × State
discover_handler discovered none = (disabled, none)
discover_handler discovered (some tv) =
    let (found, after) = AppleTv.discover discovered tv in (discover_reply found, some after)

unfoldable pub start_pairing :
    Timestamp
    → Uuid
    → HeaderMap
    → Text
    → Option (List ManualPairingTarget)
    → State
    → Response × State
start_pairing now id headers identifier discovered none = (disabled, none)
start_pairing now id headers identifier discovered (some tv) =
    let (result, after) = AppleTv.start now id (trim identifier) discovered tv in
    if not (action_allowed headers)
    then (action_required, some tv)
    else (status_reply 202 result, some after)

unfoldable pub pairing_status : Timestamp → Uuid → State → Response × State
pairing_status now id none = (disabled, none)
pairing_status now id (some tv) =
    let (result, after) = AppleTv.status now id tv in (status_reply 200 result, some after)

unfoldable pub pin_handler : Timestamp → Bool → HeaderMap → Uuid → Text → State → Response × State
unfolding valid_pin
pin_handler now is_open headers id text none = (disabled, none)
pin_handler now is_open headers id text (some tv) =
    let (result, after) = AppleTv.submit_pin now is_open id tv in
    if not (action_allowed headers)
    then (action_required, some tv)
    else if not (valid_pin (trim text))
    then (bad_pin, some tv)
    else (status_reply 202 result, some after)

unfoldable pub cancel_pairing : HeaderMap → Uuid → State → Response × State
cancel_pairing headers id none = (disabled, none)
cancel_pairing headers id (some tv) =
    let (result, after) = AppleTv.cancel id tv in
    if not (action_allowed headers)
    then (action_required, some tv)
    else (empty_reply result, some after)

-- `is_removed` tells whether the file of the pairing could be removed.
unfoldable pub forget : HeaderMap → Bool → State → Response
forget headers is_removed none = disabled
forget headers is_removed (some tv) =
    if not (action_allowed headers)
    then action_required
    else if is_removed
    then reply 204 empty
    else reply 500 (message (codes "The Apple TV pairing could not be removed."))

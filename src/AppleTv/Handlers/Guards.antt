-- ===== src/AppleTv/Handlers/Guards.antt =====
-- What the handlers of the Apple TV let through.
use i_phone_loadly.Common.{
  ℕ, ◌≡◌, refl, ap, Text, Bool, true, false, not, none, some, length, all, if-intro, is_ascii_digit,
  trim, Result, ok, err, not-eq-false, not-eq-true, arith,
}
use i_phone_loadly.Store.{Uuid, Timestamp}
use i_phone_loadly.Sources.{HeaderMap, action_allowed}
use i_phone_loadly.AppleTv.{
  AppleTv, PairingStatus, PairingError, unknown_target, busy, not_found, terminal, not_awaiting_pin,
  submit_pin,
}
use i_phone_loadly.AppleTv.Handlers.{
  Response, State, status_reply, valid_pin, pairing_error, pin_handler,
}

-- The errors of a session that is not there.
abbrev pub is_missing : PairingError → Bool
is_missing unknown_target = true
is_missing busy = false
is_missing not_found = true
is_missing terminal = false
is_missing not_awaiting_pin = false

-- A PIN that the handler hands on.
pub record IsPassed (headers : HeaderMap) (text : Text) : Type 0 where
  pub allowed : action_allowed headers ≡ true
  pub six : length (trim text) ≡ 6
  pub digits : all is_ascii_digit (trim text) ≡ true

-- The answers to a PIN, with the state before and after and the status code.
pub data IsAnswered (now : Timestamp) (is_open : Bool) (headers : HeaderMap) (id : Uuid)
    (text : Text) (before after : State) : ℕ → Type 0 where
  is_off : before ≡ none → after ≡ before → IsAnswered now is_open headers id text before after 404
  no_header :
      (tv : AppleTv)
      → before ≡ some tv
      → action_allowed headers ≡ false
      → after ≡ before
      → IsAnswered now is_open headers id text before after 400
  no_pin :
      (tv : AppleTv)
      → before ≡ some tv
      → action_allowed headers ≡ true
      → ¬ ((length (trim text) ≡ 6) × (all is_ascii_digit (trim text) ≡ true))
      → after ≡ before
      → IsAnswered now is_open headers id text before after 400
  taken :
      (tv next : AppleTv) (status : PairingStatus)
      → before ≡ some tv
      → IsPassed headers text
      → submit_pin now is_open id tv ≡ (ok status, next)
      → after ≡ some next
      → IsAnswered now is_open headers id text before after 202
  missed :
      (tv next : AppleTv) (error : PairingError)
      → before ≡ some tv
      → IsPassed headers text
      → submit_pin now is_open id tv ≡ (err error, next)
      → is_missing error ≡ true
      → after ≡ some next
      → IsAnswered now is_open headers id text before after 404
  conflicted :
      (tv next : AppleTv) (error : PairingError)
      → before ≡ some tv
      → IsPassed headers text
      → submit_pin now is_open id tv ≡ (err error, next)
      → is_missing error ≡ false
      → after ≡ some next
      → IsAnswered now is_open headers id text before after 409

valid_pin-digits :
    (pin : Text) → valid_pin pin ≡ true → (length pin ≡ 6) × (all is_ascii_digit pin ≡ true)
unfolding valid_pin
valid_pin-digits pin h = ground arith

valid_pin-not_digits :
    (pin : Text) → valid_pin pin ≡ false → ¬ ((length pin ≡ 6) × (all is_ascii_digit pin ≡ true))
unfolding valid_pin
valid_pin-not_digits pin h (six, digits) = ground arith

-- A PIN is handed to the pairing only where Apple TV support is on, the request has the headers of
-- an action and the trimmed PIN is six ASCII digits. The answer is then 202 where the session takes
-- the PIN, 404 where it reports an unknown target or session, and 409 for its other errors, and the
-- state is the one that the session leaves. Without the support the answer is 404, without the headers
-- or the six digits it is 400, and the state stays.
pub pin_handler-IsAnswered :
    (now : Timestamp) (is_open : Bool) (headers : HeaderMap) (id : Uuid) (text : Text)
    (before : State)
    → IsAnswered now is_open headers id text before
        (pin_handler now is_open headers id text before).1
        (pin_handler now is_open headers id text before).0.code
unfolding pin_handler pairing_error
pin_handler-IsAnswered now is_open headers id text none = is_off refl refl
pin_handler-IsAnswered now is_open headers id text (some tv) =
    if-intro Shown (not (action_allowed headers))
      (λ refused. no_header tv refl (not-eq-true _ refused) refl)
      λ allowed.
        if-intro Shown (not (valid_pin (trim text)))
          (λ bad.
            no_pin tv refl (not-eq-false _ allowed)
              (valid_pin-not_digits (trim text) (not-eq-true _ bad)) refl)
          λ valid.
            let (six, digits) = valid_pin-digits (trim text) (not-eq-false _ valid) in
            handed (record { allowed = not-eq-false _ allowed; six = six; digits = digits })
              (submit_pin now is_open id tv).0 refl
  where
    Shown : Response × State → Type 0
    Shown r = IsAnswered now is_open headers id text (some tv) r.1 r.0.code

    left : AppleTv
    left = (submit_pin now is_open id tv).1

    handed :
        IsPassed headers text
        → (result : Result PairingError PairingStatus) → (submit_pin now is_open id tv).0 ≡ result
        → Shown (status_reply 202 result, some left)
    handed p (ok status) e = taken tv left status refl p (ap (λ r. (r, left)) e) refl
    handed p (err unknown_target) e =
        missed tv left unknown_target refl p (ap (λ r. (r, left)) e) refl refl
    handed p (err busy) e = conflicted tv left busy refl p (ap (λ r. (r, left)) e) refl refl
    handed p (err not_found) e = missed tv left not_found refl p (ap (λ r. (r, left)) e) refl refl
    handed p (err terminal) e = conflicted tv left terminal refl p (ap (λ r. (r, left)) e) refl refl
    handed p (err not_awaiting_pin) e =
        conflicted tv left not_awaiting_pin refl p (ap (λ r. (r, left)) e) refl refl

-- ===== src/AppleTv/Order.antt =====
-- The phases of one session: they only go forward, and the last one stays.
pub mod Writes
pub mod Requests
pub mod Run
pub mod Once
use i_phone_loadly.Common.{ℕ, ◌≡◌, ◌≤◌, true, refl, ◌∙◌, Option, some}
use i_phone_loadly.AppleTv.{
  PairingPhase, connecting, awaiting_pin, verifying, ready, failed, cancelled, expired, is_terminal,
  Session,
}

abbrev pub rank : PairingPhase → ℕ
rank connecting = 0
rank awaiting_pin = 1
rank verifying = 2
rank _ = 3

-- How a session may go on: as it was, once it has ended.
pub record IsForward (s t : Session) : Type 0 where
  pub same_id : t.status.id ≡ s.status.id
  pub same_expiry : t.status.expires_at ≡ s.status.expires_at
  pub higher : rank s.status.phase ≤ rank t.status.phase
  pub ended : is_terminal s.status.phase ≡ true → t ≡ s

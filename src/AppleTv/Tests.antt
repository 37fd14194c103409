-- ===== src/AppleTv/Tests.antt =====
-- A pairing that goes through, and the theorems about it applied there.
use i_phone_loadly.Common.{
  text_eq, first, ◌≡◌, ◌≢◌, refl, true, Option, none, some, List, [], ◌∷◌, codes, ok,
}
use i_phone_loadly.Sources.{HeaderMap}
use i_phone_loadly.AppleTv
use i_phone_loadly.AppleTv.{
  ManualPairingTarget, Session, PairingStatus, AppleTv, awaiting_pin, verifying, new_session,
  set_phase, submit_pin, start, find_target, discover, start_target, is_terminal, expire_if_due,
}
use i_phone_loadly.AppleTv.Steps.{
  World, stay, step, starts, submits, prompts, write, pairing, initial, cancels, written, spawned,
}
use i_phone_loadly.AppleTv.Order.Run.{Reach, Later, Steps-IsForward}
use i_phone_loadly.AppleTv.Order.Once.{submit_pin-once}
use i_phone_loadly.AppleTv.Handlers.{pin_handler}
use i_phone_loadly.AppleTv.Handlers.Guards.{IsAnswered, pin_handler-IsAnswered}

abbrev living_room : ManualPairingTarget
living_room = record { identifier = codes "a1"; name = codes "Living Room" }

abbrev found : Option (List ManualPairingTarget)
found = some (living_room ∷ [])

-- the session 5 is begun at 1000
abbrev begun : World
begun = record {
  tv = (start 1000 5 (codes "a1") found initial.tv).1;
  points = spawned 5 (start 1000 5 (codes "a1") found initial.tv).0 initial.points;
}

begun-Reach : Reach begun
begun-Reach = step stay (starts 1000 5 (codes "a1") found refl)

-- the device asks for the PIN
abbrev prompted : World
prompted = written 5 (set_phase awaiting_pin none) pairing begun

begun_pairs : begun.points 5 ≡ pairing
unfolding text_eq first start find_target discover start_target
begun_pairs = refl

prompted-Reach : Reach prompted
prompted-Reach = step begun-Reach (prompts 5 begun_pairs)

abbrev waiting : Session
waiting = record (new_session 1000 5 living_room) {
  status = record (new_session 1000 5 living_room).status { phase = awaiting_pin };
}

prompted_waits : prompted.tv.session ≡ some waiting
unfolding text_eq first start find_target discover start_target write set_phase is_terminal
prompted_waits = refl

abbrev submitted : World
submitted = record prompted { tv = (submit_pin 1010 true 5 prompted.tv).1 }

submitted_verifies :
    (submit_pin 1010 true 5 prompted.tv).0 ≡ ok (record waiting.status { phase = verifying })
unfolding text_eq first start find_target discover start_target write set_phase is_terminal
    submit_pin expire_if_due
submitted_verifies = refl

Steps-IsForward_example : Later waiting submitted.tv.session
Steps-IsForward_example =
    Steps-IsForward waiting prompted-Reach (step stay (submits 1010 true 5)) prompted_waits

submit_pin-once_example :
    (submit_pin 1020 true 5 (AppleTv.cancel 5 submitted.tv).1).0 ≢ ok waiting.status
submit_pin-once_example =
    submit_pin-once 1010 1020 true true 5 (record waiting.status { phase = verifying })
      prompted-Reach submitted_verifies (step stay (cancels 5)) waiting.status

abbrev headers : HeaderMap
headers = record { action = some (codes "1"); content_type = some (codes "application/json") }

pin_handler-IsAnswered_example :
    IsAnswered 1010 true headers 5
      (codes " 123456 ")
      (some prompted.tv)
      (pin_handler 1010 true headers 5 (codes " 123456 ") (some prompted.tv)).1
      (pin_handler 1010 true headers 5 (codes " 123456 ") (some prompted.tv)).0.code
pin_handler-IsAnswered_example =
    pin_handler-IsAnswered 1010 true headers 5 (codes " 123456 ") (some prompted.tv)

-- ===== src/Wireless/Tests.antt =====
-- A session that shows its code, and the theorem about it applied there.
use i_phone_loadly.Common.{◌≡◌, refl, true, false, none, some, codes}
use i_phone_loadly.Wireless.{
  SessionRuntime, new_status, awaiting_code_entry, set_phase, set_setup_code, start_wireless,
  store_session, status, expire_if_due, session_expired,
}
use i_phone_loadly.Wireless.Steps.{
  World, initial_world, initial, step, begins, stores, looks, accepts, shows_code, spawned,
  accepting, handshaking, begun, requested, moved, if_found, written,
}
use i_phone_loadly.Wireless.Phases.{IsFit}
use i_phone_loadly.Wireless.Reached.{Reach-IsFit}

abbrev begun_world : World
begun_world = begun 5 (start_wireless true 100 100 5 none initial_world.service) initial_world

begun_gives : begun_world.starting ≡ some (new_status 100 5)
unfolding start_wireless
begun_gives = refl

abbrev stored : World
stored = record begun_world {
  service = store_session (new_status 100 5) begun_world.service;
  starting = none;
}

stored_spawned : stored.points 5 ≡ spawned
unfolding start_wireless
stored_spawned = refl

abbrev looked : World
looked = record (requested (status 110 5 stored.service).1 stored) {
  points = moved 5 (if_found 5 accepting stored.service.session) stored.points;
}

looked_accepting : looked.points 5 ≡ accepting
looked_accepting = refl

abbrev accepted : World
accepted =
    written 5
      (set_phase awaiting_code_entry (codes "The iPhone or iPad is completing wireless pairing.")
        none)
      (if_found 5 handshaking looked.service.session) looked

accepted_shakes : accepted.points 5 ≡ handshaking
unfolding status
accepted_shakes = refl

abbrev coded : World
coded = written 5 (set_setup_code (codes "123456")) handshaking accepted

abbrev runtime : SessionRuntime
runtime = record {
  status = record (new_status 100 5) {
    phase = awaiting_code_entry;
    public_message =
        codes "Enter the one-time pairing code shown for this session on the iPhone or iPad.";
    setup_code = some (codes "123456");
  };
  is_aborted = false;
  is_advertised = true;
}

coded_shows : coded.service.session ≡ some runtime
unfolding status expire_if_due session_expired
coded_shows = refl

Reach-IsFit_example : IsFit coded.points runtime
Reach-IsFit_example =
    Reach-IsFit runtime
      (step
        (step
          (step
            (step (step initial (begins true 100 100 5 none refl refl))
              (stores (new_status 100 5) begun_gives))
            (looks 110 5 stored_spawned))
          (accepts 5 looked_accepting))
        (shows_code 5 (codes "123456") accepted_shakes))
      coded_shows

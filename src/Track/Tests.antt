-- ===== src/Track/Tests.antt =====
-- track.c at some messages, and the theorems at them.
use rbfeeder.Base.{
  ℕ, suc, ◌*◌, List, [], ◌∷◌, length, replicate, Bool, true, false, ◌==◌, if◌then◌else◌, none, some,
  ◌≡◌, refl, arith,
}
use rbfeeder.Base.Int.{pos}
use rbfeeder.Base.Ratio.{whole}
use rbfeeder.ModeS.Message.{Message, source_adsb, source_mode_s, source_invalid}
use rbfeeder.ModeS.Blank.{new_message}
use rbfeeder.Track.Integrity.{compute_nic, compute_rc}
use rbfeeder.Track.Aircraft.{Aircraft, track_create_aircraft, empty_item}
use rbfeeder.Track.Position.{Geometry, Receiver, Stats}
use rbfeeder.Track.Update.{Tracker, no_replies, track_find_aircraft, track_update_from_message}
use rbfeeder.Track.Periodic.{track_remove_stale_aircraft}
use rbfeeder.Track.Chain.{Heap, Cursor, sweep_chain}
use rbfeeder.Track.Roster.{is_roster, is_absent, update-roster, find-update}
use rbfeeder.Track.Refine.{Chained, is_new, sweep-refines}
use rbfeeder.Track.Stages.{
  Event, stage, claim_stage, claim_after_all, data_after_all, are_in_time, is_in_time,
  stages-refine,
}
use rbfeeder.Track.Noise.{are_unreliable, update_all, noise_has_no_data}
use rbfeeder.Track.Radius.{is_category_of, nic-rc}

abbrev no_stats : Stats
no_stats = record {
  cpr_surface = 0;
  cpr_airborne = 0;
  cpr_global_ok = 0;
  cpr_global_bad = 0;
  cpr_global_skipped = 0;
  cpr_global_range_checks = 0;
  cpr_global_speed_checks = 0;
  cpr_local_ok = 0;
  cpr_local_skipped = 0;
  cpr_local_range_checks = 0;
  cpr_local_speed_checks = 0;
  unique_aircraft = 0;
  single_message_aircraft = 0;
  unreliable_aircraft = 0;
  range_histogram = replicate 76 0;
}

-- Nothing is too far away.
abbrev flat : Geometry
flat = record {
  is_beyond = λ lat0 lon0 lat1 lon1 limit. false;
  range_bucket = λ lat0 lon0 lat1 lon1 limit. pos 0;
}

abbrev receiver : Receiver
receiver = record {
  latlon_valid = false;
  user_lat = whole (pos 0);
  user_lon = whole (pos 0);
  max_range = whole (pos 0);
  stats_range_histo = false;
}

-- A reliable squitter of the aircraft with the address `addr`.
abbrev message_of : ℕ → Bool → Message
message_of addr reliable = record new_message {
  header = record new_message.header {
    addr = addr;
    msgtype = 17;
    source = source_adsb;
    reliable = reliable;
    sys_timestamp_msg = 5000;
  };
}

abbrev plane : ℕ → Aircraft
plane addr = track_create_aircraft (message_of addr true).header

abbrev tracker : Tracker
tracker = record {
  aircrafts = plane 0x4840d6 ∷ plane 0xabcdef ∷ [];
  mode_ac = replicate 4096 no_replies;
  stats = no_stats;
  next_update = 0;
}

tracker_roster : is_roster tracker.aircrafts ≡ true
unfolding is_roster is_absent track_create_aircraft
tracker_roster = refl

update-roster_example :
    is_roster
      (track_update_from_message flat receiver (message_of 0x112233 true) tracker).tracker.aircrafts
    ≡ true
update-roster_example =
    update-roster flat receiver (message_of 0x112233 true) tracker tracker_roster

find-update_example :
    track_find_aircraft 0xabcdef
      (track_update_from_message flat receiver (message_of 0x4840d6 true) tracker).tracker.aircrafts
    ≡ (if 0x4840d6 == 0xabcdef
        then (track_update_from_message flat receiver (message_of 0x4840d6 true) tracker).found
        else track_find_aircraft 0xabcdef tracker.aircrafts)
find-update_example =
    find-update flat receiver (message_of 0x4840d6 true) tracker 0xabcdef (λ h. ground arith)
      (λ h. ground arith)

-- Two offers, a check and a discard.
abbrev history : List Event
history =
    Event.offered 1000 source_adsb
    ∷ Event.offered 2000 source_mode_s
    ∷ Event.looked_at 30000
    ∷ Event.offered 90000 source_mode_s
    ∷ Event.discarded
    ∷ []

history_in_time : are_in_time (15 * 1000) (70 * 1000) history ≡ true
unfolding are_in_time is_in_time
history_in_time = refl

stages-refine_example :
    (let c =
        claim_after_all (15 * 1000) (70 * 1000) history record { by = source_invalid; at = 0 } in
      let d = data_after_all history (empty_item 15 70 (pos 0)).valid in
      (d.source ≡ c.by)
      × (d.updated ≡ c.at)
      × (stage 90001 d ≡ claim_stage (15 * 1000) (70 * 1000) 90001 c))
stages-refine_example =
    stages-refine 15 70 (pos 0) history 90001 (omega arith) (omega arith) history_in_time

abbrev noise : List Message
noise = message_of 0x4840d6 false ∷ message_of 0x4840d6 false ∷ []

noise_unreliable : are_unreliable noise ≡ true
unfolding are_unreliable
noise_unreliable = refl

noise_has_no_data_example :
    (let a = plane 0x4840d6 in
      let b =
        (update_all flat receiver noise
          record { aircraft = a; mm = message_of 0x4840d6 true; stats = no_stats }).aircraft in
      b ≡ record a { presence = b.presence })
noise_has_no_data_example =
    noise_has_no_data flat receiver (message_of 0x4840d6 true) no_stats noise noise_unreliable
      (omega arith)

-- The two aircraft of the list, at the pointers 8 and 24.
abbrev heap : Heap
heap p =
    if p == 8
    then some record { aircraft = plane 0x4840d6; next = 24 }
    else if p == 24
    then some record { aircraft = plane 0xabcdef; next = 0 }
    else none

heap_chained : Chained heap 8 (8 ∷ 24 ∷ []) tracker.aircrafts
unfolding is_new
heap_chained =
    Chained.leads 8 24 (24 ∷ []) (plane 0x4840d6) (plane 0xabcdef ∷ []) (λ h. ground arith) refl
      refl (Chained.leads 24 0 [] (plane 0xabcdef) [] (λ h. ground arith) refl refl Chained.ends)

sweep-refines_example :
    (out : Cursor) × (sweep_chain 400000 (suc (length tracker.aircrafts)) heap 8 tracker.stats
      ≡ some out)
    × ((left : List ℕ) × Chained out.heap out.head left
          (track_remove_stale_aircraft 400000 tracker).aircrafts)
    × (out.stats ≡ (track_remove_stale_aircraft 400000 tracker).stats)
sweep-refines_example = sweep-refines 400000 heap 8 (8 ∷ 24 ∷ []) tracker heap_chained

nic-rc_example :
    is_category_of (compute_nic 13 2 true true false) (compute_rc 13 2 true true false) ≡ true
nic-rc_example = nic-rc 13 true true false (omega arith)

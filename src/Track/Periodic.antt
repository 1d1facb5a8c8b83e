-- ===== src/Track/Periodic.antt =====
-- track.c: `trackRemoveStaleAircraft`, `trackMatchAC` and `trackPeriodicUpdate`.
use rbfeeder.Base.{
  ℕ, ◌+◌, ◌-◌, List, [], ◌∷◌, map, Bool, true, not, ◌&&◌, ◌||◌, ltb, leb, ◌==◌, if◌then◌else◌, set,
  get_or, u32, u64,
}
use rbfeeder.Base.Int.{ℤ, pos, ◌+ℤ◌, ◌-ℤ◌}
use rbfeeder.ModeAc.Defs.{mode_a_to_index, mode_c_to_mode_a}
use rbfeeder.Track.Validity.{expire_item, is_item_valid}
use rbfeeder.Track.Aircraft.{
  Aircraft, Presence, Altitude, Movement, Status, Intent, Whereabouts, Integrity, Meteo,
}
use rbfeeder.Track.Position.{Stats, next}
use rbfeeder.Track.Motion.{mode_c_of}
use rbfeeder.Track.Update.{Tracker, Replies, no_replies}

-- `now - a->seen`, without a sign.
unfoldable pub since : ℕ → ℕ → ℕ
since now seen = u64 (now + 0x10000000000000000 - seen)

-- `TRACK_AIRCRAFT_TTL` and `TRACK_AIRCRAFT_UNRELIABLE_TTL`
unfoldable pub is_stale : ℕ → Presence → Bool
is_stale now p = ltb 300000 (since now p.seen) || not p.reliable && ltb 60000 (since now p.seen)

-- The counts of an aircraft that is removed.
unfoldable pub count_removed : Presence → Stats → Stats
count_removed p s0 =
    let s =
      if p.messages == 1
      then record s0 { single_message_aircraft = next s0.single_message_aircraft }
      else s0 in
    if not p.reliable then record s { unreliable_aircraft = next s.unreliable_aircraft } else s

module _ (now : ℕ) where
  -- `EXPIRE` of every item, in its group.
  unfoldable pub expire_altitude : Altitude → Altitude
  expire_altitude a = record a {
    altitude_baro = expire_item now a.altitude_baro;
    altitude_geom = expire_item now a.altitude_geom;
    geom_delta = expire_item now a.geom_delta;
  }

  unfoldable pub expire_movement : Movement → Movement
  expire_movement a = record {
    gs = expire_item now a.gs;
    ias = expire_item now a.ias;
    tas = expire_item now a.tas;
    mach = expire_item now a.mach;
    track = expire_item now a.track;
    track_rate = expire_item now a.track_rate;
    roll = expire_item now a.roll;
    mag_heading = expire_item now a.mag_heading;
    true_heading = expire_item now a.true_heading;
    baro_rate = expire_item now a.baro_rate;
    geom_rate = expire_item now a.geom_rate;
  }

  unfoldable pub expire_status : Status → Status
  expire_status a = record a {
    callsign = expire_item now a.callsign;
    squawk = expire_item now a.squawk;
    emergency = expire_item now a.emergency;
    airground = expire_item now a.airground;
  }

  unfoldable pub expire_intent : Intent → Intent
  expire_intent a = record {
    nav_qnh = expire_item now a.nav_qnh;
    nav_altitude_mcp = expire_item now a.nav_altitude_mcp;
    nav_altitude_fms = expire_item now a.nav_altitude_fms;
    nav_altitude_src = expire_item now a.nav_altitude_src;
    nav_heading = expire_item now a.nav_heading;
    nav_modes = expire_item now a.nav_modes;
  }

  unfoldable pub expire_whereabouts : Whereabouts → Whereabouts
  expire_whereabouts a = record {
    cpr_odd = expire_item now a.cpr_odd;
    cpr_even = expire_item now a.cpr_even;
    position = expire_item now a.position;
  }

  unfoldable pub expire_integrity : Integrity → Integrity
  expire_integrity a = record a {
    nic_a = expire_item now a.nic_a;
    nic_c = expire_item now a.nic_c;
    nic_baro = expire_item now a.nic_baro;
    nac_p = expire_item now a.nac_p;
    nac_v = expire_item now a.nac_v;
    sil = expire_item now a.sil;
    gva = expire_item now a.gva;
    sda = expire_item now a.sda;
  }

  unfoldable pub expire_meteo : Meteo → Meteo
  expire_meteo a = record {
    mrar_source = expire_item now a.mrar_source;
    wind = expire_item now a.wind;
    temperature = expire_item now a.temperature;
    pressure = expire_item now a.pressure;
    turbulence = expire_item now a.turbulence;
    humidity = expire_item now a.humidity;
  }

  unfoldable pub expire_aircraft : Aircraft → Aircraft
  expire_aircraft a = record a {
    altitude = expire_altitude a.altitude;
    movement = expire_movement a.movement;
    status = expire_status a.status;
    intent = expire_intent a.intent;
    whereabouts = expire_whereabouts a.whereabouts;
    integrity = expire_integrity a.integrity;
    meteo = expire_meteo a.meteo;
  }

  -- `trackRemoveStaleAircraft`: the aircraft that remain, and the counters.
  unfoldable pub remaining : List Aircraft → List Aircraft
  remaining [] = []
  remaining (a ∷ aircrafts) =
      let rest = remaining aircrafts in
      if is_stale now a.presence then rest else expire_aircraft a ∷ rest

  unfoldable pub count_stale : List Aircraft → Stats → Stats
  count_stale [] stats = stats
  count_stale (a ∷ aircrafts) stats =
      count_stale aircrafts
        (if is_stale now a.presence then count_removed a.presence stats else stats)

  unfoldable pub track_remove_stale_aircraft : Tracker → Tracker
  track_remove_stale_aircraft tracker = record tracker {
    aircrafts = remaining tracker.aircrafts;
    stats = count_stale tracker.aircrafts tracker.stats;
  }

-- `(modeAC_count[i] - modeAC_lastcount[i]) >= TRACK_MODEAC_MIN_MESSAGES`
unfoldable pub is_live : Replies → Bool
is_live row = leb 4 (u32 (row.count + 0x100000000 - row.lastcount))

unfoldable pub clear_match : Replies → Replies
clear_match row = record row { matched = 0 }

-- A second aircraft makes the match ambiguous.
unfoldable pub with_match : ℕ → Replies → Replies
with_match addr row = record row { matched = if row.matched == 0 then addr else 0xffffffff }

unfoldable pub match_at : ℕ → ℕ → List Replies → List Replies
match_at addr i table = set table i (with_match addr (get_or table i no_replies))

-- An aircraft with the table.
pub record Matching : Type 0 where
  pub altitude : Altitude
  pub table : List Replies

unfoldable pub match_mode_a : ℕ → ℕ → Matching → Matching
match_mode_a addr squawk m =
    let i = mode_a_to_index squawk in
    if is_live (get_or m.table i no_replies)
    then record {
      altitude = record m.altitude { mode_a_hit = true };
      table = match_at addr i m.table;
    }
    else m

unfoldable pub match_mode_c : ℕ → ℤ → Matching → Matching
match_mode_c addr mode_c m =
    let mode_a = mode_c_to_mode_a mode_c in
    let i = mode_a_to_index mode_a in
    if not (mode_a == 0) && is_live (get_or m.table i no_replies)
    then record {
      altitude = record m.altitude { mode_c_hit = true };
      table = match_at addr i m.table;
    }
    else m

-- `messageNow()`, by which the items are valid, is not the time `now` of the update.
module _ (message_now now : ℕ) where
  -- One aircraft: its squawk, and its altitude within 100 ft.
  unfoldable pub match_one : Aircraft → List Replies → Matching
  match_one a table =
      let addr = a.presence.addr in
      let mode_c = mode_c_of a.altitude.altitude_baro.value in
      let m0 : Matching = record { altitude = a.altitude; table = table } in
      let m1 =
        if is_item_valid message_now a.status.squawk
        then match_mode_a addr a.status.squawk.value m0
        else m0 in
      if ltb 5000 (since now a.presence.seen)
      then m0
      else if is_item_valid message_now a.altitude.altitude_baro
      then match_mode_c addr (mode_c -ℤ pos 1)
          (match_mode_c addr (mode_c +ℤ pos 1) (match_mode_c addr mode_c m1))
      else m1

  pub record Matched : Type 0 where
    pub aircrafts : List Aircraft
    pub table : List Replies

  unfoldable pub match_all : List Aircraft → List Replies → Matched
  match_all [] table = record { aircrafts = []; table = table }
  match_all (a ∷ aircrafts) table =
      let m = match_one a table in
      let rest = match_all aircrafts m.table in
      record { aircrafts = record a { altitude = m.altitude } ∷ rest.aircrafts; table = rest.table }

-- The counts of one code for the next period.
unfoldable pub reset_row : Replies → Replies
reset_row row =
    let age = next row.age in
    if row.count == 0
    then row
    else if not (is_live row)
    then (if ltb 15 age
        then record row { count = 0; lastcount = 0; age = 0 }
        else record row { lastcount = row.count; age = age })
    else record row { lastcount = row.count; age = if row.matched == 0 then 0 else 10 }

-- `trackMatchAC`
unfoldable pub track_match_ac : ℕ → ℕ → Tracker → Tracker
track_match_ac message_now now tracker =
    let m = match_all message_now now tracker.aircrafts (map clear_match tracker.mode_ac) in
    record tracker { aircrafts = m.aircrafts; mode_ac = map reset_row m.table }

-- `trackPeriodicUpdate`; `now` is `mstime()`.
unfoldable pub track_periodic_update : ℕ → ℕ → Tracker → Tracker
track_periodic_update message_now now tracker =
    if leb tracker.next_update now
    then track_match_ac message_now now
        (track_remove_stale_aircraft now (record tracker { next_update = u64 (now + 1000) }))
    else tracker

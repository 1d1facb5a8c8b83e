-- ===== src/Track/Update.antt =====
-- track.c: `trackFindAircraft` and `trackUpdateFromMessage`. The list of aircraft is a list; the file
-- `Chain` has its pointers.
use rbfeeder.Base.{
  ℕ, ◌+◌, List, [], ◌∷◌, not, ◌&&◌, ◌||◌, ltb, leb, ◌==◌, if◌then◌else◌, Option, none, some, set,
  get_or, bit_and,
}
use rbfeeder.Base.Int.{pos}
use rbfeeder.Base.Ratio.{Ratio, whole, lt_ratio}
use rbfeeder.ModeAc.Defs.{mode_a_to_index}
use rbfeeder.ModeS.Message.{
  Message, AddrType, addr_adsb_icao, addr_adsb_icao_nt, addr_adsr_icao, addr_tisb_icao,
  addr_adsb_other, addr_adsr_other, addr_tisb_trackfile, addr_tisb_other, addr_mode_a, addr_unknown,
}
use rbfeeder.Track.Aircraft.{Aircraft, Presence, track_create_aircraft}
use rbfeeder.Track.Position.{Geometry, Receiver, Stats, next}
use rbfeeder.Track.Locate.{Tracked, update_position}
use rbfeeder.Track.Versions.{message_version, update_versions, fill_accuracy}
use rbfeeder.Track.Motion.{update_altitude, select_speed, update_movement, derive_altitude}
use rbfeeder.Track.Fields.{
  update_status, update_intent, update_reports, is_new_report, update_integrity, update_meteo,
}

-- The entries of `modeAC_count`, `modeAC_lastcount`, `modeAC_match` and `modeAC_age` for one code.
pub record Replies : Type 0 where
  pub count : ℕ
  pub lastcount : ℕ
  pub matched : ℕ
  pub age : ℕ

abbrev pub no_replies : Replies
no_replies = record { count = 0; lastcount = 0; matched = 0; age = 0 }

-- The state of the tracker: `Modes.aircrafts`, the tables of Mode A/C replies as one, the counters, and the
-- time of the next periodic update.
pub record Tracker : Type 0 where
  pub aircrafts : List Aircraft
  pub mode_ac : List Replies
  pub stats : Stats
  pub next_update : ℕ

-- `modeAC_count[i]++`
unfoldable pub count_reply : List Replies → ℕ → Replies
count_reply table i = let row = get_or table i no_replies in record row { count = next row.count }

-- `trackFindAircraft`
unfoldable pub track_find_aircraft : ℕ → List Aircraft → Option Aircraft
track_find_aircraft addr [] = none
track_find_aircraft addr (a ∷ aircrafts) =
    let rest = track_find_aircraft addr aircrafts in
    if a.presence.addr == addr then some a else rest

-- The write through the pointer that the search returned.
unfoldable pub write_aircraft : ℕ → Aircraft → List Aircraft → List Aircraft
write_aircraft addr b [] = []
write_aircraft addr b (a ∷ aircrafts) =
    let rest = write_aircraft addr b aircrafts in
    if a.presence.addr == addr then b ∷ aircrafts else a ∷ rest

-- The number of an enumerator of `addrtype_t`: a lower one is more direct.
unfoldable pub addr_type_rank : AddrType → ℕ
addr_type_rank addr_adsb_icao = 0
addr_type_rank addr_adsb_icao_nt = 1
addr_type_rank addr_adsr_icao = 2
addr_type_rank addr_tisb_icao = 3
addr_type_rank addr_adsb_other = 4
addr_type_rank addr_adsr_other = 5
addr_type_rank addr_tisb_trackfile = 6
addr_type_rank addr_tisb_other = 7
addr_type_rank addr_mode_a = 8
addr_type_rank addr_unknown = 9

unfoldable pub record_signal : Ratio → Presence → Presence
record_signal level p =
    if lt_ratio (whole (pos 0)) level
    then record p {
      signal_level = set p.signal_level p.signal_next level;
      signal_next = bit_and (p.signal_next + 1) 7;
    }
    else p

-- The counts of reliable messages, by which an aircraft is no noise.
unfoldable pub count_message : Message → Presence → Presence
count_message mm p0 =
    let h = mm.header in
    let p = record_signal h.signal_level p0 in
    let messages = p.messages + 1 in
    let df11 = p.reliable_df11 + (if h.msgtype == 11 && h.reliable then 1 else 0) in
    let df17 = p.reliable_df17 + (if h.msgtype == 17 && h.reliable then 1 else 0) in
    record p {
      seen = h.sys_timestamp_msg;
      messages = messages;
      reliable_df11 = df11;
      reliable_df17 = df17;
      reliable = p.reliable || (leb 3 df11 || (leb 2 df17 || leb 5 messages));
    }

unfoldable pub more_direct : AddrType → AddrType → AddrType
more_direct new old = if ltb (addr_type_rank new) (addr_type_rank old) then new else old

-- The fields of a message that is trusted, from the type of the address on. The version and the speed
-- that it selects are part of the message from then on.
unfoldable pub apply_fields : Tracked → Tracked
apply_fields t =
    let now = t.mm.header.sys_timestamp_msg in
    let a = t.aircraft in
    let version = message_version t.mm.header.source t.mm.data_of.opstatus a.versions in
    let mm = select_speed now version (fill_accuracy version t.mm) in
    let versions = update_versions mm a.versions in
    record t {
      mm = mm;
      aircraft = record {
        presence = record a.presence {
          addrtype = more_direct mm.header.addrtype a.presence.addrtype;
        };
        altitude = derive_altitude now (update_altitude now mm a);
        movement = update_movement now mm versions a.movement;
        status = update_status now mm a.status;
        intent = update_intent now mm a.intent;
        whereabouts = update_reports now mm (record a { versions = versions });
        versions = versions;
        integrity = update_integrity now mm a.integrity;
        meteo = update_meteo now mm a.meteo;
      };
    }

module _ (geometry : Geometry) (receiver : Receiver) where
  -- A new position report is decoded at the end.
  unfoldable pub apply_message : Tracked → Tracked
  apply_message t =
      let now = t.mm.header.sys_timestamp_msg in
      let t1 = apply_fields t in
      if is_new_report now t1.mm t.aircraft.whereabouts
      then update_position geometry receiver now t1
      else t1

  -- A message that is not trusted, about an aircraft that is not, only counts.
  unfoldable pub update_aircraft : Tracked → Tracked
  update_aircraft t0 =
      let presence = count_message t0.mm t0.aircraft.presence in
      let t = record t0 { aircraft = record t0.aircraft { presence = presence } } in
      if not t.mm.header.reliable && not presence.reliable
      then record t {
        aircraft = record t.aircraft {
          presence = record presence { discarded = presence.discarded + 1 };
        };
      }
      else apply_message t

  -- What `trackUpdateFromMessage` returns, the message and the state that it leaves.
  pub record Updated : Type 0 where
    pub found : Option Aircraft
    pub mm : Message
    pub tracker : Tracker

  -- A new aircraft is put at the head of the list.
  unfoldable pub update_found : Option Aircraft → Message → Tracker → Updated
  update_found none mm tracker =
      let stats = tracker.stats in
      let t = update_aircraft record {
        aircraft = track_create_aircraft mm.header;
        mm = mm;
        stats = record stats { unique_aircraft = next stats.unique_aircraft };
      } in
      record {
        found = some t.aircraft;
        mm = t.mm;
        tracker = record tracker { aircrafts = t.aircraft ∷ tracker.aircrafts; stats = t.stats };
      }
  update_found (some a) mm tracker =
      let t = update_aircraft record { aircraft = a; mm = mm; stats = tracker.stats } in
      record {
        found = some t.aircraft;
        mm = t.mm;
        tracker = record tracker {
          aircrafts = write_aircraft mm.header.addr t.aircraft tracker.aircrafts;
          stats = t.stats;
        };
      }

  -- `trackUpdateFromMessage`
  unfoldable pub track_update_from_message : Message → Tracker → Updated
  track_update_from_message mm tracker =
      let i = mode_a_to_index mm.data_of.identity.squawk in
      if mm.header.msgtype == 32
      then record {
        found = none;
        mm = mm;
        tracker = record tracker {
          mode_ac = set tracker.mode_ac i (count_reply tracker.mode_ac i);
        };
      }
      else if mm.header.addr == 0
      then record { found = none; mm = mm; tracker = tracker }
      else update_found (track_find_aircraft mm.header.addr tracker.aircrafts) mm tracker

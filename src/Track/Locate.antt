-- ===== src/Track/Locate.antt =====
-- track.c: `updatePosition`.
use rbfeeder.Base.{
  ℕ, ◌+◌, ◌-◌, ◌*◌, Bool, true, false, not, ◌&&◌, ◌||◌, leb, ◌==◌, if◌then◌else◌, Option, none,
  some, set, get_or,
}
use rbfeeder.Base.Int.{ℤ, pos, pos_part, neg_part, ltb_ℤ}
use rbfeeder.ModeS.Message.{
  Message, Real, fraction, signed_fraction, speed_of, track_of, CprType, cpr_surface, cpr_airborne,
  cpr_coarse, source_invalid,
}
use rbfeeder.Track.Validity.{DataValidity, is_item_valid, accept_data, source_rank}
use rbfeeder.Track.Aircraft.{Aircraft, Place, Whereabouts}
use rbfeeder.Track.Position.{
  Geometry, Receiver, Stats, next, is_surface, Located, located, unlocated, implausible,
  do_global_cpr, do_local_cpr,
}

-- An aircraft with the message that updates it, and the counters.
pub record Tracked : Type 0 where
  pub aircraft : Aircraft
  pub mm : Message
  pub stats : Stats

-- `update_range_histogram`: the bucket, brought into the range of the table.
unfoldable pub clamp_bucket : ℤ → ℕ
clamp_bucket bucket =
    if ltb_ℤ bucket (pos 0) then 0 else if leb 76 (pos_part bucket) then 75 else pos_part bucket

unfoldable pub count_range : Geometry → Receiver → Place → Stats → Stats
count_range geometry receiver place stats =
    let bucket = clamp_bucket (
      geometry.range_bucket receiver.user_lat receiver.user_lon place.lat place.lon
        receiver.max_range) in
    if receiver.stats_range_histo && receiver.latlon_valid
    then record stats {
      range_histogram =
          set stats.range_histogram bucket (next (get_or stats.range_histogram bucket 0));
    }
    else stats

-- `speed <= 25`
unfoldable pub is_slow : Real → Bool
is_slow (fraction n d) = leb n (25 * d)
is_slow (signed_fraction n d) = not (ltb_ℤ (pos (25 * d)) n)
is_slow (speed_of ns ew) =
    leb
      ((pos_part ns + neg_part ns) * (pos_part ns + neg_part ns)
        + (pos_part ew + neg_part ew) * (pos_part ew + neg_part ew))
      624
is_slow (track_of ns ew) = false

unfoldable pub max_elapsed : Message → ℕ
max_elapsed mm =
    if is_surface mm.data_of.position.cpr_type
    then (if mm.data_of.motion.gs_valid && is_slow mm.data_of.motion.gs_selected
        then 50000
        else 25000)
    else 10000

unfoldable pub time_between : ℕ → ℕ → ℕ
time_between t1 t2 = if leb t2 t1 then t1 - t2 else t2 - t1

unfoldable pub cpr_type_rank : CprType → ℕ
cpr_type_rank cpr_surface = 0
cpr_type_rank cpr_airborne = 1
cpr_type_rank cpr_coarse = 2

-- Two recent reports of one source and of one type.
unfoldable pub has_recent_pair : ℕ → Whereabouts → ℕ → Bool
has_recent_pair now w limit =
    is_item_valid now w.cpr_odd
    && (is_item_valid now w.cpr_even
        && (source_rank w.cpr_odd.valid.source == source_rank w.cpr_even.valid.source
            && (cpr_type_rank w.cpr_odd.value.type == cpr_type_rank w.cpr_even.value.type
                && leb (time_between w.cpr_odd.valid.updated w.cpr_even.valid.updated) limit)))

unfoldable pub without_source : DataValidity → DataValidity
without_source d = record d { source = source_invalid }

-- Bad data: both reports and the position are no reference any more.
unfoldable pub discard_reports : Whereabouts → Whereabouts
discard_reports w = record w {
  cpr_odd = record w.cpr_odd { valid = without_source w.cpr_odd.valid };
  cpr_even = record w.cpr_even { valid = without_source w.cpr_even.valid };
  position = record w.position { valid = without_source w.position.valid };
}

module _ (geometry : Geometry) (receiver : Receiver) (now : ℕ) where
  unfoldable pub count_kind : Message → Stats → Stats
  count_kind mm stats =
      if is_surface mm.data_of.position.cpr_type
      then record stats { cpr_surface = next stats.cpr_surface }
      else record stats { cpr_airborne = next stats.cpr_airborne }

  -- The end of `updatePosition` on success, with the validity that `accept_data` gave.
  unfoldable pub store_place : DataValidity → Place → Bool → Tracked → Tracked
  store_place valid place relative t =
      let w = t.aircraft.whereabouts in
      let p = t.mm.data_of.position in
      record {
        aircraft = record t.aircraft {
          whereabouts = record w { position = record { valid = valid; value = place } };
        };
        mm = record t.mm {
          data_of = record t.mm.data_of {
            position = record p {
              cpr_decoded = true;
              cpr_relative = relative || p.cpr_relative;
              decoded_lat = place.lat;
              decoded_lon = place.lon;
              decoded_nic = place.nic;
              decoded_rc = place.rc;
            };
          };
        };
        stats = count_range geometry receiver place t.stats;
      }

  unfoldable pub skip_local : Tracked → Tracked
  skip_local t = record t {
    stats = record t.stats { cpr_local_skipped = next t.stats.cpr_local_skipped };
  }

  unfoldable pub accept_local : Option DataValidity → Place → Tracked → Tracked
  accept_local none place t = skip_local t
  accept_local (some valid) place t =
      store_place valid place true
        (record t { stats = record t.stats { cpr_local_ok = next t.stats.cpr_local_ok } })

  unfoldable pub finish_local : Located → Tracked → Tracked
  finish_local (located place) t =
      accept_local (accept_data now t.mm.header.source t.aircraft.whereabouts.position.valid) place
        t
  finish_local unlocated t = skip_local t
  finish_local implausible t = skip_local t

  unfoldable pub try_local : Tracked → Tracked
  try_local t =
      let attempt = do_local_cpr geometry receiver now t.aircraft t.mm t.stats in
      finish_local attempt.result (record t { stats = attempt.stats })

  -- A position that is not accepted is not tried again.
  unfoldable pub accept_global : Option DataValidity → Place → Tracked → Tracked
  accept_global none place t = record t {
    stats = record t.stats { cpr_global_skipped = next t.stats.cpr_global_skipped };
  }
  accept_global (some valid) place t =
      store_place valid place false
        (record t { stats = record t.stats { cpr_global_ok = next t.stats.cpr_global_ok } })

  unfoldable pub finish_global : Located → Tracked → Tracked
  finish_global (located place) t =
      accept_global (accept_data now t.mm.header.source t.aircraft.whereabouts.position.valid) place
        t
  finish_global unlocated t =
      try_local (record t {
        stats = record t.stats { cpr_global_skipped = next t.stats.cpr_global_skipped };
      })
  finish_global implausible t = record t {
    aircraft = record t.aircraft { whereabouts = discard_reports t.aircraft.whereabouts };
    stats = record t.stats { cpr_global_bad = next t.stats.cpr_global_bad };
  }

  unfoldable pub try_global : Tracked → Tracked
  try_global t =
      let attempt = do_global_cpr geometry receiver now t.aircraft t.mm t.stats in
      finish_global attempt.result (record t { stats = attempt.stats })

  -- `updatePosition`
  unfoldable pub update_position : Tracked → Tracked
  update_position t0 =
      let t = record t0 { stats = count_kind t0.mm t0.stats } in
      if has_recent_pair now t.aircraft.whereabouts (max_elapsed t.mm)
      then try_global t
      else try_local t

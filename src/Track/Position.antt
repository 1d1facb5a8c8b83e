-- ===== src/Track/Position.antt =====
-- track.c: `speed_check`, `doGlobalCPR` and `doLocalCPR`.
-- Distances on the sphere take the sine and cosine of the mathematical library: `Geometry` is a parameter.
use rbfeeder.Base.{
  ℕ, zero, suc, ◌+◌, ◌*◌, ◌/◌, List, Bool, true, false, not, ◌&&◌, ◌||◌, ltb, leb, ◌==◌,
  if◌then◌else◌, Option, none, some, u32,
}
use rbfeeder.Base.Int.{ℤ, pos, pos_part, neg_part}
use rbfeeder.Base.Ratio.{Ratio, whole, lt_ratio}
use rbfeeder.Base.Double.{double, add_double, sub_double, mul_double, div_double}
use rbfeeder.ModeS.Message.{
  Message, Real, fraction, signed_fraction, speed_of, track_of, CprType, cpr_surface, cpr_airborne,
  cpr_coarse, Source, source_mlat,
}
use rbfeeder.Cpr.Decode.{
  CprResult, decoded, try_later, bad_data, decode_cpr_airborne, decode_cpr_surface,
  decode_cpr_relative,
}
use rbfeeder.Track.Validity.{is_item_valid, data_age, source_rank}
use rbfeeder.Track.Integrity.{rc_is_worse}
use rbfeeder.Track.Aircraft.{Aircraft, Place}

-- `is_beyond lat0 lon0 lat1 lon1 limit`: `greatcircle(lat0, lon0, lat1, lon1) > limit`, in metres, and
-- `range_bucket`: `round(greatcircle(...) / maxRange * RANGE_BUCKET_COUNT)`.
pub record Geometry : Type 0 where
  pub is_beyond : Ratio → Ratio → Ratio → Ratio → Ratio → Bool
  pub range_bucket : Ratio → Ratio → Ratio → Ratio → Ratio → ℤ

-- What `Modes` holds of the receiver: its place, and the settings that the tracker reads.
pub record Receiver : Type 0 where
  pub latlon_valid : Bool
  pub user_lat : Ratio
  pub user_lon : Ratio
  pub max_range : Ratio
  pub stats_range_histo : Bool

-- The counters of `Modes.stats_current` that the tracker changes.
pub record Stats : Type 0 where
  pub cpr_surface : ℕ
  pub cpr_airborne : ℕ
  pub cpr_global_ok : ℕ
  pub cpr_global_bad : ℕ
  pub cpr_global_skipped : ℕ
  pub cpr_global_range_checks : ℕ
  pub cpr_global_speed_checks : ℕ
  pub cpr_local_ok : ℕ
  pub cpr_local_skipped : ℕ
  pub cpr_local_range_checks : ℕ
  pub cpr_local_speed_checks : ℕ
  pub unique_aircraft : ℕ
  pub single_message_aircraft : ℕ
  pub unreliable_aircraft : ℕ
  pub range_histogram : List ℕ

abbrev pub next : ℕ → ℕ
next n = u32 (n + 1)

-- The greatest number up to `bound` whose square is at most `n`.
unfoldable pub root : ℕ → ℕ → ℕ
root zero n = 0
root (suc k) n = let lower = root k n in if leb (suc k * suc k) n then suc k else lower

-- A speed as an `int`; speeds are below 8192 kts.
unfoldable pub int_speed : Real → ℕ
int_speed (fraction n d) = n / d
int_speed (signed_fraction n d) = pos_part n / d
int_speed (speed_of ns ew) = root 8192 (
    (pos_part ns + neg_part ns) * (pos_part ns + neg_part ns)
    + (pos_part ew + neg_part ew) * (pos_part ew + neg_part ew))
int_speed (track_of ns ew) = 0

unfoldable pub is_surface : CprType → Bool
is_surface cpr_surface = true
is_surface cpr_airborne = false
is_surface cpr_coarse = false

-- The speed that the aircraft is known to have, or a guess.
unfoldable pub known_speed : ℕ → Aircraft → Bool → ℕ
known_speed now a surface =
    if is_item_valid now a.movement.gs
    then int_speed a.movement.gs.value
    else if is_item_valid now a.movement.tas
    then a.movement.tas.value * 4 / 3
    else if is_item_valid now a.movement.ias
    then a.movement.ias.value * 2
    else if surface
    then 100
    else 600

unfoldable pub clamp_speed : Bool → ℕ → ℕ
clamp_speed true speed = let s = if ltb speed 20 then 20 else speed in if ltb 150 s then 150 else s
clamp_speed false speed = if ltb speed 200 then 200 else speed

-- `(surface ? 0.1e3 : 0.5e3) + (elapsed + 1000.0) / 1000.0 * (speed * 1852.0 / 3600.0)`
unfoldable pub reachable_range : Bool → ℕ → ℕ → Ratio
reachable_range surface elapsed speed =
    let seconds =
      div_double (add_double (double (whole (pos elapsed))) (whole (pos 1000)))
        (whole (pos 1000)) in
    let metres = div_double (whole (pos (speed * 1852))) (whole (pos 3600)) in
    add_double (whole (pos (if surface then 100 else 500))) (mul_double seconds metres)

unfoldable pub worse_rc : ℕ → ℕ → ℕ
worse_rc a b = if rc_is_worse a b then a else b

-- A position, or no position for now, or bad data.
pub data Located : Type 0 where
  located : Place → Located
  unlocated implausible : Located

pub record Attempt : Type 0 where
  pub result : Located
  pub stats : Stats

-- The reference of `doLocalCPR`: a place and the greatest distance from it.
pub record Reference : Type 0 where
  pub lat : Ratio
  pub lon : Ratio
  pub limit : Ratio

module _ (geometry : Geometry) (receiver : Receiver) (now : ℕ) where
  -- `speed_check`
  unfoldable pub speed_check : Aircraft → Ratio → Ratio → Bool → Bool
  speed_check a lat lon surface =
      let position = a.whereabouts.position in
      let speed = clamp_speed surface (known_speed now a surface * 4 / 3) in
      let range = reachable_range surface (data_age now position.valid) speed in
      if not (is_item_valid now position)
      then true
      else not (geometry.is_beyond position.value.lat position.value.lon lat lon range)

  -- The last check of both decoders: the old position is at least as good, and too far away.
  unfoldable pub fails_speed_check : Aircraft → Place → Bool → Bool
  fails_speed_check a place surface =
      let position = a.whereabouts.position in
      is_item_valid now position
      && (leb place.nic position.value.nic
          && (not (rc_is_worse position.value.rc place.rc)
              && not (speed_check a place.lat place.lon surface)))

  -- The surface decoder wants a reference.
  unfoldable pub global_position : Aircraft → Bool → Bool → CprResult
  global_position a fflag surface =
      let even = a.whereabouts.cpr_even.value in
      let odd = a.whereabouts.cpr_odd.value in
      let position = a.whereabouts.position in
      if surface
      then (if is_item_valid now position
          then decode_cpr_surface position.value.lat position.value.lon even.lat even.lon odd.lat
              odd.lon fflag
          else if receiver.latlon_valid
          then decode_cpr_surface receiver.user_lat receiver.user_lon even.lat even.lon odd.lat
              odd.lon fflag
          else try_later)
      else decode_cpr_airborne even.lat even.lon odd.lat odd.lon fflag

  unfoldable pub is_out_of_range : Ratio → Ratio → Bool
  is_out_of_range lat lon =
      lt_ratio (whole (pos 0)) receiver.max_range
      && (receiver.latlon_valid
          && geometry.is_beyond receiver.user_lat receiver.user_lon lat lon receiver.max_range)

  -- The checks of a decoded position.
  unfoldable pub check_global : Aircraft → Source → Bool → Place → Stats → Attempt
  check_global a source surface place stats =
      if is_out_of_range place.lat place.lon
      then record {
        result = implausible;
        stats = record stats { cpr_global_range_checks = next stats.cpr_global_range_checks };
      }
      else if source_rank source == source_rank source_mlat
      then record { result = located place; stats = stats }
      else if fails_speed_check a place surface
      then record {
        result = implausible;
        stats = record stats { cpr_global_speed_checks = next stats.cpr_global_speed_checks };
      }
      else record { result = located place; stats = stats }

  unfoldable pub judge_global : Aircraft → Source → Bool → ℕ → ℕ → CprResult → Stats → Attempt
  judge_global a source surface nic rc (decoded lat lon) stats =
      check_global a source surface record { lat = lat; lon = lon; nic = nic; rc = rc } stats
  judge_global a source surface nic rc try_later stats = record {
    result = unlocated;
    stats = stats;
  }
  judge_global a source surface nic rc bad_data stats = record {
    result = implausible;
    stats = stats;
  }

  -- `doGlobalCPR`
  unfoldable pub do_global_cpr : Aircraft → Message → Stats → Attempt
  do_global_cpr a mm stats =
      let even = a.whereabouts.cpr_even.value in
      let odd = a.whereabouts.cpr_odd.value in
      let surface = is_surface mm.data_of.position.cpr_type in
      judge_global a mm.header.source surface (if ltb even.nic odd.nic then even.nic else odd.nic)
        (worse_rc even.rc odd.rc) (global_position a mm.data_of.position.cpr_odd surface) stats

  unfoldable pub receiver_limit : Option Ratio
  receiver_limit =
      let range = receiver.max_range in
      if not (lt_ratio (whole (pos 0)) range || lt_ratio range (whole (pos 0)))
      then none
      else if not (lt_ratio (whole (pos 333360)) range)
      then some range
      else if lt_ratio range (whole (pos 666720))
      then some (sub_double (whole (pos 666720)) range)
      else none

  unfoldable pub receiver_reference : Option Ratio → Option Reference
  receiver_reference none = none
  receiver_reference (some limit) =
      some record { lat = receiver.user_lat; lon = receiver.user_lon; limit = limit }

  unfoldable pub local_reference : Aircraft → Bool → Option Reference
  local_reference a surface =
      let position = a.whereabouts.position in
      if is_item_valid now position
      then some
          record { lat = position.value.lat; lon = position.value.lon; limit = whole (pos 50000) }
      else if not surface && receiver.latlon_valid
      then receiver_reference receiver_limit
      else none

  -- With a position as the reference the result is not better than that.
  unfoldable pub local_nic : Aircraft → ℕ → ℕ
  local_nic a nic =
      let position = a.whereabouts.position in
      if is_item_valid now position && ltb position.value.nic nic then position.value.nic else nic

  unfoldable pub local_rc : Aircraft → ℕ → ℕ
  local_rc a rc =
      let position = a.whereabouts.position in
      if is_item_valid now position then worse_rc position.value.rc rc else rc

  unfoldable pub judge_local : Aircraft → Bool → ℕ → ℕ → Reference → CprResult → Stats → Attempt
  judge_local a surface nic rc reference (decoded lat lon) stats =
      let place : Place = record { lat = lat; lon = lon; nic = nic; rc = rc } in
      if lt_ratio (whole (pos 0)) reference.limit
        && geometry.is_beyond reference.lat reference.lon lat lon reference.limit
      then record {
        result = unlocated;
        stats = record stats { cpr_local_range_checks = next stats.cpr_local_range_checks };
      }
      else if fails_speed_check a place surface
      then record {
        result = unlocated;
        stats = record stats { cpr_local_speed_checks = next stats.cpr_local_speed_checks };
      }
      else record { result = located place; stats = stats }
  judge_local a surface nic rc reference try_later stats = record {
    result = unlocated;
    stats = stats;
  }
  judge_local a surface nic rc reference bad_data stats = record {
    result = unlocated;
    stats = stats;
  }

  unfoldable pub local_from : Aircraft → Message → Option Reference → Stats → Attempt
  local_from a mm none stats = record { result = unlocated; stats = stats }
  local_from a mm (some reference) stats =
      let p = mm.data_of.position in
      let surface = is_surface p.cpr_type in
      let report =
        if p.cpr_odd then a.whereabouts.cpr_odd.value else a.whereabouts.cpr_even.value in
      judge_local a surface (local_nic a report.nic) (local_rc a report.rc) reference
        (decode_cpr_relative reference.lat reference.lon p.cpr_lat p.cpr_lon p.cpr_odd surface)
        stats

  -- `doLocalCPR`
  unfoldable pub do_local_cpr : Aircraft → Message → Stats → Attempt
  do_local_cpr a mm stats =
      local_from a mm (local_reference a (is_surface mm.data_of.position.cpr_type)) stats

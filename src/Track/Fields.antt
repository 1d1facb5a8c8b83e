-- ===== src/Track/Fields.antt =====
-- track.c: what `trackUpdateFromMessage` takes from a message about the rest.
use rbfeeder.Base.{
  ℕ, ◌-◌, List, [], ◌∷◌, Bool, true, false, not, ◌&&◌, ◌==◌, if◌then◌else◌, Option, none, some,
}
use rbfeeder.Base.Int.{ℤ, pos, negsuc}
use rbfeeder.ModeS.Message.{
  Message, AirGround, ag_invalid, ag_ground, ag_airborne, ag_uncertain, SilType, sil_invalid,
  sil_unknown, sil_per_sample, sil_per_hour, NavAltitudeSource, nav_alt_invalid, nav_alt_unknown,
  nav_alt_aircraft, nav_alt_mcp, nav_alt_fms,
}
use rbfeeder.Track.Validity.{DataValidity, Item, accept_data, offer, is_item_valid, is_data_fresh}
use rbfeeder.Track.Integrity.{compute_nic, compute_rc}
use rbfeeder.Track.Aircraft.{Aircraft, Status, Intent, Whereabouts, Integrity, Meteo, Report}
use rbfeeder.Track.Versions.{is_sil}

module _ (now : ℕ) where
  -- An uncertain state replaces a certain one only when that is stale.
  unfoldable pub is_airground : AirGround → Item AirGround → Bool
  is_airground ag_invalid item = false
  is_airground ag_uncertain item = not (is_data_fresh now item.valid)
  is_airground ag_ground item = true
  is_airground ag_airborne item = true

  unfoldable pub same_callsign : List ℕ → List ℕ → Bool
  same_callsign [] [] = true
  same_callsign [] (y ∷ ys) = false
  same_callsign (x ∷ xs) [] = false
  same_callsign (x ∷ xs) (y ∷ ys) = x == y && same_callsign xs ys

  unfoldable pub keeps_matched : Option DataValidity → List ℕ → List ℕ → Bool → Bool
  keeps_matched none old new matched = matched
  keeps_matched (some valid) old new matched = matched && same_callsign old new

  unfoldable pub update_status : Message → Status → Status
  update_status mm a =
      let source = mm.header.source in
      let i = mm.data_of.identity in
      let airground = mm.data_of.airground in
      record a {
        category = if i.category_valid then i.category else a.category;
        squawk = offer now source i.squawk_valid i.squawk a.squawk;
        emergency = offer now source i.emergency_valid i.emergency a.emergency;
        airground = offer now source (is_airground airground a.airground) airground a.airground;
        callsign_matched =
            if i.callsign_valid
            then keeps_matched (accept_data now source a.callsign.valid) a.callsign.value i.callsign
                a.callsign_matched
            else a.callsign_matched;
        callsign = offer now source i.callsign_valid i.callsign a.callsign;
      }

  unfoldable pub is_nav_source : NavAltitudeSource → Bool
  is_nav_source nav_alt_invalid = false
  is_nav_source nav_alt_unknown = true
  is_nav_source nav_alt_aircraft = true
  is_nav_source nav_alt_mcp = true
  is_nav_source nav_alt_fms = true

  unfoldable pub update_intent : Message → Intent → Intent
  update_intent mm a =
      let source = mm.header.source in
      let n = mm.data_of.nav in
      record {
        nav_altitude_mcp = offer now source n.mcp_altitude_valid n.mcp_altitude a.nav_altitude_mcp;
        nav_altitude_fms = offer now source n.fms_altitude_valid n.fms_altitude a.nav_altitude_fms;
        nav_altitude_src =
            offer now source (is_nav_source n.altitude_source) n.altitude_source a.nav_altitude_src;
        nav_heading = offer now source n.heading_valid n.heading a.nav_heading;
        nav_modes = offer now source n.modes_valid n.modes a.nav_modes;
        nav_qnh = offer now source n.qnh_valid n.qnh a.nav_qnh;
      }

  -- `compute_nic_rc_from_message`, with the report that it is for. A version below 0 is none of those
  -- that the tables name.
  unfoldable pub version_number : ℤ → ℕ
  version_number (pos n) = n
  version_number (negsuc n) = 0xffffffff - n

  unfoldable pub report_of : Message → Aircraft → Report
  report_of mm a =
      let p = mm.data_of.position in
      let i = a.integrity in
      let acc = mm.data_of.accuracy in
      let version = version_number a.versions.adsb_version in
      let nic_a = is_item_valid now i.nic_a && not (i.nic_a.value == 0) in
      let nic_b = acc.nic_b_valid && not (acc.nic_b == 0) in
      let nic_c = is_item_valid now i.nic_c && not (i.nic_c.value == 0) in
      record {
        type = p.cpr_type;
        lat = p.cpr_lat;
        lon = p.cpr_lon;
        nic = compute_nic mm.raw.metype version nic_a nic_b nic_c;
        rc = compute_rc mm.raw.metype version nic_a nic_b nic_c;
      }

  unfoldable pub update_reports : Message → Aircraft → Whereabouts
  update_reports mm a =
      let source = mm.header.source in
      let p = mm.data_of.position in
      let w = a.whereabouts in
      record w {
        cpr_even = offer now source (p.cpr_valid && not p.cpr_odd) (report_of mm a) w.cpr_even;
        cpr_odd = offer now source (p.cpr_valid && p.cpr_odd) (report_of mm a) w.cpr_odd;
      }

  unfoldable pub is_some : Option DataValidity → Bool
  is_some none = false
  is_some (some valid) = true

  -- `cpr_new`
  unfoldable pub is_new_report : Message → Whereabouts → Bool
  is_new_report mm w =
      let p = mm.data_of.position in
      let old = if p.cpr_odd then w.cpr_odd else w.cpr_even in
      p.cpr_valid && is_some (accept_data now mm.header.source old.valid)

  unfoldable pub next_sil_type : Option DataValidity → SilType → SilType → SilType
  next_sil_type none new old = old
  next_sil_type (some valid) sil_unknown sil_invalid = sil_unknown
  next_sil_type (some valid) sil_unknown sil_unknown = sil_unknown
  next_sil_type (some valid) sil_unknown sil_per_sample = sil_per_sample
  next_sil_type (some valid) sil_unknown sil_per_hour = sil_per_hour
  next_sil_type (some valid) sil_invalid old = sil_invalid
  next_sil_type (some valid) sil_per_sample old = sil_per_sample
  next_sil_type (some valid) sil_per_hour old = sil_per_hour

  -- The SDA is taken twice in the source; the second time it is accepted again.
  unfoldable pub update_integrity : Message → Integrity → Integrity
  update_integrity mm a =
      let source = mm.header.source in
      let n = mm.data_of.accuracy in
      record {
        nic_a = offer now source n.nic_a_valid n.nic_a a.nic_a;
        nic_c = offer now source n.nic_c_valid n.nic_c a.nic_c;
        nic_baro = offer now source n.nic_baro_valid n.nic_baro a.nic_baro;
        nac_p = offer now source n.nac_p_valid n.nac_p a.nac_p;
        nac_v = offer now source n.nac_v_valid n.nac_v a.nac_v;
        sil = offer now source (is_sil n.sil_type) n.sil a.sil;
        sil_type =
            if is_sil n.sil_type
            then next_sil_type (accept_data now source a.sil.valid) n.sil_type a.sil_type
            else a.sil_type;
        gva = offer now source n.gva_valid n.gva a.gva;
        sda = offer now source n.sda_valid n.sda (offer now source n.sda_valid n.sda a.sda);
      }

  unfoldable pub update_meteo : Message → Meteo → Meteo
  update_meteo mm a =
      let source = mm.header.source in
      let w = mm.data_of.weather in
      record {
        mrar_source = offer now source w.mrar_source_valid w.mrar_source a.mrar_source;
        wind =
            offer now source w.wind_valid record { speed = w.wind_speed; dir = w.wind_dir } a.wind;
        temperature = offer now source w.temperature_valid w.temperature a.temperature;
        pressure = offer now source w.pressure_valid w.pressure a.pressure;
        turbulence = offer now source w.turbulence_valid w.turbulence a.turbulence;
        humidity = offer now source w.humidity_valid w.humidity a.humidity;
      }

-- ===== src/Stats/Totals.antt =====
-- stats.c: `add_timespecs` and `add_stats`, with `struct stats` of stats.h. The counters of the tracker and
-- those of messages are records of their own.
use rbfeeder.Base.{ℕ, ◌+◌, List, [], ◌∷◌, Bool, ◌&&◌, ◌||◌, ltb, ◌==◌, if◌then◌else◌, u32, u64}
use rbfeeder.Base.Int.{ℤ, ◌+ℤ◌}
use rbfeeder.Base.Ratio.{Ratio, lt_ratio}
use rbfeeder.Base.Double.{add_double}
use rbfeeder.Util.Timespec.{Timespec, quotient, remainder}
use rbfeeder.Track.Position.{Stats}
use rbfeeder.Net.Remote.{RemoteStats}

-- `add_timespecs`
unfoldable pub add_timespecs : Timespec → Timespec → Timespec
add_timespecs x y =
    let nsec = x.tv_nsec +ℤ y.tv_nsec in
    record {
      tv_sec = x.tv_sec +ℤ y.tv_sec +ℤ quotient nsec 1000000000;
      tv_nsec = remainder nsec 1000000000;
    }

unfoldable pub add_counts : List ℕ → List ℕ → List ℕ
add_counts [] ys = []
add_counts (x ∷ xs) [] = []
add_counts (x ∷ xs) (y ∷ ys) = u32 (x + y) ∷ add_counts xs ys

-- The counters and measurements of the receiver of this station.
pub record Demodulated : Type 0 where
  pub preambles : ℕ
  pub rejected_bad : ℕ
  pub rejected_unknown_icao : ℕ
  pub accepted : List ℕ
  pub modeac : ℕ
  pub samples_processed : ℕ
  pub samples_dropped : ℕ
  pub strong_signal_count : ℕ

pub record Power : Type 0 where
  pub noise_power_sum : Ratio
  pub noise_power_count : ℕ
  pub signal_power_sum : Ratio
  pub signal_power_count : ℕ
  pub peak_signal_power : Ratio

pub record Cpu : Type 0 where
  pub demod_cpu : Timespec
  pub reader_cpu : Timespec
  pub background_cpu : Timespec

pub record Adaptive : Type 0 where
  pub valid : Bool
  pub gain : ℤ
  pub gain_seconds : List ℕ
  pub loud_undecoded : ℕ
  pub loud_decoded : ℕ
  pub gain_changes : ℕ
  pub noise_dbfs : Ratio
  pub range_gain_limit : ℤ

-- `struct stats`, with the counters that the other records have not.
pub record Totals : Type 0 where
  pub start : ℕ
  pub end : ℕ
  pub demod : Demodulated
  pub power : Power
  pub cpu : Cpu
  pub messages : RemoteStats
  pub tracking : Stats
  pub cpr_local_aircraft_relative : ℕ
  pub cpr_local_receiver_relative : ℕ
  pub cpr_filtered : ℕ
  pub suppressed_altitude_messages : ℕ
  pub adaptive : Adaptive

-- The earlier start; 0 is none.
unfoldable pub first_start : ℕ → ℕ → ℕ
first_start a b = if a == 0 then b else if b == 0 then a else if ltb a b then a else b

-- Whether the first of two spans is the newer one.
unfoldable pub is_newer_span : Totals → Totals → Bool
is_newer_span a b = ltb b.end a.end || (a.end == b.end && ltb b.start a.start)

unfoldable pub add_demodulated : Demodulated → Demodulated → Demodulated
add_demodulated a b = record {
  preambles = u32 (a.preambles + b.preambles);
  rejected_bad = u32 (a.rejected_bad + b.rejected_bad);
  rejected_unknown_icao = u32 (a.rejected_unknown_icao + b.rejected_unknown_icao);
  accepted = add_counts a.accepted b.accepted;
  modeac = u32 (a.modeac + b.modeac);
  samples_processed = u64 (a.samples_processed + b.samples_processed);
  samples_dropped = u64 (a.samples_dropped + b.samples_dropped);
  strong_signal_count = u32 (a.strong_signal_count + b.strong_signal_count);
}

unfoldable pub add_power : Power → Power → Power
add_power a b = record {
  noise_power_sum = add_double a.noise_power_sum b.noise_power_sum;
  noise_power_count = u64 (a.noise_power_count + b.noise_power_count);
  signal_power_sum = add_double a.signal_power_sum b.signal_power_sum;
  signal_power_count = u64 (a.signal_power_count + b.signal_power_count);
  peak_signal_power =
      if lt_ratio b.peak_signal_power a.peak_signal_power
      then a.peak_signal_power
      else b.peak_signal_power;
}

unfoldable pub add_cpu : Cpu → Cpu → Cpu
add_cpu a b = record {
  demod_cpu = add_timespecs a.demod_cpu b.demod_cpu;
  reader_cpu = add_timespecs a.reader_cpu b.reader_cpu;
  background_cpu = add_timespecs a.background_cpu b.background_cpu;
}

unfoldable pub add_messages : RemoteStats → RemoteStats → RemoteStats
add_messages a b = record {
  received_modeac = u32 (a.received_modeac + b.received_modeac);
  received_modes = u32 (a.received_modes + b.received_modes);
  rejected_bad = u32 (a.rejected_bad + b.rejected_bad);
  rejected_unknown_icao = u32 (a.rejected_unknown_icao + b.rejected_unknown_icao);
  accepted = add_counts a.accepted b.accepted;
  messages_total = u32 (a.messages_total + b.messages_total);
  messages_by_df = add_counts a.messages_by_df b.messages_by_df;
}

unfoldable pub add_tracking : Stats → Stats → Stats
add_tracking a b = record {
  cpr_surface = u32 (a.cpr_surface + b.cpr_surface);
  cpr_airborne = u32 (a.cpr_airborne + b.cpr_airborne);
  cpr_global_ok = u32 (a.cpr_global_ok + b.cpr_global_ok);
  cpr_global_bad = u32 (a.cpr_global_bad + b.cpr_global_bad);
  cpr_global_skipped = u32 (a.cpr_global_skipped + b.cpr_global_skipped);
  cpr_global_range_checks = u32 (a.cpr_global_range_checks + b.cpr_global_range_checks);
  cpr_global_speed_checks = u32 (a.cpr_global_speed_checks + b.cpr_global_speed_checks);
  cpr_local_ok = u32 (a.cpr_local_ok + b.cpr_local_ok);
  cpr_local_skipped = u32 (a.cpr_local_skipped + b.cpr_local_skipped);
  cpr_local_range_checks = u32 (a.cpr_local_range_checks + b.cpr_local_range_checks);
  cpr_local_speed_checks = u32 (a.cpr_local_speed_checks + b.cpr_local_speed_checks);
  unique_aircraft = u32 (a.unique_aircraft + b.unique_aircraft);
  single_message_aircraft = u32 (a.single_message_aircraft + b.single_message_aircraft);
  unreliable_aircraft = u32 (a.unreliable_aircraft + b.unreliable_aircraft);
  range_histogram = add_counts a.range_histogram b.range_histogram;
}

-- The state of the gain control is that of the span that has one, or of the newer one.
unfoldable pub best_adaptive : Bool → Adaptive → Adaptive → Adaptive
best_adaptive newer a b =
    if a.valid && b.valid then if newer then a else b else if a.valid then a else b

unfoldable pub add_adaptive : Bool → Adaptive → Adaptive → Adaptive
add_adaptive newer a b =
    let best = best_adaptive newer a b in
    record {
      valid = best.valid;
      gain = best.gain;
      gain_seconds = add_counts a.gain_seconds b.gain_seconds;
      loud_undecoded = u32 (a.loud_undecoded + b.loud_undecoded);
      loud_decoded = u32 (a.loud_decoded + b.loud_decoded);
      gain_changes = u32 (a.gain_changes + b.gain_changes);
      noise_dbfs = best.noise_dbfs;
      range_gain_limit = best.range_gain_limit;
    }

-- `add_stats(a, b, b)`, as in every call: the start is written to `b` before it is compared.
unfoldable pub add_stats : Totals → Totals → Totals
add_stats a b =
    let start = first_start a.start b.start in
    let newer = is_newer_span a (record b { start = start }) in
    record {
      start = start;
      end = if newer then a.end else b.end;
      demod = add_demodulated a.demod b.demod;
      power = add_power a.power b.power;
      cpu = add_cpu a.cpu b.cpu;
      messages = add_messages a.messages b.messages;
      tracking = add_tracking a.tracking b.tracking;
      cpr_local_aircraft_relative =
          u32 (a.cpr_local_aircraft_relative + b.cpr_local_aircraft_relative);
      cpr_local_receiver_relative =
          u32 (a.cpr_local_receiver_relative + b.cpr_local_receiver_relative);
      cpr_filtered = u32 (a.cpr_filtered + b.cpr_filtered);
      suppressed_altitude_messages =
          u32 (a.suppressed_altitude_messages + b.suppressed_altitude_messages);
      adaptive = add_adaptive newer a.adaptive b.adaptive;
    }

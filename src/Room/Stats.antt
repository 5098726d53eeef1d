-- ===== src/Room/Stats.antt =====
-- room/stats.py: the node's radio counters and the status response. Times are in ticks, of which
-- a second has 1000.
pub mod Encoded
use meshelle.Prelude.{
  Bytes, List, [], if◌then◌else◌, le_bytes, ltb, min, negsuc, pos, ℕ, ℤ, ◌++◌, ◌-◌, ◌/◌, ◌^◌, ◌∷◌,
}
use meshelle.Proto.Error.{Result, err, ok, pack_u16, pack_u32, struct_error, ◌>>=◌, ◌>>◌}

pub record RadioStats : Type 0 where
  pub started_at : ℕ
  pub packets_recv : ℕ
  pub packets_sent : ℕ
  pub sent_flood : ℕ
  pub sent_direct : ℕ
  pub recv_flood : ℕ
  pub recv_direct : ℕ
  pub direct_dups : ℕ
  pub flood_dups : ℕ
  pub err_events : ℕ
  pub last_rssi : ℤ
  pub last_snr_quarters : ℤ

unfoldable pub reset : RadioStats → RadioStats
reset r = record {
  started_at = r.started_at;
  packets_recv = 0;
  packets_sent = 0;
  sent_flood = 0;
  sent_direct = 0;
  recv_flood = 0;
  recv_direct = 0;
  direct_dups = 0;
  flood_dups = 0;
  err_events = 0;
  last_rssi = pos 0;
  last_snr_quarters = pos 0;
}

unfoldable pub uptime_seconds : RadioStats → ℕ → ℕ
uptime_seconds r monotonic_now = (monotonic_now - r.started_at) / 1000

-- `_clamp`, of a value that is not negative.
abbrev pub clamp : ℕ → ℕ → ℕ
clamp value limit = min value limit

abbrev pub uint16_max : ℕ
uint16_max = 0xffff

abbrev pub uint32_max : ℕ
uint32_max = 0xffffffff

pub record ServerStats : Type 0 where
  pub batt_milli_volts : ℕ
  pub curr_tx_queue_len : ℕ
  pub noise_floor : ℤ
  pub last_rssi : ℤ
  pub n_packets_recv : ℕ
  pub n_packets_sent : ℕ
  pub total_air_time_secs : ℕ
  pub total_up_time_secs : ℕ
  pub n_sent_flood : ℕ
  pub n_sent_direct : ℕ
  pub n_recv_flood : ℕ
  pub n_recv_direct : ℕ
  pub err_events : ℕ
  pub last_snr : ℤ
  pub n_direct_dups : ℕ
  pub n_flood_dups : ℕ
  pub n_posted : ℕ
  pub n_post_push : ℕ

unfoldable pub build : RadioStats → ℕ → ℕ → ℕ → ServerStats
unfolding uptime_seconds
build radio monotonic_now posted post_pushes = record {
  batt_milli_volts = 0;
  curr_tx_queue_len = 0;
  noise_floor = pos 0;
  last_rssi = radio.last_rssi;
  n_packets_recv = radio.packets_recv;
  n_packets_sent = radio.packets_sent;
  total_air_time_secs = 0;
  total_up_time_secs = uptime_seconds radio monotonic_now;
  n_sent_flood = radio.sent_flood;
  n_sent_direct = radio.sent_direct;
  n_recv_flood = radio.recv_flood;
  n_recv_direct = radio.recv_direct;
  err_events = radio.err_events;
  last_snr = radio.last_snr_quarters;
  n_direct_dups = radio.direct_dups;
  n_flood_dups = radio.flood_dups;
  n_posted = posted;
  n_post_push = post_pushes;
}

-- The `h` of `struct.pack`: two's complement, and `struct.error` out of range.
abbrev pub pack_i16 : ℤ → Result Bytes
pack_i16 (pos n) = if ltb n (2 ^ 15) then ok (le_bytes 2 n) else err struct_error
pack_i16 (negsuc n) = if ltb n (2 ^ 15) then ok (le_bytes 2 (2 ^ 16 - 1 - n)) else err struct_error

-- The fields of a `struct.pack`, one behind the other.
unfoldable pub pack_all : List (Result Bytes) → Result Bytes
pack_all [] = ok []
pack_all (field ∷ rest) = do a ← field; b ← pack_all rest; ok (a ++ b)

-- The fields in the order of the struct, the counters saturated.
unfoldable pub packed_fields : ServerStats → List (Result Bytes)
packed_fields s =
    pack_u16 (clamp s.batt_milli_volts uint16_max)
    ∷ pack_u16 (clamp s.curr_tx_queue_len uint16_max)
    ∷ pack_i16 s.noise_floor
    ∷ pack_i16 s.last_rssi
    ∷ pack_u32 (clamp s.n_packets_recv uint32_max)
    ∷ pack_u32 (clamp s.n_packets_sent uint32_max)
    ∷ pack_u32 (clamp s.total_air_time_secs uint32_max)
    ∷ pack_u32 (clamp s.total_up_time_secs uint32_max)
    ∷ pack_u32 (clamp s.n_sent_flood uint32_max)
    ∷ pack_u32 (clamp s.n_sent_direct uint32_max)
    ∷ pack_u32 (clamp s.n_recv_flood uint32_max)
    ∷ pack_u32 (clamp s.n_recv_direct uint32_max)
    ∷ pack_u16 (clamp s.err_events uint16_max)
    ∷ pack_i16 s.last_snr
    ∷ pack_u16 (clamp s.n_direct_dups uint16_max)
    ∷ pack_u16 (clamp s.n_flood_dups uint16_max)
    ∷ pack_u16 (clamp s.n_posted uint16_max)
    ∷ pack_u16 (clamp s.n_post_push uint16_max)
    ∷ []

unfoldable pub encode : ServerStats → Result Bytes
unfolding pack_all packed_fields
encode s = pack_all (packed_fields s)

-- ===== src/Room/Stats/Encoded.antt =====
-- The encoding of the status response of room/stats.py.
use meshelle.Prelude.{
  Bytes, List, [], arith, le_bytes, length, length-append, ltb, lt→ltb, negsuc, pos, refl, true, ℕ,
  ℤ, ◌++◌, ◌+◌, ◌-◌, ◌<◌, ◌^◌, ◌∷◌, ◌≡◌,
}
use meshelle.Proto.Error.{Result, ok, pack_u16, pack_u32}
use meshelle.Room.Stats.{
  RadioStats, build, clamp, encode, pack_all, pack_i16, packed_fields, uint16_max, uint32_max,
  uptime_seconds,
}

-- A field that packs to a given number of bytes.
abbrev pub Packs : ℕ → Result Bytes → Type 0
Packs n field = (bytes : Bytes) × (field ≡ ok bytes) × (length bytes ≡ n)

pub Packs-u16 : (n : ℕ) → Packs 2 (pack_u16 (clamp n uint16_max))
Packs-u16 n =
    let fits : ltb (clamp n uint16_max) (2 ^ 16) ≡ true = ground arith in
    (le_bytes 2 (clamp n uint16_max), rw fits refl, refl)

pub Packs-u32 : (n : ℕ) → Packs 4 (pack_u32 (clamp n uint32_max))
Packs-u32 n =
    let fits : ltb (clamp n uint32_max) (2 ^ 32) ≡ true = ground arith in
    (le_bytes 4 (clamp n uint32_max), rw fits refl, refl)

-- The range of a signed 16-bit field.
abbrev pub IsI16 : ℤ → Type 0
IsI16 (pos n) = n < 2 ^ 15
IsI16 (negsuc n) = n < 2 ^ 15

pub Packs-i16 : (z : ℤ) → IsI16 z → Packs 2 (pack_i16 z)
Packs-i16 (pos n) h = (le_bytes 2 n, rw (lt→ltb n (2 ^ 15) h) refl, refl)
Packs-i16 (negsuc n) h = (le_bytes 2 (2 ^ 16 - 1 - n), rw (lt→ltb n (2 ^ 15) h) refl, refl)

-- Fields that pack to given numbers of bytes, and so one behind the other.
abbrev pub PacksAll : List ℕ → List (Result Bytes) → Type 0
PacksAll [] [] = Unit {0}
PacksAll (n ∷ ns) (field ∷ rest) = Packs n field × PacksAll ns rest
PacksAll _ _ = ⊥

abbrev pub sum : List ℕ → ℕ
sum [] = 0
sum (n ∷ ns) = n + sum ns

pub PacksAll-Packs :
    (ns : List ℕ) (fields : List (Result Bytes))
    → PacksAll ns fields
    → Packs (sum ns) (pack_all fields)
unfolding pack_all
PacksAll-Packs [] [] h = ([], refl, refl)
PacksAll-Packs [] (field ∷ rest) h = elim h [ ]
PacksAll-Packs (n ∷ ns) [] h = elim h [ ]
PacksAll-Packs (n ∷ ns) (field ∷ rest) ((a, ea, la), h) =
    let (b, eb, lb) = PacksAll-Packs ns rest h in
    (a ++ b, rw (ea, eb) refl, let size = length-append a b in omega arith)

-- A field in front of the others.
infixr 4 ◌▹◌
abbrev ◌▹◌ : {A : Type 0} {B : Type 0} → A → B → A × B
first ▹ rest = (first, rest)

-- Whatever the counters have grown to, a status response whose radio readings fit 16 signed bits is
-- encoded, in 52 bytes.
pub encode-stats :
    (radio : RadioStats) (monotonic_now posted post_pushes : ℕ)
    → IsI16 radio.last_rssi
    → IsI16 radio.last_snr_quarters
    → Packs 52 (encode (build radio monotonic_now posted post_pushes))
unfolding encode build packed_fields
encode-stats radio now posted pushes rssi snr =
    PacksAll-Packs (2 ∷ 2 ∷ 2 ∷ 2 ∷ 4 ∷ 4 ∷ 4 ∷ 4 ∷ 4 ∷ 4 ∷ 4 ∷ 4 ∷ 2 ∷ 2 ∷ 2 ∷ 2 ∷ 2 ∷ 2 ∷ [])
      (packed_fields (build radio now posted pushes))
      (Packs-u16 0
        ▹ Packs-u16 0
        ▹ Packs-i16 (pos 0) (omega arith)
        ▹ Packs-i16 radio.last_rssi rssi
        ▹ Packs-u32 radio.packets_recv
        ▹ Packs-u32 radio.packets_sent
        ▹ Packs-u32 0
        ▹ Packs-u32 (uptime_seconds radio now)
        ▹ Packs-u32 radio.sent_flood
        ▹ Packs-u32 radio.sent_direct
        ▹ Packs-u32 radio.recv_flood
        ▹ Packs-u32 radio.recv_direct
        ▹ Packs-u16 radio.err_events
        ▹ Packs-i16 radio.last_snr_quarters snr
        ▹ Packs-u16 radio.direct_dups
        ▹ Packs-u16 radio.flood_dups
        ▹ Packs-u16 posted
        ▹ Packs-u16 pushes
        ▹ tt)

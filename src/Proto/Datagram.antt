-- ===== src/Proto/Datagram.antt =====
-- `Datagram` and `max_plaintext_len` of proto/packet.py.
pub mod RoundTrip
pub mod Budget
use meshelle.Prelude.{Bytes, drop, get_or, if◌then◌else◌, length, ltb, ℕ, ◌*◌, ◌++◌, ◌+◌, ◌-◌, ◌/◌}
use meshelle.Proto.Error.{Result, byte_of, guard, ok, short_datagram, ◌>>=◌, ◌>>◌}
use meshelle.Proto.Constants.{cipher_block_size, cipher_mac_size, max_raw_tx_packet}
use meshelle.Proto.Crypto.{Primitives, encrypt_then_mac, mac_then_decrypt}

abbrev pub node_hash_size : ℕ
node_hash_size = 1

abbrev pub header_len : ℕ
header_len = node_hash_size * 2

pub record Datagram : Type 0 where
  pub dest_hash : ℕ
  pub src_hash : ℕ
  pub sealed : Bytes

unfoldable pub encode : Datagram → Result Bytes
encode d = do dest ← byte_of d.dest_hash; src ← byte_of d.src_hash; ok (dest ++ (src ++ d.sealed))

unfoldable pub decode : Bytes → Result Datagram
decode payload = do
  guard (ltb (header_len + cipher_mac_size) (length payload)) short_datagram
  ok (record {
    dest_hash = get_or payload 0 0;
    src_hash = get_or payload 1 0;
    sealed = drop header_len payload;
  })

unfoldable pub max_plaintext_len : ℕ → ℕ
max_plaintext_len path_bytes =
    let budget = max_raw_tx_packet - 2 - path_bytes - header_len - cipher_mac_size in
    if ltb budget cipher_block_size then 0 else budget / cipher_block_size * cipher_block_size

module _ (c : Primitives) where
  unfoldable pub seal : ℕ → ℕ → Bytes → Bytes → Result Datagram
  seal dest src secret plaintext = do
    sealed ← encrypt_then_mac c secret plaintext
    ok (record { dest_hash = dest; src_hash = src; sealed = sealed })

  unfoldable pub open_with : Bytes → Datagram → Result Bytes
  open_with secret d = mac_then_decrypt c secret d.sealed

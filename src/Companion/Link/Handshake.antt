-- ===== src/Companion/Link/Handshake.antt =====
-- companion/link.py: the handshake with the node and the probe for its commands. Sending a frame
-- succeeds here, and the timeouts are not modelled.
use meshelle.Prelude.{
  Bool, Bytes, List, [], before_first, drop, false, from_le, get_or, if◌then◌else◌, inl, inr, leb,
  length, ltb, not, replicate, take, true, ℕ, ◌++◌, ◌-◌, ◌==◌, ◌∷◌, ◌⊎◌,
}
use meshelle.Proto.Text.{Text, utf8_encode}
use meshelle.Proto.Text.Codec.{decode_replace, start}
use meshelle.Companion.Link.{
  LinkError, cmd_app_start, cmd_device_query, companion_api_version, err_illegal_arg,
  err_unsupported_cmd, has_error_code, rejected_handshake, resp_device_info, resp_err,
  resp_self_info, short_device_info, short_self_info, transport_closed,
}

pub record CompanionInfo : Type 0 where
  pub firmware_version_code : ℕ
  pub firmware_version : Text
  pub build_date : Text
  pub manufacturer : Text
  pub path_hash_mode : ℕ
  pub public_key : Bytes
  pub node_name : Text
  pub tx_power_dbm : ℕ
  pub max_tx_power_dbm : ℕ
  pub frequency_khz : ℕ
  pub bandwidth_hz : ℕ
  pub spreading_factor : ℕ
  pub coding_rate : ℕ

abbrev pub device_info_min_len : ℕ
device_info_min_len = 60

abbrev pub self_info_min_len : ℕ
self_info_min_len = 58

-- `field.split(b"\x00")[0].decode("utf-8", errors="replace")`
abbrev pub c_string : Bytes → Text
c_string field = decode_replace (before_first 0 field)

-- `frame[start:stop]`
abbrev pub slice : ℕ → ℕ → Bytes → Bytes
slice start stop frame = take (stop - start) (drop start frame)

-- The fields of `RESP_CODE_DEVICE_INFO`, in an info whose other fields stay.
unfoldable pub parse_device_info : Bytes → CompanionInfo → LinkError ⊎ CompanionInfo
parse_device_info frame info =
    if ltb (length frame) device_info_min_len
    then inl short_device_info
    else inr (record info {
      firmware_version_code = get_or frame 1 0;
      build_date = c_string (slice 8 20 frame);
      manufacturer = c_string (slice 20 60 frame);
      firmware_version = if leb 80 (length frame) then c_string (slice 60 80 frame) else [];
      path_hash_mode = if leb 82 (length frame) then get_or frame 81 0 else 0;
    })

-- The fields of `RESP_CODE_SELF_INFO`, in an info whose other fields stay.
unfoldable pub parse_self_info : Bytes → CompanionInfo → LinkError ⊎ CompanionInfo
parse_self_info frame info =
    if ltb (length frame) self_info_min_len
    then inl short_self_info
    else inr (record info {
      tx_power_dbm = get_or frame 2 0;
      max_tx_power_dbm = get_or frame 3 0;
      public_key = slice 4 36 frame;
      frequency_khz = from_le (slice 48 52 frame);
      bandwidth_hz = from_le (slice 52 56 frame);
      spreading_factor = get_or frame 56 0;
      coding_rate = get_or frame 57 0;
      node_name = c_string (drop 58 frame);
    })

-- The frame that is awaited, and the frames after it.
unfoldable pub expect : ℕ → List Bytes → LinkError ⊎ (Bytes × List Bytes)
expect code [] = inl transport_closed
expect code ([] ∷ frames) = expect code frames
expect code ((first ∷ rest) ∷ frames) =
    let later = expect code frames in
    if first == code
    then inr (first ∷ rest, frames)
    else if first == resp_err
    then inl rejected_handshake
    else later

abbrev pub device_query_frame : Bytes
device_query_frame = cmd_device_query ∷ companion_api_version ∷ []

abbrev pub app_start_frame : Text → Bytes
app_start_frame app_name = cmd_app_start ∷ 1 ∷ replicate 6 0 ++ utf8_encode app_name

-- Before the node has answered.
abbrev pub blank_info : CompanionInfo
blank_info = record {
  firmware_version_code = 0;
  firmware_version = [];
  build_date = [];
  manufacturer = [];
  path_hash_mode = 0;
  public_key = [];
  node_name = [];
  tx_power_dbm = 0;
  max_tx_power_dbm = 0;
  frequency_khz = 0;
  bandwidth_hz = 0;
  spreading_factor = 0;
  coding_rate = 0;
}

-- Of two steps that may raise, the second runs where the first did not.
abbrev after {ℓ κ} : {A : Type ℓ} {B : Type κ} → LinkError ⊎ A → (A → LinkError ⊎ B) → LinkError ⊎ B
after (inl raised) rest = inl raised
after (inr a) rest = rest a

-- The awaited frame's fields, and the frames after it.
abbrev parsed :
    (Bytes → CompanionInfo → LinkError ⊎ CompanionInfo)
    → CompanionInfo
    → Bytes × List Bytes
    → LinkError ⊎ (CompanionInfo × List Bytes)
parsed parse info (frame, frames) = after (parse frame info) (λ full. inr (full, frames))

-- `handshake` from where the node has described its device: the frames sent, and the result.
abbrev introduce :
    Text
    → LinkError ⊎ (CompanionInfo × List Bytes)
    → List Bytes × (LinkError ⊎ (CompanionInfo × List Bytes))
introduce app_name (inl raised) = (device_query_frame ∷ [], inl raised)
introduce app_name (inr (info, frames)) = (
  device_query_frame ∷ app_start_frame app_name ∷ [],
  after (expect resp_self_info frames) (parsed parse_self_info info),
)

-- The frames that `handshake` sends, and the info with the frames that it left unread.
unfoldable pub handshake :
    Text → List Bytes → List Bytes × (LinkError ⊎ (CompanionInfo × List Bytes))
unfolding expect parse_device_info
handshake app_name frames =
    introduce app_name
      (after (expect resp_device_info frames) (parsed parse_device_info blank_info))

-- The reply to the probe's frame.
unfoldable pub probe_raw_packet_support : List Bytes → LinkError ⊎ Bool
probe_raw_packet_support [] = inl transport_closed
probe_raw_packet_support (frame ∷ frames) =
    let later = probe_raw_packet_support frames in
    if not (get_or frame 0 0 == resp_err)
    then later
    else if has_error_code err_unsupported_cmd frame
    then inr false
    else if has_error_code err_illegal_arg frame
    then inr true
    else later

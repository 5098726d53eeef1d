-- ===== src/Companion/Link.antt =====
-- companion/link.py: the commands to the node, its replies, and the queue of outgoing packets. A
-- list stands for the frames that a connection still gives before it ends. Times are in ticks.
pub mod Handshake
pub mod Queue
use meshelle.Prelude.{
  Bool, Bytes, List, [], drop, from_le, get_or, if◌then◌else◌, inl, inr, leb, length, ltb, negsuc,
  pos, take, ℕ, ℤ, ◌&&◌, ◌++◌, ◌+◌, ◌-◌, ◌==◌, ◌∷◌, ◌⊎◌,
}
use meshelle.Proto.Text.{Text}
use meshelle.Proto.Constants.{max_raw_tx_packet}

-- The exceptions of the link: the `CompanionError`s by their messages, and the transport's.
pub data LinkError : Type 0 where
  short_device_info short_self_info rejected_handshake : LinkError
  raw_packet_unsupported long_raw_packet bad_priority transport_closed : LinkError

-- The numbers of `Cmd`, `RespCode`, `PushCode` and `ErrCode`.
abbrev pub cmd_app_start : ℕ
cmd_app_start = 1

abbrev pub cmd_get_device_time : ℕ
cmd_get_device_time = 5

abbrev pub cmd_device_query : ℕ
cmd_device_query = 22

abbrev pub cmd_send_raw_packet : ℕ
cmd_send_raw_packet = 65

abbrev pub resp_ok : ℕ
resp_ok = 0

abbrev pub resp_err : ℕ
resp_err = 1

abbrev pub resp_self_info : ℕ
resp_self_info = 5

abbrev pub resp_curr_time : ℕ
resp_curr_time = 9

abbrev pub resp_device_info : ℕ
resp_device_info = 13

abbrev pub push_log_rx_data : ℕ
push_log_rx_data = 0x88

abbrev pub err_unsupported_cmd : ℕ
err_unsupported_cmd = 1

abbrev pub err_illegal_arg : ℕ
err_illegal_arg = 6

abbrev pub companion_api_version : ℕ
companion_api_version = 3

abbrev pub packet_queue_size : ℕ
packet_queue_size = 256

-- The signal to noise ratio is in quarters of a decibel, as on the wire.
pub record ReceivedPacket : Type 0 where
  pub raw : Bytes
  pub snr_quarters : ℤ
  pub rssi : ℤ

pub record Outbound : Type 0 where
  pub payload : Bytes
  pub expires_at : ℕ
  pub description : Text

-- What the link has received and nobody has taken: `_packets` and `_state.time_responses`.
pub record Inbox : Type 0 where
  pub packets : List ReceivedPacket
  pub time_responses : List ℕ

-- `put_nowait`; a full queue stays as it is.
abbrev pub put_nowait {ℓ} : {A : Type ℓ} → ℕ → A → List A → List A
put_nowait capacity a queue = if ltb (length queue) capacity then queue ++ a ∷ [] else queue

-- The `b` of `struct.unpack_from`.
abbrev pub read_i8 : ℕ → ℤ
read_i8 b = if ltb b 128 then pos b else negsuc (255 - b)

abbrev pub heard_packet : Bytes → ReceivedPacket
heard_packet frame = record {
  raw = drop 3 frame;
  snr_quarters = read_i8 (get_or frame 1 0);
  rssi = read_i8 (get_or frame 2 0);
}

-- `frame[1] == code`, where there is one.
abbrev pub has_error_code : ℕ → Bytes → Bool
has_error_code code frame = leb 2 (length frame) && (get_or frame 1 0 == code)

-- `_dispatch` of a frame that starts with the code.
abbrev pub dispatch_code : ℕ → Bytes → Inbox → LinkError ⊎ Inbox
dispatch_code code frame inbox =
    if code == push_log_rx_data
    then (if ltb (length frame) 4
        then inr inbox
        else inr (record inbox {
          packets = put_nowait packet_queue_size (heard_packet frame) inbox.packets;
        }))
    else if code == resp_ok
    then inr inbox
    else if (code == resp_curr_time) && leb 5 (length frame)
    then inr (record inbox {
      time_responses = put_nowait 4 (from_le (take 4 (drop 1 frame))) inbox.time_responses;
    })
    else if (code == resp_err) && has_error_code err_unsupported_cmd frame
    then inl raw_packet_unsupported
    else inr inbox

unfoldable pub dispatch : Bytes → Inbox → LinkError ⊎ Inbox
dispatch [] inbox = inr inbox
dispatch (code ∷ rest) inbox = dispatch_code code (code ∷ rest) inbox

-- The queue after `send_packet` at a time.
unfoldable pub send_packet : ℕ → Bytes → ℕ → ℕ → Text → List Outbound → LinkError ⊎ List Outbound
send_packet now raw priority ttl description outbound =
    if ltb max_raw_tx_packet (length raw)
    then inl long_raw_packet
    else if ltb 0xff priority
    then inl bad_priority
    else inr (
        outbound
        ++ record {
          payload = cmd_send_raw_packet ∷ priority ∷ raw;
          expires_at = now + ttl;
          description = description;
        }
          ∷ [])

-- What a round of `_send_loop` does: it waits, drops a packet, sends one, or ends with the
-- transport's exception.
pub data Turn : Type 0 where
  waiting closed : Turn
  dropped sent : Outbound → Turn

-- A round of `_send_loop` at a time, where the transport takes a frame or raises.
unfoldable pub send_turn : ℕ → Bool → List Outbound → Turn × List Outbound
send_turn now takes [] = (waiting, [])
send_turn now takes (item ∷ rest) =
    if ltb item.expires_at now
    then (dropped item, rest)
    else if takes
    then (sent item, rest)
    else (closed, item ∷ rest)

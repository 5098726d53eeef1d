-- ===== src/Room/Session.antt =====
-- `ClientSession` of room/server.py, and the timings of mesh/scheduler.py. Delays and readings of
-- the monotonic clock are in milliseconds.
use meshelle.Prelude.{Bool, Bytes, List, Option, [], if◌then◌else◌, not, ℕ, ◌*◌, ◌+◌, ◌==◌}
use meshelle.Proto.Constants.{is_flood, out_path_unknown}
use meshelle.Proto.Text.{Text}
use meshelle.Proto.Packet.{hash_size_of, hop_count, hops_of}
use meshelle.Config.Model.{Role}
use meshelle.Room.Acl.{RoleSource}

pub record ClientSession : Type 0 where
  pub public_key : Bytes
  pub shared_secret : Bytes
  pub role : Role
  pub source : RoleSource
  pub sync_since : ℕ
  pub last_timestamp : ℕ
  pub out_path : Bytes
  pub out_path_len : ℕ
  pub last_activity : ℕ
  pub pending_ack : Option Bytes
  pub push_post_ts : ℕ
  pub push_is_welcome : Bool
  pub ack_timeout : ℕ
  pub push_failures : ℕ
  pub welcome : List Text

abbrev pub has_out_path : ClientSession → Bool
has_out_path s = not (s.out_path_len == out_path_unknown)

abbrev pub session_hop_count : ClientSession → ℕ
session_hop_count s = hops_of s.out_path_len

abbrev pub session_hash_size : ClientSession → ℕ
session_hash_size s = hash_size_of s.out_path_len

abbrev pub forget_path : ClientSession → ClientSession
forget_path s = record s { out_path = []; out_path_len = out_path_unknown }

pub record Timings : Type 0 where
  pub server_response_delay : ℕ
  pub txt_ack_delay : ℕ
  pub reply_delay : ℕ
  pub push_notify_delay : ℕ
  pub sync_push_interval : ℕ
  pub push_ack_timeout_flood : ℕ
  pub push_timeout_base : ℕ
  pub push_ack_timeout_factor : ℕ
  pub post_sync_delay : ℕ
  pub max_push_failures : ℕ

unfoldable pub push_ack_timeout : Timings → Bool → ℕ → ℕ
push_ack_timeout t is_flood hop_count =
    if is_flood
    then t.push_ack_timeout_flood
    else t.push_timeout_base + t.push_ack_timeout_factor * (hop_count + 1)

-- ===== src/Room/Handlers/Messages.antt =====
-- `_on_text`, `_accept_post` and `_run_cli` of room/server.py.
pub mod Answer
pub mod Silent
use meshelle.Prelude.{
  Bool, Bytes, Option, [], false, if◌then◌else◌, length, ltb, map, none, not, some, true, ℕ, ◌++◌,
  ◌+◌, ◌==◌, ◌||◌, ◌∷◌,
}
use meshelle.Proto.Error.{Result, err, integrity_error, ok}
use meshelle.Config.Model.{Role, admin, may_post}
use meshelle.Proto.Constants.{TxtType, cli_data, signed_plain}
use meshelle.Proto.Crypto.{Primitives, ack_hash}
use meshelle.Proto.Text.{Text, utf8_encode}
use meshelle.Proto.Text.Codec.{decode_replace}
use meshelle.Proto.TextMessage.{TextMessage, body}
use meshelle.Store.Counters.{reset_counters}
use meshelle.Room.Session.{ClientSession}
use meshelle.Room.Posts.{decode_post_text}
use meshelle.Room.AdminCli.{CliContext, handle_command, split_prefix}
use meshelle.Room.Server.{Moment, Server}
use meshelle.Room.Server.Upkeep.{store_post}
use meshelle.Room.Exec.{Exec, change, heard, lift, modify, return, state, ◌>>=◌, ◌>>◌}
use meshelle.Room.Handlers.Sending.{send_ack, send_advert, send_cli_reply}
use meshelle.Proto.TextMessage
use meshelle.Room.Stats

-- The outcome of `_store_post`, whose `IntegrityError` leaves everything as it was.
abbrev pub stored : Option (ℕ × Server) → Server → Result (Unit {0}) × Server
stored none sv = (err integrity_error, sv)
stored (some (post_ts, after)) sv = (ok tt, after)

unfoldable pub store_text : Moment → Bytes → Text → Exec (Unit {0})
store_text m author text = λ sv. stored (store_post m.now m.monotonic author text sv) sv

unfoldable pub clear_stats : Exec (Unit {0})
clear_stats =
    modify (λ sv. record sv { db = reset_counters sv.db sv.room_id; radio = Stats.reset sv.radio })

unfoldable pub post_system_message : Moment → Text → Exec (Unit {0})
unfolding store_text
post_system_message m text = do
  t ← lift (decode_post_text (utf8_encode text))
  sv ← state
  store_text m sv.identity.public_key t

-- A text that is not empty is stored.
unfoldable pub accept_text : Moment → Bytes → Text → Exec Bool
unfolding store_text
accept_text m author [] = return true
accept_text m author (c ∷ cs) = do store_text m author (c ∷ cs); return true

-- `_accept_post`: whether to acknowledge the message.
unfoldable pub accept_post : Moment → ClientSession → TextMessage → Bool → Exec Bool
unfolding accept_text
accept_post m s message is_retry =
    if not (may_post s.role)
    then return false
    else if is_retry
    then return true
    else (do text ← lift (decode_post_text (body message)); accept_text m s.public_key text)

abbrev pub is_admin : Role → Bool
is_admin admin = true
is_admin _ = false

abbrev pub prefixed : Text → Text → Text
prefixed prefix [] = []
prefixed prefix (r ∷ reply) = prefix ++ r ∷ reply

module _ (c : Primitives) where
  -- `_cli_context`
  abbrev pub cli_context : Moment → Server → CliContext
  cli_context m sv = record {
    room_slug = sv.slug;
    version = sv.version;
    stamp = m.stamp;
    acl_entries = map (λ e. (e.pubkey, e.role)) sv.settings.members;
    send_advert = send_advert c m;
    clear_stats = clear_stats;
    post_message = post_system_message m;
  }

  -- `_run_cli`
  unfoldable pub run_cli : Moment → ClientSession → TextMessage → Bool → Exec Text
  run_cli m s message is_retry = if not (is_admin s.role) || is_retry then return [] else (do
    sv ← state
    let (prefix, command) = split_prefix (decode_replace (body message))
    reply ← handle_command command (cli_context m sv)
    return (prefixed prefix reply))

  -- The reply, and whether to acknowledge, by the type of the message.
  unfoldable pub answer_text :
      Moment → ClientSession → TextMessage → Bool → TxtType → Exec (Text × Bool)
  unfolding run_cli accept_post
  answer_text m s message is_retry cli_data = do
    reply ← run_cli m s message is_retry
    return (reply, false)
  answer_text m s message is_retry _ = do
    to_ack ← accept_post m s message is_retry
    return ([], to_ack)

  -- The acknowledgement, and then the reply.
  unfoldable pub send_answer :
      Moment → ClientSession → TextMessage → Bytes → Text × Bool → Exec (Unit {0})
  send_answer m s message checksum (reply, to_ack) = do
    sv ← state
    (if to_ack then send_ack c s checksum sv.timings.txt_ack_delay else return tt)
    let delay = if to_ack then sv.timings.txt_ack_delay + sv.timings.reply_delay else 0
    if length reply == 0
        then return tt
        else send_cli_reply c m s message reply (delay + sv.timings.server_response_delay)

  -- A message that is no replay; `is_retry` compares with the timestamp before.
  unfoldable pub take_text : Moment → ClientSession → TextMessage → Exec (Unit {0})
  unfolding change answer_text send_answer
  take_text m s message = do
    let is_retry = message.timestamp == s.last_timestamp
    change s.public_key (heard message.timestamp m.now)
    checksum ← lift (TextMessage.ack_hash c message s.public_key)
    answer ← answer_text m s message is_retry message.kind
    send_answer m s message checksum answer

  abbrev pub is_handled : TxtType → Bool
  is_handled signed_plain = false
  is_handled _ = true

  unfoldable pub on_text : Moment → ClientSession → Bytes → Exec (Unit {0})
  unfolding take_text
  on_text m s plaintext = do
    message ← lift (TextMessage.decode plaintext)
    if not (is_handled message.kind) || ltb message.timestamp s.last_timestamp
        then return tt
        else take_text m s message

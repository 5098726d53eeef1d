-- ===== src/Room/Handlers/Paths.antt =====
-- `_on_path_return` of room/server.py.
use meshelle.Prelude.{Bool, Bytes, bit_and, if◌then◌else◌, leb, length, take, ◌&&◌, ◌==◌}
use meshelle.Proto.Constants.{ack, payload_code}
use meshelle.Proto.Error.{ok}
use meshelle.Store.Clients.{set_out_path}
use meshelle.Room.Session.{ClientSession}
use meshelle.Room.Server.{Moment, on_ack}
use meshelle.Room.Exec.{Exec, change, lift, modify, return, ◌>>=◌, ◌>>◌}
use meshelle.Proto.Ack
use meshelle.Proto.PathReturn

-- `_on_ack`, which raises nothing.
abbrev pub claim : Bytes → Exec Bool
claim checksum = λ sv. (ok (on_ack checksum sv).0, (on_ack checksum sv).1)

-- Whether an acknowledgement is bundled.
abbrev pub has_ack : PathReturn.PathReturn → Bool
has_ack r = (bit_and r.extra_type 0x0f == payload_code ack) && leb Ack.len (length r.extra)

unfoldable pub on_path_return : Moment → ClientSession → Bytes → Exec (Unit {0})
unfolding change
on_path_return m s plaintext = do
  r ← lift (PathReturn.decode plaintext)
  let packed_len = PathReturn.packed r
  change s.public_key
      (λ t. record t { out_path = r.path; out_path_len = packed_len; last_activity = m.now })
  modify (λ sv. record sv { db = set_out_path sv.db sv.room_id s.public_key r.path packed_len })
  if has_ack r then (do claimed ← claim (take Ack.len r.extra); return tt) else return tt

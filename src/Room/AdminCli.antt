-- ===== src/Room/AdminCli.antt =====
-- room/admin_cli.py: the commands that an administrator sends over the air. The actions of the
-- context are methods of the room.
pub mod Kept
use meshelle.Prelude.{
  Bool, Bytes, List, Option, [], before_first, codes, decimal, drop, false, get_or, hex,
  if◌then◌else◌, length, ltb, map, none, not, some, starts_with, strip, take, true, two_digits, ℕ,
  ◌&&◌, ◌++◌, ◌+◌, ◌-◌, ◌==◌, ◌=b=◌, ◌∷◌,
}
use meshelle.Proto.Text.{Text}
use meshelle.Config.Model.{Role}
use meshelle.Room.Exec.{Exec, return, ◌>>=◌, ◌>>◌}
use meshelle.Mesh.Clock.{Datetime}
use meshelle.Config.Model

pub record CliContext : Type 0 where
  pub room_slug : Text
  pub version : Text
  pub stamp : Datetime
  pub acl_entries : List (Bytes × Role)
  pub send_advert : Bool → Exec (Unit {0})
  pub clear_stats : Exec (Unit {0})
  pub post_message : Text → Exec (Unit {0})

abbrev pub cli_prefix_len : ℕ
cli_prefix_len = 3

abbrev pub acl_line_limit : ℕ
acl_line_limit = 6

-- The texts of `REFUSALS`, the slug filled in.
unfoldable pub refusal_named : Text → Text → Option Text
refusal_named slug word =
    if word =b= codes "setperm"
    then some (
        codes "ERR - roles are declared in the config file, not set over the air. Add a [[room."
        ++ slug
        ++ codes ".members]] entry and send SIGHUP.")
    else if word =b= codes "password"
    then some (
        codes "ERR - passwords live in the config file ([room."
        ++ slug
        ++ codes ".passwords]). Change it there and send SIGHUP.")
    else if word =b= codes "set"
    then some (codes "ERR - meshelle has no writable prefs; edit the config file and send SIGHUP.")
    else if word =b= codes "time"
    then some (codes "ERR - the host clock is managed by the operating system, not over the air.")
    else if word =b= codes "erase"
    then some (codes "ERR - refused. Stop meshelle and remove its data directory instead.")
    else if word =b= codes "reboot"
    then some (codes "ERR - refused. meshelle is a service; restart it on the host.")
    else none

-- `_refusal_for`. (A first word has no space, so the key `clock sync` is not one.)
unfoldable pub refusal_for : Text → Text → Option Text
unfolding refusal_named
refusal_for slug text =
    if starts_with text (codes "clock sync")
    then some (codes "ERR - the host clock is managed by the operating system, not over the air.")
    else refusal_named slug (before_first b' ' text)

unfoldable pub split_prefix : Text → Text × Text
split_prefix command =
    if ltb 4 (length command) && (get_or command 2 0 == b'|')
    then (take cli_prefix_len command, drop cli_prefix_len command)
    else ([], command)

abbrev pub role_name : Role → Text
role_name Model.guest = codes "guest"
role_name Model.read_only = codes "read_only"
role_name Model.read_write = codes "read_write"
role_name Model.admin = codes "admin"

-- `"\n".join(lines)`
unfoldable pub join_lines : List Text → Text
join_lines [] = []
join_lines (l ∷ []) = l
join_lines (l ∷ k ∷ ls) = l ++ 10 ∷ join_lines (k ∷ ls)

abbrev pub acl_line : Bytes × Role → Text
acl_line (key, role) = hex (take 4 key) ++ b' ' ∷ role_name role

-- `_format_acl`
unfoldable pub format_acl : List (Bytes × Role) → Text
unfolding join_lines
format_acl [] = codes "(no members declared; access is by password or allow_unknown)"
format_acl (e ∷ es) =
    let shown = take acl_line_limit (e ∷ es) in
    let hidden = length (e ∷ es) - length shown in
    join_lines (
      map acl_line shown
      ++ (if ltb 0 hidden
          then (codes "(+" ++ decimal hidden ++ codes " more; see the config file)") ∷ []
          else []))

abbrev pub clock_text : Datetime → Text
clock_text d =
    two_digits d.hour
    ++ b':' ∷ two_digits d.minute
    ++ codes " - "
    ++ decimal d.day
    ++ b'/' ∷ decimal d.month
    ++ b'/' ∷ decimal d.year
    ++ codes " UTC"

-- `room.post`, of the text behind the command.
unfoldable pub post_command : CliContext → Text → Exec Text
post_command context [] = return (codes "ERR empty message")
post_command context (c ∷ cs) = do context.post_message (c ∷ cs); return (codes "OK")

-- A chain of `if`s: the first method whose test holds, or else the last one.
unfoldable pub first_of : List (Bool × Exec Text) → Exec Text → Exec Text
first_of [] otherwise = otherwise
first_of ((test, action) ∷ more) otherwise =
    let rest = first_of more otherwise in if test then action else rest

-- The commands that are not refused.
abbrev pub commands : CliContext → Text → List (Bool × Exec Text)
commands context text =
    (text =b= codes "ver", return (codes "meshelle " ++ context.version))
    ∷ (text =b= codes "clock", return (clock_text context.stamp))
    ∷ (
      text =b= codes "advert.zerohop",
      (do context.send_advert false; return (codes "OK - zerohop advert sent")),
    )
    ∷ (text =b= codes "advert", (do context.send_advert true; return (codes "OK - Advert sent")))
    ∷ (
      text =b= codes "clear stats",
      (do context.clear_stats; return (codes "(OK - stats reset, node-wide)")),
    )
    ∷ (text =b= codes "get acl", return (format_acl context.acl_entries))
    ∷ (starts_with text (codes "room.post"), post_command context (strip (drop 9 text)))
    ∷ []

unfoldable pub run_command : CliContext → Text → Exec Text
unfolding post_command first_of
run_command context text =
    first_of (commands context text)
      (return (codes "ERR - unknown command: " ++ before_first b' ' text))

-- A command that is not empty, by its refusal.
abbrev pub unless_refused : Option Text → Exec Text → Exec Text
unless_refused none run = run
unless_refused (some refusal) run = return refusal

unfoldable pub handle_stripped : CliContext → Text → Exec Text
unfolding run_command
handle_stripped context [] = return (codes "ERR - empty command")
handle_stripped context (c ∷ cs) =
    unless_refused (refusal_for context.room_slug (c ∷ cs)) (run_command context (c ∷ cs))

unfoldable pub handle_command : Text → CliContext → Exec Text
unfolding handle_stripped
handle_command command context = handle_stripped context (strip command)

-- ===== src/Room/AdminCli/Kept.antt =====
-- What a command of room/admin_cli.py leaves alone, by what the actions of its context do.
use meshelle.Prelude.{All, Bool, List, [], drop, false, none, some, strip, true, ◌∷◌}
use meshelle.Proto.Text.{Text}
use meshelle.Room.Server.{Server}
use meshelle.Room.Exec.{Exec, return, ◌>>◌}
use meshelle.Room.Exec.Kept.{IsPreorder, Keeps, Keeps->>=, Keeps-if, Keeps-return}
use meshelle.Room.AdminCli.{
  CliContext, commands, first_of, handle_command, handle_stripped, post_command, refusal_for,
  run_command, unless_refused,
}

module _ (Kept : Server → Server → Type 0) (order : IsPreorder Kept) (context : CliContext)
    (adverts : (b : Bool) → Keeps Kept order (context.send_advert b))
    (clears : Keeps Kept order context.clear_stats)
    (posts : (text : Text) → Keeps Kept order (context.post_message text)) where
  -- An action, and then a fixed reply.
  replied :
      (action : Exec (Unit {0})) (reply : Text)
      → Keeps Kept order action
      → Keeps Kept order (do action; return reply)
  replied action reply h =
      Keeps->>= Kept order action (λ unit. return reply) h (λ unit. Keeps-return Kept order reply)

  post_command-Keeps : (text : Text) → Keeps Kept order (post_command context text)
  unfolding post_command
  post_command-Keeps [] = λ sv. order.reflexive sv
  post_command-Keeps (k ∷ ks) = replied (context.post_message (k ∷ ks)) _ (posts (k ∷ ks))

  first_of-Keeps :
      (choices : List (Bool × Exec Text)) (otherwise : Exec Text)
      → All (λ choice. Keeps Kept order choice.1) choices
      → Keeps Kept order otherwise
      → Keeps Kept order (first_of choices otherwise)
  unfolding first_of
  first_of-Keeps [] otherwise h k = k
  first_of-Keeps ((test, action) ∷ more) otherwise (h, hs) k =
      Keeps-if Kept order test action (first_of more otherwise) h
        (first_of-Keeps more otherwise hs k)

  run_command-Keeps : (text : Text) → Keeps Kept order (run_command context text)
  unfolding run_command
  run_command-Keeps text =
      first_of-Keeps (commands context text) _
        (
          λ sv. order.reflexive sv,
          (
            λ sv. order.reflexive sv,
            (
              replied (context.send_advert false) _ (adverts false),
              (
                replied (context.send_advert true) _ (adverts true),
                (
                  replied context.clear_stats _ clears,
                  (λ sv. order.reflexive sv, (post_command-Keeps (strip (drop 9 text)), tt)),
                ),
              ),
            ),
          ),
        )
        (λ sv. order.reflexive sv)

  handle_stripped-Keeps : (text : Text) → Keeps Kept order (handle_stripped context text)
  unfolding handle_stripped
  handle_stripped-Keeps [] = λ sv. order.reflexive sv
  handle_stripped-Keeps (k ∷ ks) =
      elim (refusal_for context.room_slug (k ∷ ks))
        as (λ o. Keeps Kept order (unless_refused o (run_command context (k ∷ ks)))) [
          | none ↦ run_command-Keeps (k ∷ ks)
          | some refusal ↦ Keeps-return Kept order refusal
        ]

  pub handle_command-Keeps : (command : Text) → Keeps Kept order (handle_command command context)
  unfolding handle_command
  handle_command-Keeps command = handle_stripped-Keeps (strip command)

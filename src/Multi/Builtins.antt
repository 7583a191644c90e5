-- ===== src/Multi/Builtins.antt =====
-- np_multi_proc.cpp: `handleRwgBuiltin`, the commands who, name, tell and yell.
pub mod Kept
use network_programming.Base.{
  ℕ, Bool, true, false, ◌&&◌, List, [], ◌∷◌, ◌++◌, Option, none, some, Text, codes, text_eq,
  to_string, stoi, ℤ, pos, negsuc, words, if◌then◌else◌,
}
use network_programming.Multi.Messages.{send_message_to_user, broadcast_message}
use network_programming.Multi.Process.{
  Process, running, ◌>>=◌, ◌>>◌, skip, return, from_option, locked, event, wrote,
}
use network_programming.Multi.Shared.{Shared, is_valid_id, who_table, rename}
use network_programming.Rwg.Builtins.{join_message, signed}
use network_programming.ShellCore.State.{end_builtin}

abbrev pub advance_builtin_segment : Process (Unit {0})
advance_builtin_segment world run =
    let (shell, os) = end_builtin run.shell run.os in
    running tt (record run { shell = shell; os = os })

abbrev pub current_name : ℕ → Process Text
current_name me = locked (λ s. ((s.users me).name, s))

unfoldable pub who : ℕ → Process (Unit {0})
unfolding who_table
who me = do output ← locked (λ s. (who_table me s, s)); event (wrote output)

-- `none` is a duplicate.
abbrev pub announce_name : ℕ → Text → Option Text → Process (Unit {0})
announce_name me name none =
    event (wrote (codes "*** User '" ++ name ++ codes "' already exists. ***\n"))
announce_name me name (some ip_port) =
    broadcast_message me
      (codes "*** User from " ++ ip_port ++ codes " is named '" ++ name ++ codes "'. ***\n")

unfoldable pub name_as : ℕ → Text → Process (Unit {0})
unfolding rename
name_as me name = do ip_port ← locked (rename me name); announce_name me name ip_port

-- Whether the user exists, and the sender's name.
unfoldable pub tell_section : ℕ → ℤ → Shared → (Bool × Text) × Shared
tell_section me (pos id) s = ((is_valid_id id && (s.users id).online, (s.users me).name), s)
tell_section me (negsuc id) s = ((false, (s.users me).name), s)

abbrev pub tell_to : ℕ → ℤ → Text → Bool × Text → Process (Unit {0})
tell_to me (pos id) message (true, sender_name) =
    send_message_to_user me id
      (codes "*** " ++ sender_name ++ codes " told you ***: " ++ message ++ codes "\n")
tell_to me id message (_, sender_name) =
    event (wrote (codes "*** Error: user #" ++ signed id ++ codes " does not exist yet. ***\n"))

unfoldable pub tell : ℕ → Text → List Text → Process (Unit {0})
unfolding tell_section
tell me id_text message = do
  id ← from_option (stoi id_text)
  seen ← locked (tell_section me id)
  tell_to me id (join_message message) seen

unfoldable pub yell : ℕ → List Text → Process (Unit {0})
yell me message = do
  name ← current_name me
  broadcast_message me
      (codes "*** " ++ name ++ codes " yelled ***: " ++ join_message message ++ codes "\n")

unfoldable pub name_words : ℕ → List Text → Process (Unit {0})
unfolding name_as
name_words me [] = skip
name_words me (name ∷ rest) = name_as me name

unfoldable pub tell_words : ℕ → List Text → Process (Unit {0})
unfolding tell
tell_words me (id_text ∷ word ∷ rest) = tell me id_text (word ∷ rest)
tell_words me _ = skip

-- A command of the server, with the step to the next segment behind it.
abbrev pub handled : Process (Unit {0}) → Process Bool
handled command = do command; advance_builtin_segment; return true

unfoldable pub builtin : ℕ → List Text → Process Bool
unfolding who name_words tell_words yell
builtin me [] = return true
builtin me (name ∷ arguments) =
    if text_eq name (codes "who")
    then handled (who me)
    else if text_eq name (codes "name")
    then handled (name_words me arguments)
    else if text_eq name (codes "tell")
    then handled (tell_words me arguments)
    else if text_eq name (codes "yell")
    then handled (yell me arguments)
    else return false

unfoldable pub handle_rwg_builtin : ℕ → Text → Process Bool
unfolding builtin
handle_rwg_builtin me line = builtin me (words line)

-- ===== src/Multi/Pipes.antt =====
-- np_multi_proc.cpp: `resolveUserPipes`, over the FIFOs that stand for the pipes between users.
pub mod Kept
pub mod Descriptors
use network_programming.Base.{
  ℕ, Bool, true, false, List, [], ◌∷◌, ◌++◌, Option, none, some, Text, codes, to_string,
  if◌then◌else◌,
}
use network_programming.Multi.Messages.{broadcast_message}
use network_programming.Multi.Process.{
  Process, ◌>>=◌, ◌>>◌, return, locked, event, wrote, unlinked, open_file, close, mkfifo,
}
use network_programming.Multi.Shared.{Shared, Between, take_pipe, give_pipe}
use network_programming.Multi.Users.{fifo_path}
use network_programming.Rwg.Pipes.{UserPipeRequest}

-- `none` is -1.
pub record UserPipeResolution : Type 0 where
  pub input_fd : Option ℕ
  pub output_fd : Option ℕ
  pub hold_fd : Option ℕ
  pub dev_null_in_fd : Option ℕ
  pub dev_null_out_fd : Option ℕ

abbrev pub unresolved : UserPipeResolution
unresolved = record {
  input_fd = none;
  output_fd = none;
  hold_fd = none;
  dev_null_in_fd = none;
  dev_null_out_fd = none;
}

abbrev pub no_user : ℕ → Text
no_user id = codes "*** Error: user #" ++ to_string id ++ codes " does not exist yet. ***\n"

abbrev pub pipe_name : ℕ → ℕ → Text
pipe_name sender receiver =
    codes "*** Error: the pipe #" ++ to_string sender ++ codes "->#" ++ to_string receiver

abbrev pub null_input : UserPipeResolution → Process UserPipeResolution
null_input r = do
  fd ← open_file (codes "/dev/null")
  return (record r { input_fd = fd; dev_null_in_fd = fd })

abbrev pub null_output : UserPipeResolution → Process UserPipeResolution
null_output r = do
  fd ← open_file (codes "/dev/null")
  return (record r { output_fd = fd; dev_null_out_fd = fd })

module _ (me : ℕ) (line : Text) where
  abbrev pub received_message : ℕ → Between → Text
  received_message from seen =
      codes "*** "
      ++ seen.receiver_name
      ++ codes " (#"
      ++ to_string me
      ++ codes ") just received from "
      ++ seen.sender_name
      ++ codes " (#"
      ++ to_string from
      ++ codes ") by '"
      ++ line
      ++ codes "' ***\n"

  abbrev pub piped_message : ℕ → Between → Text
  piped_message to seen =
      codes "*** "
      ++ seen.sender_name
      ++ codes " (#"
      ++ to_string me
      ++ codes ") just piped '"
      ++ line
      ++ codes "' to "
      ++ seen.receiver_name
      ++ codes " (#"
      ++ to_string to
      ++ codes ") ***\n"

  abbrev pub read_fifo : ℕ → Between → UserPipeResolution → Process UserPipeResolution
  read_fifo from seen r = do
    fd ← open_file (fifo_path from me)
    broadcast_message me (received_message from seen)
    event (unlinked (fifo_path from me))
    return (record r { input_fd = fd })

  unfoldable pub after_take : ℕ → Between → UserPipeResolution → Process UserPipeResolution
  after_take from seen r =
      if seen.other_exists
      then (if seen.pipe_exists then read_fifo from seen r else (do
        event (wrote (pipe_name from me ++ codes " does not exist yet. ***\n"))
        null_input r))
      else (do event (wrote (no_user from)); null_input r)

  unfoldable pub resolve_input : Option ℕ → UserPipeResolution → Process UserPipeResolution
  unfolding after_take
  resolve_input none r = return r
  resolve_input (some from) r = do seen ← locked (take_pipe me from); after_take from seen r

  -- What the two calls of `open` gave.
  abbrev pub opened_fifo : Option ℕ → Option ℕ → UserPipeResolution → Process UserPipeResolution
  opened_fifo hold none r = do close hold; null_output r
  opened_fifo hold (some fd) r = return (record r { hold_fd = hold; output_fd = some fd })

  abbrev pub open_fifo : ℕ → Bool → UserPipeResolution → Process UserPipeResolution
  open_fifo to false r = null_output r
  open_fifo to true r = do
    hold ← open_file (fifo_path me to)
    fd ← open_file (fifo_path me to)
    opened_fifo hold fd r

  abbrev pub write_fifo : ℕ → Between → UserPipeResolution → Process UserPipeResolution
  write_fifo to seen r = do
    event (unlinked (fifo_path me to))
    made ← mkfifo (fifo_path me to)
    r' ← open_fifo to made r
    broadcast_message me (piped_message to seen)
    return r'

  unfoldable pub after_give : ℕ → Between → UserPipeResolution → Process UserPipeResolution
  after_give to seen r =
      if seen.other_exists
      then (if seen.pipe_exists
          then (do event (wrote (pipe_name me to ++ codes " already exists. ***\n")); null_output r)
          else write_fifo to seen r)
      else (do event (wrote (no_user to)); null_output r)

  unfoldable pub resolve_output : Option ℕ → UserPipeResolution → Process UserPipeResolution
  unfolding after_give
  resolve_output none r = return r
  resolve_output (some to) r = do seen ← locked (give_pipe me to); after_give to seen r

  unfoldable pub resolve_user_pipes : UserPipeRequest → Process UserPipeResolution
  unfolding resolve_input resolve_output
  resolve_user_pipes request = do
    r ← resolve_input request.input_from unresolved
    resolve_output request.output_to r

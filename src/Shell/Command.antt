-- ===== src/Shell/Command.antt =====
-- shell_core.h: the data of a parsed line.
use network_programming.Base.{ℕ, Bool, true, false, List, [], Text}

pub data NextType : Type 0 where
  none_next ordinary_pipe number_pipe_out number_pipe_both : NextType

pub record Command : Type 0 where
  pub argv : List Text
  pub next_type : NextType
  pub next_count : ℕ
  pub redirect_stdout : Bool
  pub redirect_file : Text

-- Command()
abbrev pub new_command : Command
new_command = record {
  argv = [];
  next_type = none_next;
  next_count = 0;
  redirect_stdout = false;
  redirect_file = [];
}

abbrev pub is_ordinary : NextType → Bool
is_ordinary ordinary_pipe = true
is_ordinary _ = false

unfoldable pub is_number_pipe_type : NextType → Bool
is_number_pipe_type number_pipe_out = true
is_number_pipe_type number_pipe_both = true
is_number_pipe_type _ = false

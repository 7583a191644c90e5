-- ===== src/Rwg/Input.antt =====
-- np_single_proc.cpp: `handleClientInput`, which collects what a client sends and executes the lines
-- in it. `execute` is `executeLine` with what follows it: the prompt, or the client's departure.
pub mod Chunks
use network_programming.Base.{
  ℕ, Bool, true, false, List, [], ◌∷◌, ◌++◌, Text, ◌==◌, if◌then◌else◌, ◌≡◌, arith, refl,
  append_assoc, append-nil, ap, ◌∙◌, sym,
}

-- The complete lines of a buffer, and what is left behind the last line break.
unfoldable pub take_lines : Text → Text → List Text × Text
take_lines line [] = ([], line)
take_lines line (c ∷ s) =
    let (lines, rest) = take_lines [] s in
    let longer = take_lines (line ++ c ∷ []) s in
    if c == b'\n' then (line ∷ lines, rest) else longer

pub record Input (S : Type 0) : Type 0 where
  pub input_buffer : Text
  pub state : S
  pub connected : Bool

-- A client that left is erased, and its buffer with it.
abbrev pub keep : {S : Type 0} → Text → S × Bool → Input S
keep rest (s, true) = record { input_buffer = rest; state = s; connected = true }
keep rest (s, false) = record { input_buffer = []; state = s; connected = false }

module _ {S : Type 0} (execute : Text → S → S × Bool) where
  -- The lines in order, up to one that ends the connection.
  unfoldable pub execute_lines : List Text → S → S × Bool
  execute_lines [] s = (s, true)
  execute_lines (line ∷ lines) s =
      let (t, keep_running) = execute line s in
      let later = execute_lines lines t in if keep_running then later else (t, false)

  abbrev pub received : List Text × Text → S → Input S
  received (lines, rest) s = keep rest (execute_lines lines s)

  unfoldable pub handle_client_input : Text → Input S → Input S
  unfolding execute_lines
  handle_client_input bytes i =
      if i.connected then received (take_lines [] (i.input_buffer ++ bytes)) i.state else i

  -- One read after another.
  abbrev pub handle_inputs : List Text → Input S → Input S
  handle_inputs [] i = i
  handle_inputs (bytes ∷ more) i = handle_inputs more (handle_client_input bytes i)

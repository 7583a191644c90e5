-- ===== src/Rwg/Input/Chunks.antt =====
-- How the bytes of a client are cut into reads does not matter.
use network_programming.Base.{
  Bool, true, false, not, List, [], ◌∷◌, ◌++◌, Text, ◌==◌, if◌then◌else◌, ◌≡◌, arith, refl,
  append_assoc, append-nil, ap, ◌∙◌, sym, free_of, all-append, Bool-cases, inl, inr,
}
use network_programming.Rwg.Input.{
  take_lines, Input, keep, handle_inputs, execute_lines, received, handle_client_input,
}

abbrev pub concat : List Text → Text
concat [] = []
concat (bytes ∷ more) = bytes ++ concat more

take_lines-append :
    (line s t : Text)
    → take_lines line (s ++ t) ≡ (
      (take_lines line s).0 ++ (take_lines (take_lines line s).1 t).0,
      (take_lines (take_lines line s).1 t).1,
    )
unfolding take_lines
take_lines-append line [] t = refl
take_lines-append line (c ∷ s) t =
    ground (arith, take_lines-append [] s t, take_lines-append (line ++ c ∷ []) s t)

rest-free_of :
    (line s : Text) → free_of b'\n' line ≡ true → free_of b'\n' (take_lines line s).1 ≡ true
unfolding take_lines
rest-free_of line [] h = h
rest-free_of line (c ∷ s) h = ground (
  arith,
  rest-free_of [] s refl,
  rest-free_of (line ++ c ∷ []) s,
  all-append (λ b. not (b == b'\n')) line (c ∷ []),
)

take_lines-free_of :
    (line r t : Text) → free_of b'\n' r ≡ true → take_lines line (r ++ t) ≡ take_lines (line ++ r) t
unfolding take_lines
take_lines-free_of line [] t h = ground (arith, append-nil line)
take_lines-free_of line (c ∷ r) t h =
    ground (arith, take_lines-free_of (line ++ c ∷ []) r t, append_assoc line (c ∷ []) r)

module _ {S : Type 0} (execute : Text → S → S × Bool) where
  abbrev continue : List Text → S × Bool → S × Bool
  continue lines (s, true) = execute_lines execute lines s
  continue lines (s, false) = (s, false)

  continue-if :
      (b : Bool) (xs ys : List Text) (s : S)
      → execute_lines execute (xs ++ ys) s ≡ continue ys (execute_lines execute xs s)
      → (if b then execute_lines execute (xs ++ ys) s else (s, false))
        ≡ continue ys (if b then execute_lines execute xs s else (s, false))
  continue-if true xs ys s h = h
  continue-if false xs ys s h = refl

  execute_lines-append :
      (xs ys : List Text) (s : S)
      → execute_lines execute (xs ++ ys) s ≡ continue ys (execute_lines execute xs s)
  unfolding execute_lines
  execute_lines-append [] ys s = refl
  execute_lines-append (x ∷ xs) ys s =
      continue-if (execute x s).1 xs ys (execute x s).0 (execute_lines-append xs ys (execute x s).0)

  next-read :
      (rest bytes : Text) (before : S × Bool)
      → free_of b'\n' rest ≡ true
      → handle_client_input execute bytes (keep rest before)
        ≡ keep (take_lines rest bytes).1 (continue (take_lines rest bytes).0 before)
  unfolding handle_client_input
  next-read rest bytes (s, true) h =
      ap (λ cut. received execute cut s) (take_lines-free_of [] rest bytes h)
  next-read rest bytes (s, false) h = refl

  two_reads :
      (a b buffer : Text) (s : S) (connected : Bool)
      → free_of b'\n' buffer ≡ true
      → let i : Input S = record { input_buffer = buffer; state = s; connected = connected } in
        handle_client_input execute b (handle_client_input execute a i)
        ≡ handle_client_input execute (a ++ b) i
  unfolding handle_client_input
  two_reads a b buffer s false h = refl
  two_reads a b buffer s true h =
      let (lines, rest) = take_lines [] (buffer ++ a) in
      next-read rest b (execute_lines execute lines s) (rest-free_of [] (buffer ++ a) refl)
      ∙ ap (keep (take_lines rest b).1) (sym (execute_lines-append lines (take_lines rest b).0 s))
      ∙ ap (λ cut. received execute cut s)
          (sym (take_lines-append [] (buffer ++ a) b)
            ∙ ap (take_lines []) (append_assoc buffer a b))

  buffer-free_of :
      (a : Text) (i : Input S)
      → free_of b'\n' i.input_buffer ≡ true
      → free_of b'\n' (handle_client_input execute a i).input_buffer ≡ true
  unfolding handle_client_input
  buffer-free_of a i h = elim (Bool-cases i.connected) [
    | inl on ↦ rw (on) (
        kept (take_lines [] (i.input_buffer ++ a)).1 _ (rest-free_of [] (i.input_buffer ++ a) refl))
    | inr off ↦ rw (off) h
  ]
    where
      kept :
          (rest : Text) (p : S × Bool)
          → free_of b'\n' rest ≡ true
          → free_of b'\n' (keep rest p).input_buffer ≡ true
      kept rest (s, true) g = g
      kept rest (s, false) g = refl

  -- Where no line break is waiting in the buffer, reads one after another leave what a single read of
  -- all their bytes leaves: the same lines are executed, and the same connection and buffer are left.
  pub handle_inputs-concat :
      (bytes : Text) (more : List Text) (i : Input S)
      → free_of b'\n' i.input_buffer ≡ true
      → handle_inputs execute (bytes ∷ more) i
        ≡ handle_client_input execute (concat (bytes ∷ more)) i
  handle_inputs-concat bytes [] i h =
      ap (λ all_bytes. handle_client_input execute all_bytes i) (sym (append-nil bytes))
  handle_inputs-concat bytes (next ∷ more) i h =
      handle_inputs-concat next more (handle_client_input execute bytes i)
        (buffer-free_of bytes i h)
      ∙ two_reads bytes (concat (next ∷ more)) i.input_buffer i.state i.connected h

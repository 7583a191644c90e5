-- ===== src/Multi/Pipes/Descriptors.antt =====
-- np_multi_proc.cpp: the descriptors of a process across resolveUserPipes.
use network_programming.Base.{
  ℕ, ◌+◌, Bool, true, false, List, [], ◌∷◌, Option, none, some, Text, codes, ltb, ◌==◌, ◌≡◌, arith,
  refl,
}
use network_programming.Multi.Messages.{
  signal, send_message_to_user, send_to_all, broadcast_message,
}
use network_programming.Multi.Pipes.{
  UserPipeResolution, unresolved, null_input, null_output, after_take, resolve_input, opened_fifo,
  open_fifo, after_give, resolve_output, resolve_user_pipes,
}
use network_programming.Multi.Process.{Process, Run, World, wrote, signalled, return, ◌>>◌}
use network_programming.Multi.Process.Owns.{
  Owns, Owns-account, Runs, bind-Runs, then-Runs, either-Runs, return-Runs, skip-Owns, event-Owns,
  locked-Owns, mkfifo-Owns, close-Owns, open_file-Owns,
}
use network_programming.Multi.Shared.{Between, take_pipe, give_pipe}
use network_programming.Rwg.Pipes.{UserPipeRequest}
use network_programming.ShellCore.Os.Balance.{one, IsPosix}

-- What opens and closes nothing.
abbrev Stays : World → (ℕ → ℕ) → {A : Type 0} → Process A → Type 0
Stays world f part = Runs world (Owns f) (λ _. Owns f) part

module _ {world : World} {f : ℕ → ℕ} where
  signal-Stays : (target : Option ℕ) → Stays world f (signal target)
  signal-Stays none = skip-Owns
  signal-Stays (some pid) = either-Runs (ltb 0 pid) (event-Owns (signalled pid)) skip-Owns

  send_to_all-Stays :
      (me : ℕ) (ids : List ℕ) (message : Text) → Stays world f (send_to_all me ids message)
  unfolding send_to_all send_message_to_user
  send_to_all-Stays me [] message = skip-Owns
  send_to_all-Stays me (id ∷ ids) message =
      then-Runs
        (either-Runs (id == me) (event-Owns (wrote message))
          (bind-Runs (locked-Owns _) signal-Stays))
        (send_to_all-Stays me ids message)

  broadcast_message-Stays : (me : ℕ) (message : Text) → Stays world f (broadcast_message me message)
  unfolding broadcast_message
  broadcast_message-Stays me message =
      bind-Runs (locked-Owns _) (λ ids. send_to_all-Stays me ids message)

-- Behind the pipe from a user: its end or the null device is open, if the line has such a pipe.
record HasInput (f : ℕ → ℕ) (from : Option ℕ) (r : UserPipeResolution) (run : Run) : Type 0 where
  pub owns : Owns (λ x. f x + one x r.input_fd) run
  pub no_output : r.output_fd ≡ none
  pub no_hold : r.hold_fd ≡ none
  pub no_input : from ≡ none → r.input_fd ≡ none

-- Behind both pipes of a line.
pub record IsResolved (f : ℕ → ℕ) (request : UserPipeRequest) (r : UserPipeResolution) (run : Run)
    : Type 0 where
  pub owns : Owns (λ x. f x + one x r.input_fd + one x r.output_fd + one x r.hold_fd) run
  pub no_input : request.input_from ≡ none → r.input_fd ≡ none
  pub no_hold : request.output_to ≡ none → r.hold_fd ≡ none

-- A part that opens the pipe to user `to` behind an input.
abbrev Resolves :
    World → (ℕ → ℕ) → Option ℕ → ℕ → UserPipeResolution → Process UserPipeResolution → Type 0
Resolves world f from to r part =
    Runs world (Owns (λ x. f x + one x r.input_fd))
      (IsResolved f (record { input_from = from; output_to = some to })) part

module _ {world : World} (posix : IsPosix world.system) (me : ℕ) (line : Text) (f : ℕ → ℕ) where
  null_input-HasInput :
      (from : ℕ) → Runs world (Owns f) (HasInput f (some from)) (null_input unresolved)
  null_input-HasInput from = bind-Runs (open_file-Owns posix (codes "/dev/null")) (λ fd.
      return-Runs _
        (λ run b. record { owns = b; no_output = refl; no_hold = refl; no_input = λ e. cc }))

  after_take-HasInput :
      (from : ℕ) (seen : Between)
      → Runs world (Owns f) (HasInput f (some from)) (after_take me line from seen unresolved)
  unfolding after_take
  after_take-HasInput from seen =
      either-Runs seen.other_exists
        (either-Runs seen.pipe_exists
          (bind-Runs (open_file-Owns posix _) (λ fd. then-Runs (broadcast_message-Stays me _) (
            then-Runs (event-Owns _) (
              return-Runs _ (λ run b. record {
                owns = b;
                no_output = refl;
                no_hold = refl;
                no_input = λ e. cc;
              })))))
          (then-Runs (event-Owns _) (null_input-HasInput from)))
        (then-Runs (event-Owns _) (null_input-HasInput from))

  resolve_input-HasInput :
      (from : Option ℕ)
      → Runs world (Owns f) (HasInput f from) (resolve_input me line from unresolved)
  unfolding resolve_input
  resolve_input-HasInput none = return-Runs _ (λ run b. record {
    owns = Owns-account _ run (λ x. omega arith) b;
    no_output = refl;
    no_hold = refl;
    no_input = λ e. refl;
  })
  resolve_input-HasInput (some from) =
      bind-Runs (locked-Owns (take_pipe me from)) (after_take-HasInput from)

  module _ (from : Option ℕ) (to : ℕ) (r : UserPipeResolution) (no_hold : r.hold_fd ≡ none)
      (no_input : from ≡ none → r.input_fd ≡ none) where
    null_output-Resolves : Resolves world f from to r (null_output r)
    null_output-Resolves = bind-Runs (open_file-Owns posix (codes "/dev/null")) (λ fd.
        return-Runs _ (λ run b. record {
          owns = Owns-account _ run (λ x. rw (no_hold) (omega arith)) b;
          no_input = no_input;
          no_hold = λ e. cc;
        }))

    opened_fifo-Resolves :
        (hold fd : Option ℕ)
        → Runs world
            (Owns (λ x. f x + one x r.input_fd + one x hold + one x fd))
            (IsResolved f (record { input_from = from; output_to = some to }))
            (opened_fifo me line hold fd r)
    opened_fifo-Resolves hold none =
        then-Runs (close-Owns (λ x. f x + one x r.input_fd) hold (λ x. omega arith))
          null_output-Resolves
    opened_fifo-Resolves hold (some fd) = return-Runs _ (λ run b. record {
      owns = Owns-account _ run (λ x. omega arith) b;
      no_input = no_input;
      no_hold = λ e. cc;
    })

    open_fifo-Resolves : (made : Bool) → Resolves world f from to r (open_fifo me line to made r)
    open_fifo-Resolves false = null_output-Resolves
    open_fifo-Resolves true =
        bind-Runs (open_file-Owns posix _)
          (λ hold. bind-Runs (open_file-Owns posix _) (λ fd. opened_fifo-Resolves hold fd))

    announced :
        (message : Text) (request : UserPipeRequest) (r' : UserPipeResolution)
        → Runs world
            (IsResolved f request r')
            (IsResolved f request)
            (broadcast_message me message >> return r')
    announced message request r' = record {
      ends = λ run h.
          (then-Runs (broadcast_message-Stays me message) (
              return-Runs r'
                (λ run' b. record { owns = b; no_input = h.no_input; no_hold = h.no_hold }))).ends
            run h.owns;
    }

    after_give-Resolves :
        (seen : Between) → Resolves world f from to r (after_give me line to seen r)
    unfolding after_give
    after_give-Resolves seen =
        either-Runs seen.other_exists
          (either-Runs seen.pipe_exists (then-Runs (event-Owns _) null_output-Resolves) (
            then-Runs (event-Owns _) (
              bind-Runs (mkfifo-Owns _)
                (λ made. bind-Runs (open_fifo-Resolves made) (announced _ _)))))
          (then-Runs (event-Owns _) null_output-Resolves)

  resolve_output-IsResolved :
      (from to : Option ℕ) (r : UserPipeResolution)
      → Runs world
          (HasInput f from r)
          (IsResolved f (record { input_from = from; output_to = to }))
          (resolve_output me line to r)
  unfolding resolve_output
  resolve_output-IsResolved from none r = return-Runs r (λ run h. record {
    owns = Owns-account _ run (λ x. rw (h.no_output, h.no_hold) (omega arith)) h.owns;
    no_input = h.no_input;
    no_hold = λ e. h.no_hold;
  })
  resolve_output-IsResolved from (some to) r = record {
    ends = λ run h.
        (bind-Runs (locked-Owns (give_pipe me to))
            (after_give-Resolves from to r h.no_hold h.no_input)).ends
          run h.owns;
  }

  pub resolve_user_pipes-IsResolved :
      (request : UserPipeRequest)
      → Runs world (Owns f) (IsResolved f request) (resolve_user_pipes me line request)
  unfolding resolve_user_pipes
  resolve_user_pipes-IsResolved request =
      bind-Runs (resolve_input-HasInput request.input_from)
        (resolve_output-IsResolved request.input_from request.output_to)

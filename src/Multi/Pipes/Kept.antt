-- ===== src/Multi/Pipes/Kept.antt =====
-- np_multi_proc.cpp: the shared memory across resolveUserPipes.
use network_programming.Base.{ℕ, Bool, true, false, Option, none, some, Text, codes, ap, ◌∙◌}
use network_programming.Multi.Builtins.Kept.{IsHere, IsFair, IsHere-IsKept, Serves}
use network_programming.Multi.Messages.Kept.{broadcast_message-Keeps}
use network_programming.Multi.Pipes.{
  UserPipeResolution, unresolved, null_input, null_output, after_take, resolve_input, opened_fifo,
  open_fifo, after_give, resolve_output, resolve_user_pipes,
}
use network_programming.Multi.Process.{World, open_file, close}
use network_programming.Multi.Process.Kept.{
  IsKept, bind, then_do, either, event-Keeps, return-Keeps, with_os-Keeps, mkfifo-Keeps,
  section-Keeps,
}
use network_programming.Multi.Section.Box.{Box}
use network_programming.Multi.Section.Box.Laws.{take_pipe-box, give_pipe-box}
use network_programming.Multi.Section.Invariant.{take_pipe-IsShared, give_pipe-IsShared}
use network_programming.Multi.Shared.{Shared, Between, take_pipe, give_pipe}
use network_programming.Rwg.Pipes.{UserPipeRequest}

take_pipe-IsHere : (me from : ℕ) (s : Shared) → IsHere me s → IsHere me (take_pipe me from s).1
take_pipe-IsHere me from s h = record {
  in_order = take_pipe-IsShared me from s h.in_order;
  online = ap (λ (b : Box). b.is_open) (take_pipe-box me from me s) ∙ h.online;
}

give_pipe-IsHere : (me to : ℕ) (s : Shared) → IsHere me s → IsHere me (give_pipe me to s).1
give_pipe-IsHere me to s h = record {
  in_order = give_pipe-IsShared me to s h.online h.in_order;
  online = ap (λ (b : Box). b.is_open) (give_pipe-box me to me s) ∙ h.online;
}

module _ (me : ℕ) {world : World} (fair : IsFair me world) (line : Text) where
  good : IsKept world (IsHere me)
  good = IsHere-IsKept me world fair

  open_file-Serves : (path : Text) → Serves me world (open_file path)
  unfolding open_file
  open_file-Serves path = with_os-Keeps _

  pub close-Serves : (fd : Option ℕ) → Serves me world (close fd)
  unfolding close
  close-Serves fd = with_os-Keeps _

  null_input-Serves : (r : UserPipeResolution) → Serves me world (null_input r)
  null_input-Serves r = bind (open_file-Serves (codes "/dev/null")) (λ fd. return-Keeps _)

  null_output-Serves : (r : UserPipeResolution) → Serves me world (null_output r)
  null_output-Serves r = bind (open_file-Serves (codes "/dev/null")) (λ fd. return-Keeps _)

  after_take-Serves :
      (from : ℕ) (seen : Between) (r : UserPipeResolution)
      → Serves me world (after_take me line from seen r)
  unfolding after_take
  after_take-Serves from seen r =
      either seen.other_exists
        (either seen.pipe_exists
          (bind (open_file-Serves _) (λ fd.
            then_do (broadcast_message-Keeps good me _) (then_do (event-Keeps _) (return-Keeps _))))
          (then_do (event-Keeps _) (null_input-Serves r)))
        (then_do (event-Keeps _) (null_input-Serves r))

  resolve_input-Serves :
      (from : Option ℕ) (r : UserPipeResolution) → Serves me world (resolve_input me line from r)
  unfolding resolve_input
  resolve_input-Serves none r = return-Keeps r
  resolve_input-Serves (some from) r =
      bind (section-Keeps (take_pipe me from) good good.sound (take_pipe-IsHere me from))
        (λ seen. after_take-Serves from seen r)

  opened_fifo-Serves :
      (hold fd : Option ℕ) (r : UserPipeResolution)
      → Serves me world (opened_fifo me line hold fd r)
  opened_fifo-Serves hold none r = then_do (close-Serves hold) (null_output-Serves r)
  opened_fifo-Serves hold (some fd) r = return-Keeps _

  open_fifo-Serves :
      (to : ℕ) (made : Bool) (r : UserPipeResolution)
      → Serves me world (open_fifo me line to made r)
  open_fifo-Serves to false r = null_output-Serves r
  open_fifo-Serves to true r =
      bind (open_file-Serves _)
        (λ hold. bind (open_file-Serves _) (λ fd. opened_fifo-Serves hold fd r))

  after_give-Serves :
      (to : ℕ) (seen : Between) (r : UserPipeResolution)
      → Serves me world (after_give me line to seen r)
  unfolding after_give
  after_give-Serves to seen r =
      either seen.other_exists
        (either seen.pipe_exists (then_do (event-Keeps _) (null_output-Serves r)) (
          then_do (event-Keeps _) (
            bind (mkfifo-Keeps _) (λ made.
              bind (open_fifo-Serves to made r)
                (λ r'. then_do (broadcast_message-Keeps good me _) (return-Keeps r'))))))
        (then_do (event-Keeps _) (null_output-Serves r))

  resolve_output-Serves :
      (to : Option ℕ) (r : UserPipeResolution) → Serves me world (resolve_output me line to r)
  unfolding resolve_output
  resolve_output-Serves none r = return-Keeps r
  resolve_output-Serves (some to) r =
      bind (section-Keeps (give_pipe me to) good good.sound (give_pipe-IsHere me to))
        (λ seen. after_give-Serves to seen r)

  pub resolve_user_pipes-Serves :
      (request : UserPipeRequest) → Serves me world (resolve_user_pipes me line request)
  unfolding resolve_user_pipes
  resolve_user_pipes-Serves request =
      bind (resolve_input-Serves request.input_from unresolved)
        (resolve_output-Serves request.output_to)

-- ===== src/Multi/Builtins/Kept.antt =====
-- np_multi_proc.cpp: the shared memory across handleRwgBuiltin.
use network_programming.Base.{
  ℕ, Bool, true, false, List, [], ◌∷◌, Option, none, some, Text, stoi, ℤ, pos, negsuc, words, ◌≡◌,
  refl, ap, ◌∙◌, ◌==◌, if◌then◌else◌, arith, subst, sym,
}
use network_programming.Multi.Builtins.{
  who, announce_name, name_as, tell_section, tell_to, tell, yell, name_words, tell_words, handled,
  builtin, handle_rwg_builtin,
}
use network_programming.Multi.Messages.Kept.{send_message_to_user-Keeps, broadcast_message-Keeps}
use network_programming.Multi.Process.{World, Process, wrote}
use network_programming.Multi.Process.Kept.{
  IsKept, Keeps, bind, then_do, either, skip-Keeps, event-Keeps, return-Keeps, from_option-Keeps,
  section-Keeps, reading-Keeps,
}
use network_programming.Multi.Section.Box.{Box, next_box, posted, nothing, box_of}
use network_programming.Multi.Section.Box.Laws.{enqueue-box, rename-box}
use network_programming.Multi.Section.Invariant.{IsShared, enqueue-IsShared, rename-IsShared}
use network_programming.Multi.Shared.{Shared, enqueue, rename, who_table}
use network_programming.Rwg.Builtins.{join_message}

-- The shared memory is in order, and the process's user is online.
pub record IsHere (me : ℕ) (s : Shared) : Type 0 where
  pub in_order : IsShared s
  pub online : (s.users me).online ≡ true

-- The other processes keep it so.
pub record IsFair (me : ℕ) (world : World) : Type 0 where
  pub others : (k : ℕ) (s : Shared) → IsHere me s → IsHere me (world.others k s)

posted-is_open :
    (b : Bool) (message : Text) (box : Box)
    → (next_box (if b then posted message else nothing) box).is_open ≡ box.is_open
posted-is_open true message box = ground arith
posted-is_open false message box = refl

pub enqueue-IsHere :
    (me target : ℕ) (message : Text) (s : Shared)
    → IsHere me s
    → IsHere me (enqueue target message s).1
enqueue-IsHere me target message s h = record {
  in_order = enqueue-IsShared target message s h.in_order;
  online =
      ap (λ (b : Box). b.is_open) (enqueue-box target me message s)
      ∙ (posted-is_open (target == me) message (box_of me s) ∙ h.online);
}

pub IsHere-IsKept : (me : ℕ) (world : World) → IsFair me world → IsKept world (IsHere me)
IsHere-IsKept me world fair = record {
  sound = λ s h. h.in_order;
  others = fair.others;
  posting = enqueue-IsHere me;
}

rename-IsHere : (me : ℕ) (name : Text) (s : Shared) → IsHere me s → IsHere me (rename me name s).1
rename-IsHere me name s h = record {
  in_order = rename-IsShared me name s h.in_order;
  online = ap (λ (b : Box). b.is_open) (rename-box me me name s) ∙ h.online;
}

-- What keeps the shared memory in order and the user online.
abbrev pub Serves : ℕ → World → {A : Type 0} → Process A → Type 0
Serves me world part = Keeps world (IsHere me) (IsHere me) part

module _ (me : ℕ) {world : World} (fair : IsFair me world) where
  good : IsKept world (IsHere me)
  good = IsHere-IsKept me world fair

  who-Serves : Serves me world (who me)
  unfolding who
  who-Serves = bind (reading-Keeps (who_table me) good) (λ output. event-Keeps (wrote output))

  announce_name-Serves :
      (name : Text) (ip_port : Option Text) → Serves me world (announce_name me name ip_port)
  announce_name-Serves name none = event-Keeps _
  announce_name-Serves name (some ip_port) = broadcast_message-Keeps good me _

  name_words-Serves : (arguments : List Text) → Serves me world (name_words me arguments)
  unfolding name_words name_as
  name_words-Serves [] = skip-Keeps
  name_words-Serves (name ∷ rest) =
      bind (section-Keeps (rename me name) good good.sound (rename-IsHere me name))
        (announce_name-Serves name)

  tell_section-state : (id : ℤ) (s : Shared) → (tell_section me id s).1 ≡ s
  unfolding tell_section
  tell_section-state (pos id) s = refl
  tell_section-state (negsuc id) s = refl

  tell_to-Serves :
      (id : ℤ) (message : Text) (seen : Bool × Text) → Serves me world (tell_to me id message seen)
  tell_to-Serves (pos id) message (true, name) = send_message_to_user-Keeps good me id _
  tell_to-Serves (pos id) message (false, name) = event-Keeps _
  tell_to-Serves (negsuc id) message (there, name) = event-Keeps _

  tell_words-Serves : (arguments : List Text) → Serves me world (tell_words me arguments)
  unfolding tell_words tell
  tell_words-Serves [] = skip-Keeps
  tell_words-Serves (id_text ∷ []) = skip-Keeps
  tell_words-Serves (id_text ∷ word ∷ rest) = bind (from_option-Keeps (stoi id_text)) (λ id.
      bind
        (section-Keeps (tell_section me id) good good.sound
          (λ s h. subst (IsHere me) (sym (tell_section-state id s)) h))
        (tell_to-Serves id (join_message (word ∷ rest))))

  yell-Serves : (message : List Text) → Serves me world (yell me message)
  unfolding yell
  yell-Serves message =
      bind (reading-Keeps (λ s. (s.users me).name) good) (λ name. broadcast_message-Keeps good me _)

  handled-Serves :
      (command : Process (Unit {0})) → Serves me world command → Serves me world (handled command)
  handled-Serves command serves = then_do serves (
      then_do (record { kept = λ run ready. record { left = ready.left; shared = ready.shared } })
        (return-Keeps true))

  pub handle_rwg_builtin-Serves : (line : Text) → Serves me world (handle_rwg_builtin me line)
  unfolding handle_rwg_builtin builtin
  handle_rwg_builtin-Serves line = go (words line)
    where
      go : (ws : List Text) → Serves me world (builtin me ws)
      go [] = return-Keeps true
      go (name ∷ arguments) = either _ (handled-Serves _ who-Serves) (
          either _ (handled-Serves _ (name_words-Serves arguments)) (
            either _ (handled-Serves _ (tell_words-Serves arguments))
              (either _ (handled-Serves _ (yell-Serves arguments)) (return-Keeps false))))

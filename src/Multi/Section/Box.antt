-- ===== src/Multi/Section/Box.antt =====
-- np_multi_proc.cpp: what the message array of a user is for, a box that holds 64 messages.
pub mod Laws
pub mod Delivery
use network_programming.Base.{
  ℕ, zero, suc, ◌+◌, ◌≤◌, ◌<◌, Bool, true, false, not, ◌&&◌, List, [], ◌∷◌, ◌++◌, Option, none,
  some, Text, ltb, leb, ◌==◌, ==_iff, subst, if◌then◌else◌, length, map, ◌≡◌, refl, arith,
  Bool-cases, inl, inr, append-nil, append_assoc,
}
use network_programming.Multi.Section.{
  Section, assigning, clearing, posting, flushing, naming, taking, giving, execute, execute_all,
  written_in, delivered,
}
use network_programming.Multi.Shared.{
  Shared, SharedUser, copy_string, message_size, max_messages, is_valid_id, queued, named, set_user,
  set_pipe, flush, enqueue, rename, take_pipe, give_pipe,
}
use network_programming.Multi.Users.{
  assigned, assign_at, assign_user, clear_user, drop_pipe, drop_pipes, first_offline,
}
use network_programming.Rwg.Clients.{max_users}
use network_programming.Rwg.Server.{Peer}

-- What a section is to the box of one user.
pub data Turn : Type 0 where
  opened : Turn
  closed : Turn
  posted : Text → Turn
  emptied : Turn
  nothing : Turn

-- A box takes a message if it is open and holds fewer than `max_messages`.
pub record Box : Type 0 where
  pub is_open : Bool
  pub messages : List Text

abbrev pub next_box : Turn → Box → Box
next_box opened box = record { is_open = true; messages = [] }
next_box closed box = record {
  is_open = false;
  messages = if box.is_open then [] else box.messages;
}
next_box (posted message) box =
    if box.is_open && ltb (length box.messages) max_messages
    then record box { messages = box.messages ++ copy_string message_size message ∷ [] }
    else box
next_box emptied box = record box { messages = [] }
next_box nothing box = box

abbrev pub taken : Turn → Box → List Text
taken emptied box = box.messages
taken turn box = []

unfoldable pub take_all : List Turn → Box → List Text
take_all [] box = []
take_all (turn ∷ turns) box = taken turn box ++ take_all turns (next_box turn box)

unfoldable pub last_box : List Turn → Box → Box
last_box [] box = box
last_box (turn ∷ turns) box = last_box turns (next_box turn box)

abbrev pub is_given : ℕ → Option ℕ → Bool
is_given id none = false
is_given id (some given) = given == id

-- The turn of user `id` in a section: `assign_user` says which user it has opened.
abbrev pub turn : ℕ → Section → Shared → Turn
turn id (assigning pid peer) s = if is_given id (assign_user pid peer s).0 then opened else nothing
turn id (clearing user) s = if user == id && is_valid_id id then closed else nothing
turn id (posting target message) s = if target == id then posted message else nothing
turn id (flushing me) s = if me == id then emptied else nothing
turn id section s = nothing

unfoldable pub turns : ℕ → List Section → Shared → List Turn
turns id [] s = []
turns id (section ∷ sections) s = turn id section s ∷ turns id sections (execute section s)

abbrev pub box_of : ℕ → Shared → Box
box_of id s = record { is_open = (s.users id).online; messages = (s.users id).messages }

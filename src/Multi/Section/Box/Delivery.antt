-- ===== src/Multi/Section/Box/Delivery.antt =====
-- np_multi_proc.cpp: the messages to one user, from sendMessageToUser to flushPendingMessages.
use network_programming.Base.{
  ℕ, zero, suc, ◌+◌, ◌<◌, Bool, true, false, not, ◌&&◌, List, [], ◌∷◌, ◌++◌, Text, ltb, ◌==◌,
  length, all, take, ◌≡◌, refl, arith, append-nil, append_assoc, length-append, ap, sym,
}
use network_programming.Multi.Section.{Section, execute_all, delivered}
use network_programming.Multi.Section.Box.{
  Turn, opened, closed, posted, emptied, nothing, Box, next_box, take_all, last_box, turns, box_of,
}
use network_programming.Multi.Section.Box.Laws.{execute_all-box}
use network_programming.Multi.Shared.{Shared, c_string, copy_string, message_size}

-- The user stays, and with `n` messages waiting at first there are never more than 64.
unfoldable pub fits : ℕ → List Turn → Bool
fits n [] = true
fits n (posted message ∷ turns) = ltb n 64 && fits (n + 1) turns
fits n (emptied ∷ turns) = fits 0 turns
fits n (nothing ∷ turns) = fits n turns
fits n (turn ∷ turns) = false

-- The messages that are sent to the user, in order.
unfoldable pub posts : List Turn → List Text
posts [] = []
posts (posted message ∷ turns) = message ∷ posts turns
posts (turn ∷ turns) = posts turns

-- A text without a zero byte that leaves room for one behind it.
abbrev pub is_message : Text → Bool
is_message message = all (λ c. not (c == 0)) message && ltb (length message) message_size

c_string-same : (s : Text) → all (λ c. not (c == 0)) s ≡ true → c_string s ≡ s
c_string-same [] h = refl
c_string-same (c ∷ s) h = ground (arith, c_string-same s)

take-all : (n : ℕ) (s : Text) → length s < n + 1 → take n s ≡ s
take-all zero [] h = refl
take-all zero (c ∷ s) h = absurd (omega arith)
take-all (suc n) [] h = refl
take-all (suc n) (c ∷ s) h = ap (◌∷◌ c) (take-all n s (omega arith))

pub copy_string-same : (s : Text) → is_message s ≡ true → copy_string message_size s ≡ s
unfolding copy_string
copy_string-same s h = rw (c_string-same s (ground arith)) (take-all 2047 s (ground arith))

abbrev pub holding : List Text → Box
holding messages = record { is_open = true; messages = messages }

take_all-posts :
    (ts : List Turn) (messages : List Text)
    → fits (length messages) ts ≡ true
    → all is_message (posts ts) ≡ true
    → take_all ts (holding messages) ++ (last_box ts (holding messages)).messages
      ≡ messages ++ posts ts
unfolding take_all last_box fits posts
take_all-posts [] messages fit whole = sym (append-nil messages)
take_all-posts (posted message ∷ ts) messages fit whole =
    let more = messages ++ message ∷ [] in
    let room : ltb (length messages) 64 ≡ true = ground arith in
    let count : length more ≡ length messages + 1 =
      omega (arith, length-append messages (message ∷ [])) in
    let later = take_all-posts ts more (rw (count) (ground arith)) (ground arith) in
    let grown : next_box (posted message) (holding messages) ≡ holding more =
      rw (room, copy_string-same message (ground arith)) refl in
    rw (take_all, last_box, grown, later) (append_assoc messages (message ∷ []) (posts ts))
take_all-posts (emptied ∷ ts) messages fit whole =
    rw
      (
        append_assoc messages (take_all ts (holding [])) (last_box ts (holding [])).messages,
        take_all-posts ts [] fit whole,
      )
      refl
take_all-posts (nothing ∷ ts) messages fit whole = take_all-posts ts messages fit whole
take_all-posts (opened ∷ ts) messages fit whole = absurd (ground arith)
take_all-posts (closed ∷ ts) messages fit whole = absurd (ground arith)

-- Whatever sections of any processes follow one another: if a user is online and stays, no message is
-- waiting for it at first and never more than 64 are, and the messages sent to it have no zero byte and
-- at most 2047 bytes, then what its handler has written, and behind it what is waiting at the end, are
-- exactly the messages sent to it, whole and in order.
pub delivered-posts :
    (id : ℕ) (sections : List Section) (s : Shared)
    → box_of id s ≡ holding []
    → fits 0 (turns id sections s) ≡ true
    → all is_message (posts (turns id sections s)) ≡ true
    → delivered id sections s ++ ((execute_all sections s).users id).messages
      ≡ posts (turns id sections s)
delivered-posts id sections s empty fit whole =
    let (writes, leaves) = execute_all-box id sections s in
    rw (writes, ap (λ (b : Box). b.messages) leaves, empty)
      (take_all-posts (turns id sections s) [] fit whole)

-- ===== src/Console/Cgi/Order.antt =====
-- One browser connection over any sequence of calls and completions.
use network_programming.Base.{
  ℕ, Bool, true, false, not, ◌||◌, ◌&&◌, List, [], ◌∷◌, ◌++◌, Text, take, is_empty, if◌then◌else◌,
  ◌≡◌, refl, arith, append-nil, append_assoc, ◌⊎◌,
}
use network_programming.Console.Cgi.{
  Connection, Action, write, close, Step, new_connection, enqueue, close_when_drained, remote_done,
  written, expect_remotes,
}

-- What happens to the connection. A write completes only while one is under way, and none follows a
-- failed one, whose connection is closed.
pub data Call : Type 0 where
  enqueues : Text → Call
  expects : ℕ → Call
  closes : Call
  finishes : Call
  completes fails : Call

-- The connection with its history: the texts handed to it, those whose write was started and those
-- whose write was completed, whether it was closed, and whether a write failed.
pub record World : Type 0 where
  pub connection : Connection
  pub accepted : List Text
  pub issued : List Text
  pub delivered : List Text
  pub closed : Bool
  pub broken : Bool

abbrev pub writes_of : List Action → List Text
writes_of [] = []
writes_of (write t ∷ acts) = t ∷ writes_of acts
writes_of (close ∷ acts) = writes_of acts

abbrev pub closes_in : List Action → Bool
closes_in [] = false
closes_in (write t ∷ acts) = closes_in acts
closes_in (close ∷ acts) = true

abbrev record_step : World → Step → World
record_step w (c, acts) = record w {
  connection = c;
  issued = w.issued ++ writes_of acts;
  closed = w.closed || closes_in acts;
}

abbrev can_complete : World → Bool
can_complete w = not w.broken && not (is_empty w.connection.pending)

unfoldable pub call : World → Call → World
call w (enqueues t) =
    record_step (record w { accepted = w.accepted ++ t ∷ [] }) (enqueue w.connection t)
call w (expects n) = record_step w (expect_remotes w.connection n)
call w closes = record_step w (close_when_drained w.connection)
call w finishes = record_step w (remote_done w.connection)
call w completes =
    if can_complete w
    then record_step (record w { delivered = w.delivered ++ take 1 w.connection.pending })
        (written w.connection true)
    else w
call w fails =
    if can_complete w
    then record_step (record w { broken = true }) (written w.connection false)
    else w

unfoldable pub calls : World → List Call → World
calls w [] = w
calls w (c ∷ cs) = calls (call w c) cs

abbrev pub start : World
start = record {
  connection = new_connection;
  accepted = [];
  issued = [];
  delivered = [];
  closed = false;
  broken = false;
}

pub record Inv (w : World) : Type 0 where
  -- Nothing is lost, repeated or reordered.
  pub in_order : w.delivered ++ w.connection.pending ≡ w.accepted
  -- One write at a time is under way, that of the oldest text not yet delivered.
  pub one_at_a_time : w.issued ≡ w.delivered ++ take 1 w.connection.pending
  -- It is not closed before it is asked to, or a write has failed.
  pub not_early : w.closed ≡ true → (w.connection.closing ≡ true) ⊎ (w.broken ≡ true)
  -- Drained and asked to close, it is closed.
  pub not_left_open : w.connection.closing ≡ true → w.connection.pending ≡ [] → w.closed ≡ true

-- The calls, on a queue that is given by its elements.
abbrev with_pending : World → List Text → World
with_pending w p = record w { connection = record w.connection { pending = p } }

enqueues-Inv :
    (w : World) (p : List Text) (t : Text)
    → Inv (with_pending w p)
    → Inv (call (with_pending w p) (enqueues t))
unfolding call enqueue
enqueues-Inv w [] t v =
    ground
      (arith, v.in_order, v.one_at_a_time, v.not_early, v.not_left_open, append-nil w.delivered)
enqueues-Inv w (x ∷ p) t v = ground (
  arith,
  v.in_order,
  v.one_at_a_time,
  v.not_early,
  append-nil w.issued,
  append_assoc w.delivered (x ∷ p) (t ∷ []),
)

expects-Inv :
    (w : World) (p : List Text) (n : ℕ)
    → Inv (with_pending w p)
    → Inv (call (with_pending w p) (expects n))
unfolding call expect_remotes
expects-Inv w [] n v =
    ground (arith, v.in_order, v.one_at_a_time, v.not_early, v.not_left_open, append-nil w.issued)
expects-Inv w (x ∷ p) n v =
    ground (arith, v.in_order, v.one_at_a_time, v.not_early, append-nil w.issued)

closes-Inv :
    (w : World) (p : List Text) → Inv (with_pending w p) → Inv (call (with_pending w p) closes)
unfolding call close_when_drained
closes-Inv w [] v = ground (arith, v.in_order, v.one_at_a_time, append-nil w.issued)
closes-Inv w (x ∷ p) v =
    ground (arith, v.in_order, v.one_at_a_time, v.not_early, append-nil w.issued)

finishes-Inv :
    (w : World) (p : List Text) → Inv (with_pending w p) → Inv (call (with_pending w p) finishes)
unfolding call remote_done
finishes-Inv w [] v =
    ground (arith, v.in_order, v.one_at_a_time, v.not_early, v.not_left_open, append-nil w.issued)
finishes-Inv w (x ∷ p) v =
    ground (arith, v.in_order, v.one_at_a_time, v.not_early, append-nil w.issued)

completes-Inv :
    (w : World) (p : List Text) → Inv (with_pending w p) → Inv (call (with_pending w p) completes)
unfolding call written
completes-Inv w [] v = ground (arith, v.in_order, v.one_at_a_time, v.not_early, v.not_left_open)
completes-Inv w (x ∷ []) v = ground (
  arith,
  v.in_order,
  v.one_at_a_time,
  v.not_early,
  v.not_left_open,
  append-nil (w.delivered ++ x ∷ []),
  append-nil w.issued,
)
completes-Inv w (x ∷ y ∷ p) v =
    ground
      (arith, v.in_order, v.one_at_a_time, v.not_early, append_assoc w.delivered (x ∷ []) (y ∷ p))

fails-Inv :
    (w : World) (p : List Text) → Inv (with_pending w p) → Inv (call (with_pending w p) fails)
unfolding call written
fails-Inv w [] v = ground (arith, v.in_order, v.one_at_a_time, v.not_early, v.not_left_open)
fails-Inv w (x ∷ p) v =
    ground (arith, v.in_order, v.one_at_a_time, v.not_early, append-nil w.issued)

call-Inv : (w : World) (c : Call) → Inv w → Inv (call w c)
call-Inv w (enqueues t) v = enqueues-Inv w w.connection.pending t v
call-Inv w (expects n) v = expects-Inv w w.connection.pending n v
call-Inv w closes v = closes-Inv w w.connection.pending v
call-Inv w finishes v = finishes-Inv w w.connection.pending v
call-Inv w completes v = completes-Inv w w.connection.pending v
call-Inv w fails v = fails-Inv w w.connection.pending v

calls-Inv : (w : World) (cs : List Call) → Inv w → Inv (calls w cs)
unfolding calls
calls-Inv w [] v = v
calls-Inv w (c ∷ cs) v = calls-Inv (call w c) cs (call-Inv w c v)

-- After any sequence of calls and completions, the texts delivered and those pending are together
-- the texts handed to the connection, in order; the writes started are the delivered texts and the
-- oldest pending one; the connection was closed only if it was asked to close or a write failed; and
-- once it was asked to close and nothing is pending, it has been closed.
pub calls-start-Inv : (cs : List Call) → Inv (calls start cs)
calls-start-Inv cs = calls-Inv start cs (
    unfold new_connection in
    record { in_order = refl; one_at_a_time = refl; not_early = λ e. cc; not_left_open = λ e. cc })

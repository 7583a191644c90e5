-- ===== src/Socks/Relay.antt =====
-- socks_server.cpp: one of the two threads of `relay_bidirectional`. What the sockets and the clock
-- do in the rounds of the loop is a list: each round reads the clock, reads from the input, reads the
-- clock again and writes to the output. A list that ends leaves the thread waiting in a read.
use network_programming.Base.{
  ℕ, Bool, true, false, List, [], ◌∷◌, ◌++◌, Option, none, some, Text, if◌then◌else◌, ◌≡◌, arith,
  ◌⊎◌, inl, inr, refl, append_assoc, append-nil, ap, take, sym, ◌∙◌, Bool-cases,
}
use network_programming.Socks.Proxy.{time_exceeded}

-- What a write of all bytes does: they are all sent, or it fails behind so many of them.
pub data Written : Type 0 where
  complete : Written
  cut_after : ℕ → Written

pub record Round : Type 0 where
  pub before : ℕ
  -- The bytes that `read_some` gives; `none` is an error, the end of the stream among them.
  pub input : Option Text
  pub after : ℕ
  pub written : Written

pub record Thread : Type 0 where
  pub sent : Text
  pub input_open : Bool
  pub output_open : Bool

abbrev pub running : Thread
running = record { sent = []; input_open = true; output_open = true }

-- close_socket on both sockets
close_sockets : Thread → Thread
close_sockets t = record t { input_open = false; output_open = false }

abbrev send_bytes : Thread → Text → Written → Thread × Bool
send_bytes t bytes complete = (record t { sent = t.sent ++ bytes }, true)
send_bytes t bytes (cut_after n) = (record t { sent = t.sent ++ take n bytes }, false)

write_round : ℕ → Thread → Round → Text → Thread × Bool
write_round start_time t r bytes =
    if time_exceeded start_time r.after then (t, false) else send_bytes t bytes r.written

-- One round of the loop, and whether the loop goes on.
unfoldable pub relay_round : ℕ → Thread → Round → Thread × Bool
unfolding write_round
relay_round start_time t r =
    if time_exceeded start_time r.before
    then (t, false)
    else (elim (r.input) [ none ↦ (t, false) | some bytes ↦ write_round start_time t r bytes ])

unfoldable pub relay_stream : ℕ → Thread → List Round → Thread
unfolding relay_round close_sockets
relay_stream start_time t [] = t
relay_stream start_time t (r ∷ rs) =
    let (t', more) = relay_round start_time t r in
    let rest = relay_stream start_time t' rs in if more then rest else close_sockets t'

-- What the input has delivered in a list of rounds.
abbrev pub received : List Round → Text
received [] = []
received (r ∷ rs) = elim (r.input) [ none ↦ [] | some bytes ↦ bytes ++ received rs ]

-- A round in which the loop goes on: both clock readings keep the limit, and the bytes arrive.
pub record Passes (start_time : ℕ) (r : Round) : Type 0 where
  pub bytes : Text
  pub arrived : r.input ≡ some bytes
  pub in_time : time_exceeded start_time r.before ≡ false
  pub still_in_time : time_exceeded start_time r.after ≡ false
  pub wrote : r.written ≡ complete

pub data AllPass (start_time : ℕ) : List Round → Type 0 where
  none_left : AllPass start_time []
  round :
      {r : Round} {rs : List Round}
      → Passes start_time r
      → AllPass start_time rs
      → AllPass start_time (r ∷ rs)

-- What a round that does not pass may have sent: nothing, or the front of its bytes, where they have
-- arrived in time and their write has failed.
abbrev pub Strays : ℕ → Round → Text → Type 0
Strays start_time r extra =
    (extra ≡ [])
    ⊎ ((bytes : Text) × (n : ℕ) × (r.input ≡ some bytes)
        × (r.written ≡ cut_after n)
        × (time_exceeded start_time r.before ≡ false)
        × (time_exceeded start_time r.after ≡ false)
        × (extra ≡ take n bytes))

-- What is left when the thread stands still: nothing, with the sockets as they were, or a first
-- round that does not pass, with both sockets closed.
abbrev pub Ends : ℕ → Thread → List Round → Text → Thread → Type 0
Ends start_time t left extra u =
    ((left ≡ []) × (extra ≡ []) × (u.input_open ≡ t.input_open) × (u.output_open ≡ t.output_open))
    ⊎ ((r : Round) × (rest : List Round) × (left ≡ r ∷ rest)
        × (¬ Passes start_time r)
        × Strays start_time r extra
        × (u.input_open ≡ false)
        × (u.output_open ≡ false))

pub record Relays (start_time : ℕ) (t : Thread) (rs : List Round) (u : Thread) : Type 0 where
  pub passed : List Round
  pub left : List Round
  pub extra : Text
  pub splits : rs ≡ passed ++ left
  pub all_pass : AllPass start_time passed
  pub sent : u.sent ≡ t.sent ++ (received passed ++ extra)
  pub ends : Ends start_time t left extra u

-- A round passes with its bytes, or it does not and ends the loop.
abbrev RoundCases : ℕ → Thread → Round → Type 0
RoundCases start_time t r =
    ((p : Passes start_time r) × (relay_round start_time t r
        ≡ (record t { sent = t.sent ++ p.bytes }, true)))
    ⊎ ((extra : Text) × (¬ Passes start_time r)
        × Strays start_time r extra
        × (relay_round start_time t r ≡ (record t { sent = t.sent ++ extra }, false)))

relay_round-RoundCases : (start_time : ℕ) (t : Thread) (r : Round) → RoundCases start_time t r
unfolding relay_round
relay_round-RoundCases start_time t r =
    go r.input r.written refl refl (Bool-cases (time_exceeded start_time r.before))
      (Bool-cases (time_exceeded start_time r.after))
  where
    go :
        (input : Option Text) (written : Written)
        → r.input ≡ input
        → r.written ≡ written
        → ((time_exceeded start_time r.before ≡ true) ⊎ (time_exceeded start_time r.before ≡ false))
        → ((time_exceeded start_time r.after ≡ true) ⊎ (time_exceeded start_time r.after ≡ false))
        → RoundCases start_time t r
    go input written e f (inl late) _ =
        inr ([], λ p. ground (arith, p.in_time), inl refl, ground (arith, append-nil t.sent))
    go none written e f (inr in_time) _ =
        inr ([], λ p. cc (p.arrived), inl refl, ground (arith, append-nil t.sent))
    go (some bytes) written e f (inr in_time) (inl late) =
        inr ([], λ p. ground (arith, p.still_in_time), inl refl, ground (arith, append-nil t.sent))
    go (some bytes) complete e f (inr in_time) (inr still) = inl (
      record { bytes = bytes; arrived = e; in_time = in_time; still_in_time = still; wrote = f },
      ground arith,
    )
    go (some bytes) (cut_after n) e f (inr in_time) (inr still) =
        inr (
          take n bytes,
          λ p. cc (p.wrote),
          inr (bytes, n, e, f, in_time, still, refl),
          ground arith,
        )

further :
    {start_time : ℕ} (t : Thread) (r : Round) (rs : List Round) (p : Passes start_time r)
    → relay_round start_time t r ≡ (record t { sent = t.sent ++ p.bytes }, true)
    → Relays start_time
        (record t { sent = t.sent ++ p.bytes })
        rs
        (relay_stream start_time (record t { sent = t.sent ++ p.bytes }) rs)
    → Relays start_time t (r ∷ rs) (relay_stream start_time t (r ∷ rs))
unfolding relay_stream
further t r rs p e h =
    rw (e, relay_stream)
      (record {
        passed = r ∷ h.passed;
        left = h.left;
        extra = h.extra;
        splits = ap (◌∷◌ r) h.splits;
        all_pass = round p h.all_pass;
        sent =
            h.sent
            ∙ (append_assoc t.sent p.bytes (received h.passed ++ h.extra)
                ∙ rw (p.arrived)
                    (ap (◌++◌ t.sent) (sym (append_assoc p.bytes (received h.passed) h.extra))));
        ends = h.ends;
      })

-- A relay thread sends, in order and unchanged, exactly the bytes of the rounds before the first one
-- that does not pass, and behind them, where the write of that round fails, the front of its bytes;
-- at that round it closes both sockets, and until then both stay as they were. A round passes when
-- bytes arrive, both clock readings keep the time limit, and the write succeeds.
pub relay_stream-Relays :
    (start_time : ℕ) (t : Thread) (rs : List Round)
    → Relays start_time t rs (relay_stream start_time t rs)
unfolding relay_stream
relay_stream-Relays start_time t [] = record {
  passed = [];
  left = [];
  extra = [];
  splits = refl;
  all_pass = none_left;
  sent = sym (append-nil t.sent);
  ends = inl (refl, refl, refl, refl);
}
relay_stream-Relays start_time t (r ∷ rs) = elim (relay_round-RoundCases start_time t r) [
  | inl (p, e) ↦
      further t r rs p e (relay_stream-Relays start_time (record t { sent = t.sent ++ p.bytes }) rs)
  | inr (extra, stop, strays, e) ↦
      rw (e, relay_stream)
        (record {
          passed = [];
          left = r ∷ rs;
          extra = extra;
          splits = refl;
          all_pass = none_left;
          sent = refl;
          ends = inr (r, rs, refl, stop, strays, refl, refl);
        })
]

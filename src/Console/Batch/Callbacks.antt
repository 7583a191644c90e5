-- ===== src/Console/Batch/Callbacks.antt =====
-- What each callback of a session of project 4 adds to what was sent.
use network_programming.Base.{
  Bool, true, false, List, [], ◌∷◌, ◌++◌, Option, none, some, Text, take, take-suc, get_elem?,
  if◌then◌else◌, ◌≡◌, ◌⊎◌, inl, inr, refl, append-nil, append_assoc, ap, ◌∙◌, sym, if_both,
}
use network_programming.Console.Batch.{
  Batch, Operation, ended, resolving, connecting, requesting, replying, reading, writing, Action,
  resolve, output, send, throws, Completion, completed, received, Step, goes_to, send_request,
  after_connect, write_command, write_next_command, with_output, read_content,
}
use network_programming.Console.Escape.{output_text}
use network_programming.Console.Prompt.{received_prompt}
use network_programming.Console.Query.{SocksConfig}
use network_programming.Socks.Reply.{accepts_reply}
use network_programming.Socks.Request.{build_socks4a_request}

abbrev pub sends : List Action → List Text
sends [] = []
sends (send text ∷ acts) = text ∷ sends acts
sends (_ ∷ acts) = sends acts

pub sends-append : (acts more : List Action) → sends (acts ++ more) ≡ sends acts ++ sends more
sends-append [] more = refl
sends-append (send text ∷ acts) more = ap (◌∷◌ text) (sends-append acts more)
sends-append (output _ ∷ acts) more = sends-append acts more
sends-append (resolve _ _ ∷ acts) more = sends-append acts more
sends-append (throws ∷ acts) more = sends-append acts more

-- What the first read of a run brought: an accepted reply or not, or no read has ended yet.
abbrev pub Verdict : Type 0
Verdict = Option Bool

abbrev pub after : Verdict → Completion → Verdict
after (some granted) c = some granted
after none (received (some reply)) = some (accepts_reply reply)
after none (received none) = some false
after none (completed _) = none

abbrev pub verdict : Verdict → List Completion → Verdict
verdict v [] = v
verdict v (c ∷ cs) = verdict (after v c) cs

-- The request went to the proxy, and nothing else was sent.
abbrev pub Asked : Batch → List Text → Type 0
Asked s sent =
    (proxy : SocksConfig) × (s.proxy ≡ some proxy)
    × (request : Text) × (build_socks4a_request s.config.host s.config.port ≡ some request)
    × (sent ≡ request ∷ [])

-- What stands before the commands: nothing without a proxy, and the request if it was v.
abbrev pub Greets : Batch → Verdict → List Text → Type 0
Greets s v greeting = ((s.proxy ≡ none) × (greeting ≡ [])) ⊎ ((v ≡ some true) × Asked s greeting)

abbrev pub Runs : Batch → Verdict → List Text → Type 0
Runs s v sent =
    (greeting : List Text) × Greets s v greeting
    × (sent ≡ greeting ++ take s.next_command s.commands)

abbrev pub Sent : Batch → Verdict → List Text → Type 0
Sent s v sent = (sent ≡ []) ⊎ (Asked s sent ⊎ Runs s v sent)

abbrev pub Fresh : Batch → Verdict → List Text → Type 0
Fresh s v sent = (sent ≡ []) × (s.next_command ≡ 0) × (v ≡ none)

abbrev pub Waits : Batch → Verdict → List Text → Type 0
Waits s v sent = Asked s sent × (s.next_command ≡ 0) × (v ≡ none)

abbrev pub InvAt : Operation → Batch → Verdict → List Text → Type 0
InvAt resolving s v sent = Fresh s v sent
InvAt connecting s v sent = Fresh s v sent
InvAt requesting s v sent = Waits s v sent
InvAt replying s v sent = Waits s v sent
InvAt reading s v sent = Runs s v sent
InvAt writing s v sent = Runs s v sent
InvAt ended s v sent = Sent s v sent

abbrev pub Inv : Batch → Verdict → List Text → Type 0
Inv s v sent = InvAt s.operation s v sent

pub InvAt-Sent :
    (operation : Operation) (s : Batch) (v : Verdict) (sent : List Text)
    → InvAt operation s v sent
    → Sent s v sent
InvAt-Sent resolving s v sent h = inl h.0
InvAt-Sent connecting s v sent h = inl h.0
InvAt-Sent requesting s v sent h = inr (inl h.0)
InvAt-Sent replying s v sent h = inr (inl h.0)
InvAt-Sent reading s v sent h = inr (inr h)
InvAt-Sent writing s v sent h = inr (inr h)
InvAt-Sent ended s v sent h = h

pub after-none : (v : Verdict) (b : Bool) → v ≡ none → after v (completed b) ≡ none
after-none v b h = rw (h) refl

after-granted : (v : Verdict) (c : Completion) → v ≡ some true → after v c ≡ some true
after-granted v c h = rw (h) refl

pub Greets-later :
    (s : Batch) (v : Verdict) (c : Completion) (greeting : List Text)
    → Greets s v greeting
    → Greets s (after v c) greeting
Greets-later s v c greeting (inl h) = inl h
Greets-later s v c greeting (inr (g, asked)) = inr (after-granted v c g, asked)

Sent-later :
    (s : Batch) (v : Verdict) (c : Completion) (sent : List Text)
    → Sent s v sent
    → Sent s (after v c) sent
Sent-later s v c sent (inl h) = inl h
Sent-later s v c sent (inr (inl h)) = inr (inl h)
Sent-later s v c sent (inr (inr (greeting, g, h))) =
    inr (inr (greeting, Greets-later s v c greeting g, h))

-- What a callback adds.
abbrev pub Goes : Verdict → List Text → Step → Type 0
Goes v sent (t, acts) = Inv t v (sent ++ sends acts)

-- A callback that only goes on to another operation.
pub goes_to-Goes :
    (operation : Operation) (s : Batch) (v : Verdict) (sent : List Text)
    → InvAt operation s v sent
    → Goes v sent (goes_to operation s, [])
goes_to-Goes resolving s v sent h = rw append-nil h
goes_to-Goes connecting s v sent h = rw append-nil h
goes_to-Goes requesting s v sent h = rw append-nil h
goes_to-Goes replying s v sent h = rw append-nil h
goes_to-Goes reading s v sent h = rw append-nil h
goes_to-Goes writing s v sent h = rw append-nil h
goes_to-Goes ended s v sent h = rw append-nil h

send_request-Goes :
    (proxy : SocksConfig) (s : Batch) (v : Verdict) (sent : List Text) (built : Option Text)
    → s.proxy ≡ some proxy
    → build_socks4a_request s.config.host s.config.port ≡ built
    → Fresh s v sent
    → Goes v sent (send_request built s)
send_request-Goes proxy s v sent none e b (nothing, zero_sent, unread) = inl (rw (nothing) refl)
send_request-Goes proxy s v sent (some request) e b (nothing, zero_sent, unread) =
    ((proxy, e, request, b, rw (nothing) refl), zero_sent, unread)

pub after_connect-Goes :
    (o : Option SocksConfig) (s : Batch) (v : Verdict) (sent : List Text)
    → s.proxy ≡ o
    → Fresh s v sent
    → Goes v sent (after_connect o s)
after_connect-Goes none s v sent e (nothing, zero_sent, unread) =
    ([], inl (e, refl), rw (nothing, zero_sent) refl)
after_connect-Goes (some proxy) s v sent e h = send_request-Goes proxy s v sent _ e refl h

write_command-Goes :
    (o : Option Text) (s : Batch) (v : Verdict) (sent : List Text)
    → get_elem? s.commands s.next_command ≡ o
    → Runs s v sent
    → Goes v sent (write_command o s)
write_command-Goes none s v sent e h = goes_to-Goes reading s v sent h
write_command-Goes (some command) s v sent e (greeting, g, h) = (
  greeting,
  g,
  ap (λ first. first ++ command ∷ []) h
      ∙ append_assoc greeting (take s.next_command s.commands) (command ∷ [])
      ∙ ap (λ rest. greeting ++ rest) (sym (take-suc s.commands s.next_command e)),
)

with_output-Goes :
    (script : Text) (v : Verdict) (sent : List Text) (step : Step)
    → Goes v sent step
    → Goes v sent (with_output script step)
with_output-Goes script v sent (t, acts) h = h

pub read_content-Goes :
    (content : Text) (s : Batch) (v : Verdict) (sent : List Text)
    → Runs s v sent
    → Goes v sent (read_content content s)
unfolding read_content write_next_command
read_content-Goes content s v sent h =
    let (tail, found) = received_prompt s.prompt_tail content in
    let t : Batch = record s { prompt_tail = tail } in
    with_output-Goes (output_text s.session_id content true) v sent
      (if found
        then write_command (get_elem? t.commands t.next_command) t
        else (goes_to reading t, []))
      (if_both (Goes v sent) found (write_command-Goes _ t v sent refl h)
        (goes_to-Goes reading t v sent h))

pub Asked-Runs :
    (s : Batch) (v : Verdict) (sent : List Text)
    → v ≡ some true
    → Asked s sent × (s.next_command ≡ 0)
    → Runs s v sent
Asked-Runs s v sent g (asked, zero_sent) =
    (sent, inr (g, asked), rw (zero_sent) (sym (append-nil sent)))

pub ends-Goes :
    (operation : Operation) (s : Batch) (v : Verdict) (c : Completion) (sent : List Text)
    → InvAt operation s v sent
    → Goes (after v c) sent (goes_to ended s, [])
ends-Goes operation s v c sent h =
    goes_to-Goes ended s (after v c) sent (Sent-later s v c sent (InvAt-Sent operation s v sent h))

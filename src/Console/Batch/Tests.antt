-- ===== src/Console/Batch/Tests.antt =====
-- A session behind the proxy.
use network_programming.Base.{
  true, List, [], ◌∷◌, ◌++◌, Option, none, some, Text, codes, stoi, ◌≡◌, refl,
}
use network_programming.Console.Batch.{
  Completion, completed, received, new_batch, load_commands_inline, start, run,
}
use network_programming.Console.Batch.Callbacks.{sends, verdict, Sent}
use network_programming.Console.Batch.Constant.{IsOf}
use network_programming.Console.Batch.Trace.{run-start-Sent}
use network_programming.Console.Prompt.{received_prompt, has_prompt}
use network_programming.Console.Query.{RemoteSessionConfig, SocksConfig}
use network_programming.Socks.Reply.{accepts_reply}
use network_programming.Socks.Request.{build_socks4a_request}

abbrev config : RemoteSessionConfig
config = record { host = codes "h"; port = codes "80"; file = codes "t1.txt" }

abbrev proxy : Option SocksConfig
proxy = some (record { host = codes "p"; port = codes "1080" })

abbrev granted : Text
granted = 0 ∷ 90 ∷ 0 ∷ 0 ∷ 0 ∷ 0 ∷ 0 ∷ 0 ∷ []

-- Resolved, connected, the request written, the reply, and the first prompt.
abbrev completions : List Completion
completions =
    completed true
    ∷ completed true
    ∷ completed true
    ∷ received (some granted)
    ∷ received (some (codes "% "))
    ∷ []

run-start-Sent_example :
    let (t, acts) = run (start (new_batch config proxy 0 (some (codes "ls\n")))) completions in
    IsOf config proxy (load_commands_inline (some (codes "ls\n"))) t
    × Sent t (verdict none completions) (sends acts)
run-start-Sent_example = run-start-Sent config proxy 0 (some (codes "ls\n")) completions

sent_by_run :
    sends (run (start (new_batch config proxy 0 (some (codes "ls\n")))) completions).1
    ≡ (4 ∷ 1 ∷ 0 ∷ 80 ∷ 0 ∷ 0 ∷ 0 ∷ 1 ∷ 0 ∷ (codes "h" ++ 0 ∷ [])) ∷ codes "ls\n" ∷ []
unfolding run start new_batch build_socks4a_request accepts_reply received_prompt stoi has_prompt
sent_by_run = refl

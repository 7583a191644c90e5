-- ===== src/Socks/Proxy/Process.antt =====
-- The child process of socks_server.cpp: what Boost.Asio, the files and the clock answer it, what the
-- outside sees of it, and how its statements follow one another up to an exception.
use network_programming.Base.{ℕ, suc, Bool, List, [], ◌∷◌, ◌++◌, Option, none, some, Text}

pub record Endpoint : Type 0 where
  pub is_v4 : Bool
  pub ip : Text
  pub port : ℕ

-- The answers of the outside to one child process. `none` is an exception.
pub record Net : Type 0 where
  -- The number of seconds that the k-th reading of the clock gives.
  pub clock : ℕ → ℕ
  -- Whether the k-th write to the client succeeds.
  pub write_succeeds : ℕ → Bool
  -- The client's address at the k-th call of remote_endpoint, if its connection still stands.
  pub remote : ℕ → Option Endpoint
  -- The text of socks.conf, where it can be opened.
  pub conf : Option Text
  -- The endpoints that the resolver gives for a name and a port.
  pub resolve : Text → ℕ → Option (List Endpoint)
  -- Whether a connection to an endpoint succeeds.
  pub connects : Endpoint → Bool
  -- The local address of the client's socket and the port of a fresh acceptor.
  pub listens : Option Endpoint
  -- The peer that the acceptor takes.
  pub accepts : Option Endpoint

-- What the outside sees of the process.
pub data Event : Type 0 where
  replied : (code : ℕ) (packet : Text) → Event
  logged : (source : Endpoint) (dst_ip : Text) (dst_port command : ℕ) (reply : Text) → Event
  opened : Endpoint → Event
  relayed : (time_limit : ℕ) → Event

pub record Run : Type 0 where
  pub clock_reads : ℕ
  pub writes : ℕ
  pub remote_reads : ℕ
  pub trace : List Event

pub data Outcome (A : Type 0) : Type 0 where
  ok : A → Run → Outcome A
  thrown : Run → Outcome A

abbrev pub run_of : {A : Type 0} → Outcome A → Run
run_of (ok a run) = run
run_of (thrown run) = run

-- What the child process does next.
abbrev pub Child : Type 0 → Type 0
Child A = Net → Run → Outcome A

-- On with `next`, unless an exception was thrown.
abbrev proceed : {A B : Type 0} → (A → Child B) → Net → Outcome A → Outcome B
proceed next net (thrown run) = thrown run
proceed next net (ok result run) = next result net run

infixl 5 ◌>>=◌ ◌>>◌
abbrev pub ◌>>=◌ : {A B : Type 0} → Child A → (A → Child B) → Child B
◌>>=◌ first next net run = proceed next net (first net run)

abbrev pub ◌>>◌ : {B : Type 0} → Child (Unit {0}) → Child B → Child B
◌>>◌ first next net run = proceed (λ _. next) net (first net run)

abbrev pub return : {A : Type 0} → A → Child A
return a net run = ok a run

abbrev pub throw : {A : Type 0} → Child A
throw net run = thrown run

-- try { m } catch (const std::exception&) { handler }
abbrev pub try : {A : Type 0} → Child A → Child A → Child A
try m handler net run = elim (m net run) [ ok a run' ↦ ok a run' | thrown run' ↦ handler net run' ]

abbrev pub from_option : {A : Type 0} → Option A → Child A
from_option none = throw
from_option (some a) = return a

abbrev pub event : Event → Child (Unit {0})
event e net run = ok tt (record run { trace = run.trace ++ e ∷ [] })

abbrev pub now : Child ℕ
now net run = ok (net.clock run.clock_reads) (record run { clock_reads = suc run.clock_reads })

abbrev pub remote_endpoint : Child Endpoint
remote_endpoint net run =
    from_option (net.remote run.remote_reads) net
      (record run { remote_reads = suc run.remote_reads })

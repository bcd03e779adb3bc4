-- ===== src/Vsock/Answered.antt =====
-- From the header that internal/cmd/agentsession.go sends to the end of its session: what the agent
-- of internal/nix/flakegen/agent/main.go answers.
use microbe.Base.{ℕ, ◌≤◌, ◌≡◌, List, Text, length, Result, ok, err, All, ℤ}
use microbe.Vsock.Agent.{Input, Output}
use microbe.Vsock.Serving.{
  Header, Running, finished, hanging, GuestEvent, Guest, open_pty, Served, returned, waiting,
}
use microbe.Vsock.Reply.{Ran, Hangs}
use microbe.Vsock.RoundTrip.{IsInt32}
use microbe.Vsock.Outputs.{OutputFits, stdout_of, stderr_of, outcome_of}
use microbe.Vsock.Session.{run_session}
use microbe.Vsock.Delivery.{delivered, typed}

-- What the guest gives for any command fits in frames, and its codes are int32.
abbrev pub TtyFits : Result Text (Running Text) → Type 0
TtyFits (ok (finished ps code)) = All (λ p. length {0} p ≤ 32768) ps × IsInt32 code
TtyFits (ok (hanging ps)) = Unit
TtyFits (err e) = length e ≤ 1000000

abbrev pub PipeFits : Result Text (Running Output) → Type 0
PipeFits (ok (finished outs code)) = All OutputFits outs × IsInt32 code
PipeFits (ok (hanging outs)) = Unit
PipeFits (err e) = length e ≤ 1000000

abbrev pub PtyFits : Result Text (ℕ × ℕ) → Type 0
PtyFits (ok p) = Unit
PtyFits (err e) = length e ≤ 1000000

pub record GuestFits (g : Guest) : Type 0 where
  pub ttys : (es : List GuestEvent) (h : Header) (is : List Input) → TtyFits (g.start_tty es h is)
  pub pipes :
      (es : List GuestEvent) (h : Header) (is : List Input) → PipeFits (g.start_pipe es h is)
  pub ptys : (es : List GuestEvent) → PtyFits (open_pty g es).1

-- The handler answered what the guest gives for the header and the host's stdin, or it waits for a
-- command whose `Wait` never returns.
pub AnswersTo : Guest → List GuestEvent → Header → List Text → Served Text → Type 0
AnswersTo g es h reads (returned s) =
    (outs : List Output) × (code : ℤ) × Ran g es h (typed reads) (delivered reads) outs code
    × (run_session s.conn
        ≡ record { stdout = stdout_of outs; stderr = stderr_of outs; outcome = outcome_of code })
AnswersTo g es h reads (waiting s) = Hangs g es h (typed reads) (delivered reads)

-- ===== src/Server/Lifecycle.antt =====
-- How the processes of backend/server.js and backend/worker.js start and stop. Node.js's events are the
-- input; log lines are left out.
use text.Mathlib.Text.{◌==◌}
use task.Prelude.{
  ℕ, String, Option, none, some, Bool, true, false, ◌||◌, List, [], ◌∷◌, ◌++◌, ◌≡◌, ◌≢◌, ◌⊎◌, refl,
  inl, inr, arith, if◌then◌else◌,
}
use task.Service.Answer.{is_some}
use task.Prelude.Sorting.{Any}

-- What happens to the API's process: SIGTERM or SIGINT, the callback of `server.close` with its error,
-- the timer of ten seconds, an unhandled rejection, and an uncaught exception.
pub data ServerEvent : Type 0 where
  signal : ServerEvent
  closed : Option String → ServerEvent
  timed_out rejection exception : ServerEvent

-- `closing` says that `server.close` has been called and the timer set; `exit_code` is the
-- argument of `process.exit`.
pub record ServerProcess : Type 0 where
  pub consumes_events : Bool
  pub closing : Bool
  pub exit_code : Option ℕ

-- `serviceRole === 'reports' || serviceRole === 'all'` starts the consumer of events.
unfoldable pub start_server : String → ServerProcess
start_server role = record {
  consumes_events = role == "reports" || role == "all";
  closing = false;
  exit_code = none;
}

abbrev exits : ℕ → ServerProcess → ServerProcess
exits code p = record p { exit_code = some code }

-- A callback that was never registered is not called.
abbrev if_closing : ServerProcess → ServerProcess → ServerProcess
if_closing p q = if p.closing then q else p

abbrev running_on : ServerEvent → ServerProcess → ServerProcess
running_on signal p = record p { closing = true }
running_on (closed none) p = if_closing p (exits 0 p)
running_on (closed (some err)) p = if_closing p (exits 1 p)
running_on timed_out p = if_closing p (exits 1 p)
running_on rejection p = p
running_on exception p = exits 1 p

-- A process that has exited does nothing.
unfoldable pub on_server_event : ServerEvent → ServerProcess → ServerProcess
on_server_event e p = elim p.exit_code [ none ↦ running_on e p | some code ↦ p ]

unfoldable pub live_through : List ServerEvent → ServerProcess → ServerProcess
live_through [] p = p
live_through (e ∷ es) p = live_through es (on_server_event e p)

live_through-append :
    (xs ys : List ServerEvent) (p : ServerProcess)
    → live_through (xs ++ ys) p ≡ live_through ys (live_through xs p)
unfolding live_through
live_through-append [] ys p = refl
live_through-append (x ∷ xs) ys p = live_through-append xs ys (on_server_event x p)

-- The process has exited or will, at the latest when its timer fires.
abbrev Ending : ServerProcess → Type 0
Ending p = (is_some p.exit_code || p.closing) ≡ true

abbrev pub HasExited : ServerProcess → Type 0
HasExited p = is_some p.exit_code ≡ true

event-Ending : (e : ServerEvent) (p : ServerProcess) → Ending p → Ending (on_server_event e p)
unfolding on_server_event
event-Ending e p h = ground arith

event-HasExited :
    (e : ServerEvent) (p : ServerProcess) → HasExited p → HasExited (on_server_event e p)
unfolding on_server_event
event-HasExited e p h = ground arith

signal-Ending : (p : ServerProcess) → Ending (on_server_event signal p)
unfolding on_server_event
signal-Ending p = ground arith

timed_out-HasExited : (p : ServerProcess) → Ending p → HasExited (on_server_event timed_out p)
unfolding on_server_event
timed_out-HasExited p h = ground arith

live-Ending : (es : List ServerEvent) (p : ServerProcess) → Ending p → Ending (live_through es p)
unfolding live_through
live-Ending [] p h = h
live-Ending (e ∷ es) p h = live-Ending es (on_server_event e p) (event-Ending e p h)

live-HasExited :
    (es : List ServerEvent) (p : ServerProcess) → HasExited p → HasExited (live_through es p)
unfolding live_through
live-HasExited [] p h = h
live-HasExited (e ∷ es) p h = live-HasExited es (on_server_event e p) (event-HasExited e p h)

-- What must have happened for a process to exit with 0.
abbrev pub Signalled : List ServerEvent → Type 0
Signalled = Any (λ e. e ≡ signal)

abbrev pub ClosedWell : List ServerEvent → Type 0
ClosedWell = Any (λ e. e ≡ closed none)

zero_cases :
    (e : ServerEvent) (p : ServerProcess)
    → p.exit_code ≢ some 0
    → (((on_server_event e p).exit_code ≢ some 0)
        × ((on_server_event e p).closing ≡ true → (e ≡ signal) ⊎ (p.closing ≡ true)))
      ⊎ ((e ≡ closed none) × (p.closing ≡ true))
unfolding on_server_event
zero_cases e p h = ground arith

exit_zero_lem :
    (es : List ServerEvent) (p : ServerProcess)
    → p.exit_code ≢ some 0
    → (live_through es p).exit_code ≡ some 0
    → (Signalled es ⊎ (p.closing ≡ true)) × ClosedWell es
unfolding live_through
exit_zero_lem [] p h e = absurd (h e)
exit_zero_lem (x ∷ es) p h e = elim (zero_cases x p h) [
  | inr (here, closing) ↦ (inr closing, inl here)
  | inl (still, back) ↦
      let (began, well) = exit_zero_lem es (on_server_event x p) still e in
      (
        elim began [
          | inl later ↦ inl (inr later)
          | inr closing ↦ elim (back closing) [ inl now ↦ inl (inl now) | inr c ↦ inr c ]
        ],
        inr well,
      )
]

ends_in_time :
    (p : ServerProcess) (before between rest : List ServerEvent)
    → HasExited (live_through (before ++ signal ∷ (between ++ timed_out ∷ rest)) p)
unfolding live_through
ends_in_time p before between rest =
    let told = on_server_event signal (live_through before p) in
    rw
      (
        live_through-append before (signal ∷ (between ++ timed_out ∷ rest)) p,
        live_through-append between (timed_out ∷ rest) told,
      )
      (live-HasExited rest (on_server_event timed_out (live_through between told)) (
        timed_out-HasExited (live_through between told)
          (live-Ending between told (signal-Ending (live_through before p)))))

zero_lem :
    (role : String) (es : List ServerEvent)
    → (live_through es (start_server role)).exit_code ≡ some 0
    → Signalled es × ClosedWell es
unfolding start_server
zero_lem role es e =
    let (began, well) = exit_zero_lem es (start_server role) (λ h. cc) e in
    (elim began [ inl told ↦ told | inr closing ↦ absurd (ground arith) ], well)

-- The process of the API ends when it is told to: whatever happens, a signal and the ten seconds
-- after it end the process; and it exits with 0 only after a signal, and only if the server has been
-- closed without an error.
pub live_through-ends :
    (role : String)
    → ((before between rest : List ServerEvent)
        → HasExited
            (live_through (before ++ signal ∷ (between ++ timed_out ∷ rest)) (start_server role)))
      × ((es : List ServerEvent)
          → (live_through es (start_server role)).exit_code ≡ some 0
          → Signalled es × ClosedWell es)
live_through-ends role = (ends_in_time (start_server role), zero_lem role)

-- ===== src/Live/Invariant.antt =====
-- No request to stop is lost, whatever the order of the threads' steps.
use zwirn.Prelude.{true, Option, none, some, ◌≡◌, ◌≢◌, refl, arith}
use zwirn.Live.{
  Wake, control, Point, reconciling, polled, receiving, woken, listening, sending, Session,
  driver_step, driver_step_at, Step, drive, run_fails, signal, send, invalidation, disconnect,
  Reachable, at_start, then_step,
}

-- The wake that the driver has taken out of the channel and not acted on.
abbrev pub held : Point → Option Wake
held (polled wake) = wake
held (woken wake) = some wake
held _ = none

-- A request is behind every control wake, and a driver that is about to block finds a wake once
-- a request was made and its thread is done.
abbrev pub IsSound : Session → Type 0
IsSound s =
    (s.channel ≡ some control → s.shutdown ≡ true)
    × (held s.driver ≡ some control → s.shutdown ≡ true)
    × (s.signals ≡ sending → s.shutdown ≡ true)
    × (s.driver ≡ receiving → s.shutdown ≡ true → s.signals ≡ listening → s.channel ≢ none)

driver_step_at-IsSound :
    (p : Point) (s after : Session)
    → s.driver ≡ p
    → IsSound s
    → driver_step_at p s ≡ some after
    → IsSound after
driver_step_at-IsSound p s after h (a, b, c, d) e = ground arith

Step-IsSound : (s after : Session) → Step s after → IsSound s → IsSound after
unfolding driver_step
Step-IsSound s after (drive _ _ e) h = driver_step_at-IsSound s.driver s after refl h e
Step-IsSound s _ (run_fails _ e) (a, b, c, d) = ground arith
Step-IsSound s _ (signal _ e f) (a, b, c, d) = ground arith
Step-IsSound s _ (send _ e f) (a, b, c, d) = ground arith
Step-IsSound s _ (invalidation _ e) (a, b, c, d) = ground arith
Step-IsSound s _ (disconnect _) h = h

-- In every state that the threads can reach in any order of their steps: a control wake, in the
-- channel or taken out of it, is there only after a request to stop, and where a request was made
-- and its thread is done, a driver that is about to block finds a wake in the channel, even if
-- the channel was full when the request was sent.
pub Reachable-IsSound : (s : Session) → Reachable s → IsSound s
Reachable-IsSound _ at_start = (λ e. cc, λ e. cc, λ e. cc, λ e. cc)
Reachable-IsSound _ (then_step s after r step) = Step-IsSound s after step (Reachable-IsSound s r)

-- Once a request to stop was made, no step of any thread begins a run or takes the request back.
pub Step-no_run :
    (s after : Session)
    → Step s after
    → s.shutdown ≡ true
    → (after.shutdown ≡ true) × (after.driver ≡ reconciling → s.driver ≡ reconciling)
unfolding driver_step
Step-no_run s after (drive _ _ e) h = (ground arith, ground arith)
Step-no_run s _ (run_fails _ e) h = (h, λ q. absurd cc)
Step-no_run s _ (signal _ e f) h = (refl, λ q. q)
Step-no_run s _ (send _ e f) h = (h, λ q. q)
Step-no_run s _ (invalidation _ e) h = (h, λ q. q)
Step-no_run s _ (disconnect _) h = (h, λ q. q)

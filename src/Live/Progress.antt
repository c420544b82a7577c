-- ===== src/Live/Progress.antt =====
-- The driver gets on: it returns after a request to stop, and runs again after a change.
use zwirn.Prelude.{
  ℕ, zero, suc, ap, ◌∙◌, ◌≤◌, true, false, Option, none, some, ◌≡◌, ◌≢◌, refl, arith,
}
use zwirn.Live.{
  Point, starting, reconciling, after_run, polling, polled, waiting, receiving, woken, stopped,
  failed, listening, Session, driver_step, driver_step_at, Reachable,
}
use zwirn.Live.Invariant.{Reachable-IsSound}

-- The state after `n` actions of the driver, or fewer if it blocks or returns.
abbrev or_stay : Session → Option Session → Session
or_stay s none = s
or_stay s (some after) = after

pub run_driver : ℕ → Session → Session
run_driver zero s = s
run_driver (suc n) s = run_driver n (or_stay s (driver_step s))

run_driver-stays : (n : ℕ) (s : Session) → s.driver ≡ stopped → (run_driver n s).driver ≡ stopped
unfolding run_driver driver_step
run_driver-stays zero s e = e
run_driver-stays (suc n) s e =
    ap (λ o. (run_driver n (or_stay s o)).driver) (ap (λ p. driver_step_at p s) e)
    ∙ run_driver-stays n s e

-- After one action of the driver and after two it is in no run, and after three it has returned.
abbrev EndsSoon : Session → Type 0
EndsSoon s =
    ((run_driver 1 s).driver ≢ reconciling)
    × ((run_driver 2 s).driver ≢ reconciling)
    × ((run_driver 3 s).driver ≡ stopped)

requested-EndsSoon :
    (s : Session)
    → Reachable s
    → s.shutdown ≡ true
    → s.signals ≡ listening
    → s.connected ≡ true
    → s.driver ≢ failed
    → EndsSoon s
unfolding run_driver driver_step
requested-EndsSoon s r h l c f = by_point s.driver refl
  where
    by_point : (p : Point) → s.driver ≡ p → EndsSoon s
    by_point starting e = ground arith
    by_point reconciling e = ground arith
    by_point after_run e = ground arith
    by_point polling e = ground arith
    by_point (polled w) e = ground arith
    by_point waiting e = ground arith
    by_point receiving e = ground (arith, Reachable-IsSound s r)
    by_point (woken w) e = ground arith
    by_point stopped e = ground arith
    by_point failed e = absurd (f e)

-- If a request was made and its thread is done, the driver returns within three of its own
-- actions, from every state that can be reached while a sender is left, and stays returned; and
-- however many actions it takes, it is in no run behind any of them: a run that is under way is
-- finished, and no other is begun.
pub run_driver-stopped :
    (s : Session)
    → Reachable s
    → s.shutdown ≡ true
    → s.signals ≡ listening
    → s.connected ≡ true
    → s.driver ≢ failed
    → ((n : ℕ) → (run_driver (suc (suc (suc n))) s).driver ≡ stopped)
      × ((n : ℕ) → (run_driver (suc n) s).driver ≢ reconciling)
unfolding run_driver
run_driver-stopped s r h l c f =
    let (one, two, ends) = requested-EndsSoon s r h l c f in
    let later : (n : ℕ) → (run_driver (suc (suc (suc n))) s).driver ≡ stopped =
      λ n. run_driver-stays n (run_driver 3 s) ends in
    (later, none_begun one two later)
  where
    none_begun :
        (run_driver 1 s).driver ≢ reconciling
        → (run_driver 2 s).driver ≢ reconciling
        → ((n : ℕ) → (run_driver (suc (suc (suc n))) s).driver ≡ stopped)
        → (n : ℕ) → (run_driver (suc n) s).driver ≢ reconciling
    none_begun one two later zero = one
    none_begun one two later (suc zero) = two
    none_begun one two later (suc (suc n)) = λ q. cc (later n)

-- The driver is in a run that began behind a change: the wake for the change is taken.
abbrev pub RunsAgain : Session → ℕ → Type 0
RunsAgain s n = ((run_driver n s).driver ≡ reconciling) × ((run_driver n s).channel ≡ none)

-- If no request to stop was made, a wake that waits in the channel leads
-- to a run within five actions of the driver, with the channel empty when that run begins: from
-- every state that can be reached, unless the driver returned.
pub run_driver-RunsAgain :
    (s : Session)
    → Reachable s
    → s.shutdown ≡ false
    → s.channel ≢ none
    → s.driver ≢ failed
    → s.driver ≢ stopped
    → (n : ℕ) × (n ≤ 5) × RunsAgain s n
unfolding run_driver driver_step
run_driver-RunsAgain s r h c f g = by_point s.driver refl
  where
    by_point : (p : Point) → s.driver ≡ p → (n : ℕ) × (n ≤ 5) × RunsAgain s n
    by_point starting e = (5, omega arith, ground (arith, Reachable-IsSound s r))
    by_point reconciling e = (4, omega arith, ground (arith, Reachable-IsSound s r))
    by_point after_run e = (3, omega arith, ground (arith, Reachable-IsSound s r))
    by_point polling e = (2, omega arith, ground (arith, Reachable-IsSound s r))
    by_point (polled none) e = (4, omega arith, ground (arith, Reachable-IsSound s r))
    by_point (polled (some w)) e = (5, omega arith, ground (arith, Reachable-IsSound s r))
    by_point waiting e = (3, omega arith, ground (arith, Reachable-IsSound s r))
    by_point receiving e = (2, omega arith, ground (arith, Reachable-IsSound s r))
    by_point (woken w) e = (5, omega arith, ground (arith, Reachable-IsSound s r))
    by_point stopped e = absurd (g e)
    by_point failed e = absurd (f e)

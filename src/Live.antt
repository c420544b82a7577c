-- ===== src/Live.antt =====
-- src/live.rs: the foreground driver, beside the threads that wake it.
pub mod Invariant
pub mod Progress
pub mod Diagnostics
pub mod Tests
use zwirn.Prelude.{ℕ, zero, suc, Bool, true, false, ◌||◌, Option, none, some, ◌≡◌, if◌then◌else◌}

pub data Wake : Type 0 where
  filesystem control : Wake

pub data Next : Type 0 where
  reconcile wait stop : Next

abbrev pub is_control : Option Wake → Bool
is_control (some control) = true
is_control (some filesystem) = false
is_control none = false

abbrev pub is_filesystem : Option Wake → Bool
is_filesystem (some filesystem) = true
is_filesystem (some control) = false
is_filesystem none = false

abbrev pub boundary_next : Bool → Option Wake → Next
boundary_next shutdown wake =
    if shutdown || is_control wake then stop else if is_filesystem wake then reconcile else wait

-- Where `Driver::run` stands, between two loads of the latch or calls of the channel.
pub data Point : Type 0 where
  -- Before the load that decides on the first run.
  starting : Point
  -- In the call of `execute`, up to the report on it.
  reconciling : Point
  -- `next_after_reconciliation`: before its first load, its `try_recv`, and its second load.
  after_run polling : Point
  polled : Option Wake → Point
  -- `wait_for_boundary`: before its first load, its `recv`, and its second load.
  waiting receiving : Point
  woken : Wake → Point
  -- Returned, without or with an error.
  stopped failed : Point

-- The thread of `ShutdownSignals::start`: between two signals, or between the `swap` that set the
-- latch and its `try_send`.
pub data SignalThread : Type 0 where
  listening sending : SignalThread

-- The channel holds one wake at most; `connected` says that a sender is left.
pub record Session : Type 0 where
  pub driver : Point
  pub signals : SignalThread
  pub shutdown : Bool
  pub channel : Option Wake
  pub connected : Bool

abbrev pub started : Session
started = record {
  driver = starting;
  signals = listening;
  shutdown = false;
  channel = none;
  connected = true;
}

-- `SyncSender::try_send` on a channel of one place.
abbrev pub try_send : Wake → Option Wake → Option Wake
try_send wake none = some wake
try_send wake (some pending) = some pending

-- The `match` of `run` on the decision.
abbrev pub follow : Next → Point
follow reconcile = reconciling
follow wait = waiting
follow stop = stopped

-- `try_recv`.
abbrev pub poll : Session → Option Wake → Bool → Session
poll s (some wake) connected = record s { driver = polled (some wake); channel = none }
poll s none true = record s { driver = polled none }
poll s none false = record s { driver = failed }

-- `recv`, which blocks on an empty channel as long as a sender is left.
abbrev pub receive : Session → Option Wake → Bool → Option Session
receive s (some wake) connected = some (record s { driver = woken wake; channel = none })
receive s none true = none
receive s none false = some (record s { driver = failed })

-- The driver's next action; `none` if it is blocked or has returned. The run itself succeeds here.
abbrev pub driver_step_at : Point → Session → Option Session
driver_step_at starting s =
    some (record s { driver = follow (if s.shutdown then stop else reconcile) })
driver_step_at reconciling s = some (record s { driver = after_run })
driver_step_at after_run s = some (record s { driver = if s.shutdown then stopped else polling })
driver_step_at polling s = some (poll s s.channel s.connected)
driver_step_at (polled wake) s = some (record s { driver = follow (boundary_next s.shutdown wake) })
driver_step_at waiting s = some (record s { driver = if s.shutdown then stopped else receiving })
driver_step_at receiving s = receive s s.channel s.connected
driver_step_at (woken wake) s =
    some (record s { driver = follow (boundary_next s.shutdown (some wake)) })
driver_step_at stopped s = none
driver_step_at failed s = none

unfoldable pub driver_step : Session → Option Session
driver_step s = driver_step_at s.driver s

-- The first action on a signal: `swap`, and on to the send if the latch was not set.
abbrev pub raise : Session → Session
raise s = record s { shutdown = true; signals = if s.shutdown then listening else sending }

-- The second one.
abbrev pub notify : Session → Session
notify s = record s { channel = try_send control s.channel; signals = listening }

-- `CallbackState::invalidate` of src/live/macos.rs.
abbrev pub invalidate : Session → Session
invalidate s = record s { channel = try_send filesystem s.channel }

-- The threads take turns in any order.
pub data Step : Session → Session → Type 0 where
  drive : (s after : Session) → driver_step s ≡ some after → Step s after
  run_fails : (s : Session) → s.driver ≡ reconciling → Step s (record s { driver = failed })
  signal : (s : Session) → s.signals ≡ listening → s.connected ≡ true → Step s (raise s)
  send : (s : Session) → s.signals ≡ sending → s.connected ≡ true → Step s (notify s)
  invalidation : (s : Session) → s.connected ≡ true → Step s (invalidate s)
  disconnect : (s : Session) → Step s (record s { connected = false })

pub data Reachable : Session → Type 0 where
  at_start : Reachable started
  then_step : (s after : Session) → Reachable s → Step s after → Reachable after

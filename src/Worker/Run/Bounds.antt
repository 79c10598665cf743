-- ===== src/Worker/Run/Bounds.antt =====
-- What holds in every state that Run and runWorker can reach.
use go_leaderboard.Base.{ℕ, ◌+◌, ◌≤◌, ◌≡◌, arith, Bool, true, false}
use go_leaderboard.Worker.{Worker}
use go_leaderboard.Worker.Run.{
  RunPc, LoopPc, System, Step, Steps, selecting, telling, closing_end, closing_stop, returned,
  ended, start, ticked, call_stop, stop_panics, signal, signal_panics, take_stop, tell, tell_panics,
  close_signals, close_end, close_stop, tick, expired, end_received, end_seen, here, next,
}

-- Whether Run is behind a line of its own.
abbrev pub told : RunPc → Bool
told selecting = false
told telling = false
told _ = true

abbrev pub closed_signals : RunPc → Bool
closed_signals closing_end = true
closed_signals closing_stop = true
closed_signals returned = true
closed_signals _ = false

abbrev pub closed_end : RunPc → Bool
closed_end closing_stop = true
closed_end returned = true
closed_end _ = false

abbrev pub closed_stop : RunPc → Bool
closed_stop returned = true
closed_stop _ = false

abbrev pub is_ended : LoopPc → ℕ
is_ended ended = 1
is_ended _ = 0

abbrev pub is_waiting_for_stop : RunPc → ℕ
is_waiting_for_stop selecting = 0
is_waiting_for_stop _ = 1

abbrev pub one_if : Bool → ℕ
one_if true = 1
one_if false = 0

-- The channels are closed once Run is behind their closes; the value sent on shouldEnd is in the
-- buffer until the worker has taken it or seen the end of the channel; somebody asked for the end;
-- a panic comes only after the signals' channel has been closed.
pub record IsSound {W : Type 0} (s : System W) : Type 0 where
  pub signals : s.signals_closed ≡ closed_signals s.run
  pub ends : s.end_closed ≡ closed_end s.run
  pub stops : s.stop_closed ≡ closed_stop s.run
  pub taken : s.should_end + is_ended s.loop ≡ one_if (told s.run)
  pub asked_first : is_waiting_for_stop s.run + s.stop ≤ s.asked
  pub fits : s.stop ≤ 1
  pub late : one_if s.panicked ≤ one_if s.signals_closed

start-IsSound : {W : Type 0} (world : W) → IsSound (start world)
unfolding start
start-IsSound world = ground arith

module _ {W : Type 0} {w : Worker W} where
  pub Step-IsSound : {s t : System W} → Step w s t → IsSound s → IsSound t
  unfolding ticked
  Step-IsSound (call_stop p a b) h = ground arith
  Step-IsSound (stop_panics p a) h = ground arith
  Step-IsSound (signal p a) h = ground arith
  Step-IsSound (signal_panics p a) h = ground arith
  Step-IsSound (take_stop p a b) h = ground arith
  Step-IsSound (tell p a b c) h = ground arith
  Step-IsSound (tell_panics p a b) h = ground arith
  Step-IsSound (close_signals p a) h = ground arith
  Step-IsSound (close_end p a) h = ground arith
  Step-IsSound (close_stop p a) h = ground arith
  Step-IsSound (tick p a) h = ground arith
  Step-IsSound (expired p a) h = ground arith
  Step-IsSound (end_received p a b) h = ground arith
  Step-IsSound (end_seen p a b c) h = ground arith

  pub Steps-IsSound : {s t : System W} → Steps w s t → IsSound s → IsSound t
  Steps-IsSound here h = h
  Steps-IsSound (next r st) h = Step-IsSound st (Steps-IsSound r h)

  pub run-IsSound : (world : W) {s : System W} → Steps w (start world) s → IsSound s
  run-IsSound world r = Steps-IsSound r (start-IsSound world)

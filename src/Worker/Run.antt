-- ===== src/Worker/Run.antt =====
-- Run, runWorker and Stop as two goroutines and their channels, a step at a time. The environment
-- sends signals, lets the ticker fire and calls Stop. A tick takes the outcome of expireMembers when
-- it ends; a receiver of the results that never comes back is a step that never happens.
pub mod Bounds
pub mod Ends
use go_leaderboard.Base.{ℕ, suc, ◌+◌, ◌-◌, ◌<◌, ◌≡◌, ◌≢◌, Bool, true, false, List, [], ◌++◌}
use go_leaderboard.Worker.{Worker, Event, expire_members}

-- Where Run stands: in its select, before `shouldEnd <- true`, before each of its three closes, or
-- behind them.
pub data RunPc : Type 0 where
  selecting telling closing_signals closing_end closing_stop returned : RunPc

-- Where runWorker stands: in its select, in expireMembers, or behind its return.
pub data LoopPc : Type 0 where
  waiting expiring ended : LoopPc

-- `stop` and `should_end` count the values in the buffers of w.stop and shouldEnd, of capacity 1.
-- `asked` counts the signals that Run has received and the calls of Stop.
pub record System (W : Type 0) : Type 0 where
  pub run : RunPc
  pub loop : LoopPc
  pub stop : ℕ
  pub stop_closed : Bool
  pub should_end : ℕ
  pub end_closed : Bool
  pub signals_closed : Bool
  pub asked : ℕ
  pub panicked : Bool
  pub events : List Event
  pub world : W

-- What `configure` and the first lines of Run make.
unfoldable pub start : {W : Type 0} → W → System W
start world = record {
  run = selecting;
  loop = waiting;
  stop = 0;
  stop_closed = false;
  should_end = 0;
  end_closed = false;
  signals_closed = false;
  asked = 0;
  panicked = false;
  events = [];
  world = world;
}

module _ {W : Type 0} (w : Worker W) where
  -- What a finished tick leaves.
  unfoldable pub ticked : System W → System W
  unfolding expire_members
  ticked s =
      let (sent, world') = expire_members w s.world in
      record s { loop = waiting; events = s.events ++ sent; world = world' }

  -- A program that has panicked takes no further step.
  pub data Step (s : System W) : System W → Type 0 where
    -- Stop: `w.stop <- true`, which waits while the buffer is full, and panics on a closed channel.
    call_stop :
        s.panicked ≡ false
        → s.stop_closed ≡ false
        → s.stop ≡ 0
        → Step s (record s { stop = 1; asked = s.asked + 1 })
    stop_panics : s.panicked ≡ false → s.stop_closed ≡ true → Step s (record s { panicked = true })
    -- A signal: the channel has no buffer, so that it is lost unless Run waits for it; os/signal
    -- goes on sending on the channel after it has been closed, and panics.
    signal :
        s.panicked ≡ false
        → s.run ≡ selecting
        → Step s (record s { run = telling; asked = s.asked + 1 })
    signal_panics :
        s.panicked ≡ false → s.signals_closed ≡ true → Step s (record s { panicked = true })
    -- The other case of the select in Run.
    take_stop :
        s.panicked ≡ false
        → s.run ≡ selecting
        → 0 < s.stop
        → Step s (record s { run = telling; stop = s.stop - 1 })
    -- `shouldEnd <- true`
    tell :
        s.panicked ≡ false
        → s.run ≡ telling
        → s.end_closed ≡ false
        → s.should_end ≡ 0
        → Step s (record s { run = closing_signals; should_end = 1 })
    tell_panics :
        s.panicked ≡ false
        → s.run ≡ telling
        → s.end_closed ≡ true
        → Step s (record s { panicked = true })
    -- `close(sigChan)`, `close(shouldEnd)` and `close(w.stop)`
    close_signals :
        s.panicked ≡ false
        → s.run ≡ closing_signals
        → Step s (record s { run = closing_end; signals_closed = true })
    close_end :
        s.panicked ≡ false
        → s.run ≡ closing_end
        → Step s (record s { run = closing_stop; end_closed = true })
    close_stop :
        s.panicked ≡ false
        → s.run ≡ closing_stop
        → Step s (record s { run = returned; stop_closed = true })
    -- runWorker: the ticker fires, and the call of expireMembers comes back.
    tick : s.panicked ≡ false → s.loop ≡ waiting → Step s (record s { loop = expiring })
    expired : s.panicked ≡ false → s.loop ≡ expiring → Step s (ticked s)
    -- runWorker: a value of shouldEnd, or its end.
    end_received :
        s.panicked ≡ false
        → s.loop ≡ waiting
        → 0 < s.should_end
        → Step s (record s { loop = ended; should_end = s.should_end - 1 })
    end_seen :
        s.panicked ≡ false
        → s.loop ≡ waiting
        → s.should_end ≡ 0
        → s.end_closed ≡ true
        → Step s (record s { loop = ended })

  pub data Steps (s : System W) : System W → Type 0 where
    here : Steps s s
    next : {t u : System W} → Steps s t → Step t u → Steps s u

-- ===== src/Worker/Run/Ends.antt =====
-- How the worker comes to its end.
use go_leaderboard.Base.{◌++◌, ◌<◌, ◌≡◌, ◌⊎◌, arith, true, false}
use go_leaderboard.Worker.{Worker, expire_members}
use go_leaderboard.Worker.Run.{
  System, Step, Steps, returned, expiring, ended, start, call_stop, stop_panics, signal,
  signal_panics, take_stop, tell, tell_panics, close_signals, close_end, close_stop, tick, expired,
  end_received, end_seen, here, next,
}
use go_leaderboard.Worker.Run.Bounds.{run-IsSound}

-- What runWorker leaves alone once it has returned.
pub record IsQuiet {W : Type 0} (s t : System W) : Type 0 where
  pub still_ended : t.loop ≡ ended
  pub same_events : t.events ≡ s.events
  pub same_world : t.world ≡ s.world

IsQuiet-trans : {W : Type 0} {s t u : System W} → IsQuiet s t → IsQuiet t u → IsQuiet s u
IsQuiet-trans a b = ground arith

module _ {W : Type 0} (w : Worker W) where
  Step-IsQuiet : {s t : System W} → Step w s t → s.loop ≡ ended → IsQuiet s t
  Step-IsQuiet (call_stop p a b) h = ground arith
  Step-IsQuiet (stop_panics p a) h = ground arith
  Step-IsQuiet (signal p a) h = ground arith
  Step-IsQuiet (signal_panics p a) h = ground arith
  Step-IsQuiet (take_stop p a b) h = ground arith
  Step-IsQuiet (tell p a b c) h = ground arith
  Step-IsQuiet (tell_panics p a b) h = ground arith
  Step-IsQuiet (close_signals p a) h = ground arith
  Step-IsQuiet (close_end p a) h = ground arith
  Step-IsQuiet (close_stop p a) h = ground arith
  Step-IsQuiet (tick p a) h = ground arith
  Step-IsQuiet (expired p a) h = ground arith
  Step-IsQuiet (end_received p a b) h = ground arith
  Step-IsQuiet (end_seen p a b c) h = ground arith

  -- Whatever steps follow once runWorker has returned, it stays so, and neither the events sent
  -- nor the server change.
  pub ended-IsQuiet : {s t : System W} → Steps w s t → s.loop ≡ ended → IsQuiet s t
  ended-IsQuiet here h = ground arith
  ended-IsQuiet (next r st) h =
      let q = ended-IsQuiet r h in IsQuiet-trans q (Step-IsQuiet st q.still_ended)

  -- The end comes only when it was asked for, and Run does not return before that.
  pub ended-asked :
      (world : W) {s : System W}
      → Steps w (start world) s
      → (s.loop ≡ ended) ⊎ (s.run ≡ returned)
      → 0 < s.asked
  ended-asked world r h = ground (arith, run-IsSound world r)

  -- A state behind `s` in which Run has returned and the worker stands where it stood.
  record Returns (s : System W) : Type 0 where
    last : System W
    steps : Steps w s last
    run_returned : last.run ≡ returned
    same_loop : last.loop ≡ s.loop
    calm : last.panicked ≡ false
    events_kept : last.events ≡ s.events
    same_world : last.world ≡ s.world

  -- A state behind `s` in which both have returned; nothing more is sent, or, if a
  -- tick was on its way, what that tick sends.
  pub record Finishes (s : System W) : Type 0 where
    pub last : System W
    pub steps : Steps w s last
    pub run_returned : last.run ≡ returned
    pub loop_ended : last.loop ≡ ended
    pub calm : last.panicked ≡ false
    pub sent :
        (last.events ≡ s.events)
        ⊎ ((s.loop ≡ expiring) × (last.events ≡ s.events ++ (expire_members w s.world).0))

  pub returned-stop_panics :
      (world : W) (s : System W)
      → Steps w (start world) s
      → s.panicked ≡ false
      → s.run ≡ returned
      → Step w s (record s { panicked = true })
  returned-stop_panics world s r p a = stop_panics p (ground (arith, run-IsSound world r))

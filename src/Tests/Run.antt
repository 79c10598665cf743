-- ===== src/Tests/Run.antt =====
-- The worker, started and stopped.
use go_leaderboard.Base.{◌<◌, refl, arith, true, false, inl, []}
use go_leaderboard.Redis.Server.{Store, memory, clock}
use go_leaderboard.Worker.{Worker}
use go_leaderboard.Worker.Served.{worker}
use go_leaderboard.Worker.Run.{
  System, Step, Steps, selecting, returned, waiting, ended, start, call_stop, take_stop, tell,
  close_signals, close_end, close_stop, end_received, here, next,
}
use go_leaderboard.Worker.Run.Ends.{IsQuiet, ended-IsQuiet, ended-asked, returned-stop_panics}
use go_leaderboard.Tests.Board.{store}

abbrev w : Worker Store
w = worker memory clock 10

abbrev stop_called : System Store
stop_called = record {
  run = selecting;
  loop = waiting;
  stop = 1;
  stop_closed = false;
  should_end = 0;
  end_closed = false;
  signals_closed = false;
  asked = 1;
  panicked = false;
  events = [];
  world = store;
}

abbrev over : System Store
over = record stop_called {
  run = returned;
  loop = ended;
  stop = 0;
  stop_closed = true;
  end_closed = true;
  signals_closed = true;
}

call : Steps w (start store) stop_called
unfolding start
call = next here (call_stop refl refl refl)

to_the_end : Steps w (start store) over
to_the_end =
    let told = next (next call (take_stop refl refl (omega arith))) (tell refl refl refl refl) in
    let closing = next (next told (close_signals refl refl)) (close_end refl refl) in
    next (next closing (close_stop refl refl)) (end_received refl refl (omega arith))

end_was_asked_for : 0 < 1
end_was_asked_for = ended-asked w store to_the_end (inl refl)

returned-stop_panics_example : Step w over (record over { panicked = true })
returned-stop_panics_example = returned-stop_panics w store over to_the_end refl refl

IsQuiet-after_end : IsQuiet over (record over { panicked = true })
IsQuiet-after_end = ended-IsQuiet w (next here returned-stop_panics_example) refl

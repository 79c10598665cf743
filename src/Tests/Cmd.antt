-- ===== src/Tests/Cmd.antt =====
-- The smoke test, run against a server that answers everything, and against one that is down.
use go_leaderboard.Base.{ℕ, suc, ◌+◌, ◌≡◌, refl, true, []}
use go_leaderboard.Base.Int.{pos}
use go_leaderboard.Base.Effect.{ok, err}
use go_leaderboard.Base.Bytes.{codes}
use go_leaderboard.Cmd.Smoke.{Http, smoke, do_health_check, do_request, check, answer_of}
use go_leaderboard.Cmd.Passes.{IsUp, smoke_lem}

abbrev up : Http ℕ
up = record {
  new_request = λ method url body. true;
  do_request = λ method url body n.
      (ok (record { status_code = pos 200; read = ok (codes "WORKING") }), suc n);
}

up-IsUp : IsUp up [] (λ n. n)
up-IsUp = record {
  requests = λ method url body. refl;
  replies = λ method url body w. (codes "WORKING", suc w, refl, refl);
  health = λ w. (suc w, refl, refl);
}

smoke_passes : (n : ℕ) × (smoke up [] (codes "lb") 0 ≡ (ok tt, n)) × (n ≡ 0 + 506)
smoke_passes = smoke_lem up [] (λ n. n) up-IsUp (codes "lb") 0

abbrev down : Http ℕ
down = record {
  new_request = λ method url body. true;
  do_request = λ method url body n. (err (codes "refused"), suc n);
}

unreachable :
    do_health_check down (codes "x") 0 ≡ (err (codes "Could not reach x. Error: refused"), 1)
unfolding do_health_check do_request check answer_of
unreachable = refl

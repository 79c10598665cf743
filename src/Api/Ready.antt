-- ===== src/Api/Ready.antt =====
-- WaitForReady of api/app.go: it waits for the gRPC server and then for the HTTP server. Times are
-- counted from the call; a value that is there when the timer fires is taken.
use go_leaderboard.Base.{
  ℕ, ◌+◌, ◌≤◌, ◌<◌, ◌≡◌, leb, arith, Bool, true, false, if◌then◌else◌, Option, none, some,
}
use Prim.Native.Nat.{max}

-- isReady: whether the value comes within d from `now`, and when the wait is over. A channel gets its
-- value at a time, or never.
unfoldable pub is_ready : ℕ → ℕ → Option ℕ → Bool × ℕ
is_ready d now none = (false, now + d)
is_ready d now (some t) = if leb t (now + d) then (true, max now t) else (false, now + d)

-- `isReady(app.grpcReady) && isReady(app.httpReady)`: the second wait begins when the first ended.
unfoldable pub wait_both : ℕ → Bool × ℕ → Option ℕ → Bool × ℕ
unfolding is_ready
wait_both d (true, now) http_ready = is_ready d now http_ready
wait_both d (false, now) http_ready = (false, now)

unfoldable pub wait_for_ready : ℕ → Option ℕ → Option ℕ → Bool × ℕ
unfolding is_ready wait_both
wait_for_ready d grpc_ready http_ready = wait_both d (is_ready d 0 grpc_ready) http_ready

-- It succeeds if both are ready in time, and it may take twice the time that it was given.
pub wait_for_ready_bounds :
    (d : ℕ) (grpc_ready http_ready : Option ℕ) → (wait_for_ready d grpc_ready http_ready).1 ≤ d + d
unfolding wait_for_ready
wait_for_ready_bounds d none h = omega arith
wait_for_ready_bounds d (some t) none = ground arith
wait_for_ready_bounds d (some t) (some u) = ground arith

pub wait_for_ready-late :
    (d t u : ℕ) → t ≤ d → d < u → u ≤ t + d → wait_for_ready d (some t) (some u) ≡ (true, u)
unfolding wait_for_ready
wait_for_ready-late d t u a b c = ground arith

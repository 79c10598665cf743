-- ===== src/Api/Endpoints.antt =====
-- api/healthcheck.go, api/status.go, the failure message of api/helpers.go, the version headers of
-- api/middleware.go and the error reply of api/app.go. net/http's ResponseWriter is a parameter, as
-- are the marshaler of the gateway and the printing of a float64 by encoding/json.
use go_leaderboard.Base.{ℕ, ◌==◌, ◌||◌, Bool, false, if◌then◌else◌, [], ◌∷◌, ◌++◌}
use mathlib.Core.List.{reverse}
use go_leaderboard.Base.Int.{ℤ, pos}
use go_leaderboard.Base.Effect.{M, Outcome, ok, err, panic, pure, fail, handle}
use go_leaderboard.Base.Bytes.{Text, codes}
use go_leaderboard.Go.Float.{Float64}
use go_leaderboard.Go.Json.{Json, bool, num, str, obj, field, done}
use go_leaderboard.Go.Json.Print.{print}
use go_leaderboard.Service.Errors.{ServiceError, message}
use go_leaderboard.Service.Reads as Reads
use go_leaderboard.Api.Defs.{App, ApiError, status, internal}

-- What a handler of net/http writes to. A write may fail, and the code then only logs the error.
pub record ResponseWriter (W : Type 0) : Type 0 where
  pub set_header : Text → Text → W → W
  pub add_header : Text → Text → W → W
  pub write_header : ℤ → W → W
  pub write : Text → W → Outcome Text ℕ × W

unfoldable pub new_fail_msg : Text → Text
new_fail_msg msg = codes "{\"success\":false,\"reason\":\"" ++ (msg ++ codes "\"}")

-- strings.TrimSpace, for a text of ASCII.
abbrev is_space : ℕ → Bool
is_space c = (c == 32) || ((c == 9) || ((c == 10) || ((c == 11) || ((c == 12) || (c == 13)))))

trim_left : Text → Text
trim_left [] = []
trim_left (c ∷ s) = let rest = trim_left s in if is_space c then rest else c ∷ s

unfoldable pub trim_space : Text → Text
unfolding trim_left
trim_space s = reverse (trim_left (reverse (trim_left s)))

module _ {W : Type 0} (writer : ResponseWriter W) where
  -- The answer to a GET of /healthcheck, by what the service says.
  unfoldable pub health_answer : Text → Outcome ServiceError (Unit {0}) × W → Outcome Text ℕ × W
  unfolding new_fail_msg
  health_answer working_string (ok _, w) = writer.write working_string w
  health_answer working_string (err e, w) =
      writer.write (new_fail_msg (codes "Error connecting to redis: " ++ message e))
        (writer.write_header (pos 500) w)
  health_answer working_string (panic, w) = (panic, w)

  unfoldable pub health_check_handler : App W → Text → W → Outcome Text ℕ × W
  unfolding health_answer
  health_check_handler app working_string w = health_answer working_string (
      Reads.healthcheck app.leaderboards
        (writer.add_header (codes "Content-Type") (codes "text/plain; charset=utf-8") w))

  -- The payload of the status has an object in an object, and Marshal cannot fail on a finite rate.
  unfoldable pub status_payload : (Float64 → Text) → Float64 → Json
  status_payload format_float rate =
      obj
        (field (codes "app") (obj (field (codes "errorRate") (num (format_float rate)) done)) done)

  unfoldable pub status_handler : (Float64 → Text) → (W → Float64) → W → Outcome Text ℕ × W
  unfolding status_payload
  status_handler format_float rate w =
      let w' = writer.add_header (codes "Content-Type") (codes "application/json") w in
      writer.write (print (status_payload format_float (rate w'))) w'

  -- VERSION is a constant of the package api.
  unfoldable pub add_version_headers : Text → W → W
  add_version_headers version w =
      let value = codes "Podium/v" ++ version in
      writer.set_header (codes "Podium-Server") value (writer.set_header (codes "Server") value w)

  -- Both addVersionMiddleware and addVersionHandlerFunc put the headers before the handler.
  unfoldable pub add_version : {R A : Type 0} → Text → (R → W → A) → R → W → A
  unfolding add_version_headers
  add_version version handler r w = handler r (add_version_headers version w)

  unfoldable pub error_body : Text → Json
  error_body reason =
      obj (field (codes "success") (bool false) (field (codes "reason") (str reason) done))

  -- runtime.HTTPError, by the status of the error, its message and the text that the marshaler made.
  unfoldable pub http_error : Text → ℤ → Outcome Text Text → W → Outcome Text ℕ × W
  http_error content_type code marshalled w =
      let w' = writer.write_header code (writer.set_header (codes "Content-Type") content_type w) in
      elim marshalled [ ok buf ↦ writer.write buf w' | err e ↦ (err e, w') | panic ↦ (panic, w') ]

-- HealthCheck of the gRPC server.
unfoldable pub health_check : {W : Type 0} → App W → Text → M W ApiError Text
unfolding trim_space
health_check app working_string =
    handle (Reads.healthcheck app.leaderboards)
      (λ e. fail (status internal (codes "Error trying to ping redis: " ++ message e)))
      (λ _. pure (trim_space working_string))

-- Status of the gRPC server.
unfoldable pub status_rpc : {W : Type 0} → (W → Float64) → M W ApiError Float64
status_rpc rate w = (ok (rate w), w)

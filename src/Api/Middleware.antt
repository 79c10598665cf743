-- ===== src/Api/Middleware.antt =====
-- api/middleware.go, and from api/app.go the status of an error and the chain of the gRPC server.
-- gRPC, its middlewares, zap, statsd, sentry and New Relic are parameters.
pub mod Passed
pub mod Slashes
use go_leaderboard.Base.{
  ◌&&◌, not, Bool, ◌≡◌, if◌then◌else◌, Option, none, some, List, [], ◌∷◌, ◌++◌,
}
use go_leaderboard.Base.Int.{ℤ, pos, ltb_ℤ}
use go_leaderboard.Base.Effect.{Outcome, ok, err, panic}
use go_leaderboard.Base.Bytes.{Text, codes, eq}
use go_leaderboard.Go.Strconv.{format_int}
use go_leaderboard.Go.Base64.{encode_to_string}
use go_leaderboard.Go.Time.{Time}
use go_leaderboard.Api.Defs.{Code, ApiError, status, unauthenticated}

-- What a handler of gRPC comes back with: a response that may be nil and an error that may be nil,
-- or a panic with its value as text.
pub data Returned (A : Type 0) : Type 0 where
  returned : Option A → Option ApiError → Returned A
  panicked : Text → Returned A

-- A handler takes a context and a request.
abbrev pub Handler : Type 0 → Type 0 → Type 0 → Type 0 → Type 0
Handler W C R A = C → R → W → Returned A × W

-- An interceptor has the full name of the method and the handler that it stands in front of.
abbrev pub Interceptor : Type 0 → Type 0 → Type 0 → Type 0 → Type 0
Interceptor W C R A = Text → Handler W C R A → Handler W C R A

-- google.golang.org/grpc/status, runtime.HTTPStatusFromCode, grpc_auth and grpc_middleware.
-- `from_error` gives no code for an error that is none of the package status.
pub record Grpc (W C R A : Type 0) : Type 0 where
  pub from_error : Option ApiError → Option Code
  pub http_status_from_code : Code → ℤ
  pub auth_from_md : C → Text → Outcome ApiError Text
  pub auth_interceptor : (C → Outcome ApiError C) → Interceptor W C R A
  pub chain_unary_server : List (Interceptor W C R A) → Interceptor W C R A

-- The logger (method, status, message), DogStatsD, sentry and New Relic as changes of the state, and
-- time.Now(). `timing` takes the times before and after the handler, and the tags.
pub record Tools (W C R : Type 0) : Type 0 where
  pub log_debug : Text → ℤ → Text → W → W
  pub log_panic : Text → W → W
  pub capture_panic : Text → W → W
  pub capture_error : Text → R → ℤ → ApiError → W → W
  pub timing : Time → Time → List Text → W → W
  pub clock : W → Time × W
  pub start_transaction : Text → W → W
  pub with_transaction : C → C
  pub notice_error : ApiError → W → W
  pub end_transaction : W → W

-- What follows a call that came back; a panic goes past it.
unfoldable pub after :
    {W A : Type 0}
    → Returned A × W
    → (Option A → Option ApiError → W → Returned A × W)
    → Returned A × W
after (returned h e, w) k = k h e w
after (panicked v, w) k = (panicked v, w)

unfoldable pub get_status_code_from_error : {W C R A : Type 0} → Grpc W C R A → Option ApiError → ℤ
get_status_code_from_error grpc e = elim (grpc.from_error e) [
  | none ↦ pos 500
  | some c ↦ grpc.http_status_from_code c
]

-- The message that a status is logged with.
unfoldable pub outcome_message : ℤ → Text
outcome_message code =
    if ltb_ℤ (pos 399) code && ltb_ℤ code (pos 500)
    then codes "Request failed."
    else if ltb_ℤ (pos 499) code
    then codes "Response failed."
    else codes "Request successful."

module _ {W C R : Type 0} (tools : Tools W C R) where
  unfoldable pub on_error_handler : Text → W → W
  on_error_handler v w = tools.capture_panic v (tools.log_panic v w)

  -- The results of the function have no names, so that they are nil once it has recovered.
  unfoldable pub recovered : {A : Type 0} → Returned A × W → Returned A × W
  unfolding on_error_handler
  recovered (returned h e, w) = (returned h e, w)
  recovered (panicked v, w) = (returned none none, on_error_handler v w)

  unfoldable pub notice : Option ApiError → W → W
  notice none w = w
  notice (some e) w = tools.notice_error e w

  -- The deferred call of txn.End() runs after a panic too.
  unfoldable pub ended : {A : Type 0} → Returned A × W → Returned A × W
  ended (r, w) = (r, tools.end_transaction w)

module _ {W C R A : Type 0} (grpc : Grpc W C R A) (tools : Tools W C R)
    (username password : Text) where
  unfoldable pub no_auth_middleware : Interceptor W C R A
  no_auth_middleware method handler ctx req = handler ctx req

  -- The context if the token is the right one.
  unfoldable pub check_token : C → Outcome ApiError Text → Outcome ApiError C
  check_token ctx (ok token) =
      if not (eq token (encode_to_string (username ++ (codes ":" ++ password))))
      then err (status unauthenticated (codes "invalid auth token"))
      else ok ctx
  check_token ctx (err e) = err e
  check_token ctx panic = panic

  unfoldable pub basic_auth_middleware : C → Outcome ApiError C
  unfolding check_token
  basic_auth_middleware ctx = check_token ctx (grpc.auth_from_md ctx (codes "basic"))

  unfoldable pub logger_middleware : Interceptor W C R A
  unfolding after get_status_code_from_error outcome_message
  logger_middleware method handler ctx req w = after (handler ctx req (tools.clock w).1) λ h e w'.
      let code = get_status_code_from_error grpc e in
      (returned h e, tools.log_debug method code (outcome_message code) (tools.clock w').1)

  unfoldable pub recovery_middleware : Interceptor W C R A
  unfolding recovered
  recovery_middleware method handler ctx req w = recovered tools (handler ctx req w)

  unfoldable pub response_time_metrics_middleware : Interceptor W C R A
  unfolding after get_status_code_from_error
  response_time_metrics_middleware method handler ctx req w =
      let (start_time, w0) = tools.clock w in
      after (handler ctx req w0) λ h e w'.
        let (end_time, w'') = tools.clock w' in
        let st = get_status_code_from_error grpc e in
        (
          returned h e,
          tools.timing start_time end_time
              ((codes "method:" ++ method) ∷ (codes "status:" ++ format_int st) ∷ []) w'',
        )

  -- Only errors of the server go to sentry.
  unfoldable pub sentry_report : Text → R → Option ApiError → W → W
  unfolding get_status_code_from_error
  sentry_report method req none w = w
  sentry_report method req (some e) w =
      let code = get_status_code_from_error grpc (some e) in
      if ltb_ℤ code (pos 500) then w else tools.capture_error method req code e w

  unfoldable pub sentry_middleware : Interceptor W C R A
  unfolding after sentry_report
  sentry_middleware method handler ctx req w =
      after (handler ctx req w) λ h e w'. (returned h e, sentry_report method req e w')

  unfoldable pub new_relic_middleware : Interceptor W C R A
  unfolding after notice ended
  new_relic_middleware method handler ctx req w = ended tools (
      after (handler (tools.with_transaction ctx) req (tools.start_transaction method w))
        λ h e w'. (returned h e, notice tools e w'))

  -- What startGRPCServer puts in front of the handlers.
  unfoldable pub basic_auth_interceptor : Interceptor W C R A
  unfolding no_auth_middleware basic_auth_middleware
  basic_auth_interceptor =
      if eq username [] then no_auth_middleware else grpc.auth_interceptor basic_auth_middleware

  unfoldable pub server_interceptor : Interceptor W C R A
  unfolding basic_auth_interceptor logger_middleware recovery_middleware
      response_time_metrics_middleware sentry_middleware new_relic_middleware
  server_interceptor = grpc.chain_unary_server (
      basic_auth_interceptor ∷ logger_middleware ∷ recovery_middleware
      ∷ response_time_metrics_middleware ∷ sentry_middleware ∷ new_relic_middleware ∷ [])

-- ===== src/Api/Middleware/Passed.antt =====
-- What a request meets on its way to the handler and back.
use go_leaderboard.Base.{
  ◌⊎◌, ◌≡◌, refl, true, false, Option, none, some, List, [], ◌∷◌, ◌++◌, inl, inr,
}
use go_leaderboard.Base.Int.{pos}
use go_leaderboard.Base.Effect.{Outcome, ok, err}
use go_leaderboard.Base.Bytes.{Text, codes, eq, eq_refl}
use go_leaderboard.Go.Base64.{encode_to_string}
use go_leaderboard.Api.Defs.{ApiError, status, unauthenticated, ok_code}
use go_leaderboard.Api.Middleware.{
  returned, panicked, Handler, Interceptor, Grpc, Tools, server_interceptor, basic_auth_interceptor,
  basic_auth_middleware, check_token, no_auth_middleware, logger_middleware, recovery_middleware,
  recovered, response_time_metrics_middleware, sentry_middleware, new_relic_middleware, ended,
  after, get_status_code_from_error, outcome_message, on_error_handler,
}

-- What gRPC's middlewares do: a chain runs from its first to its last, and the interceptor of
-- grpc_auth runs the handler in the context that it is given, or answers with the error.
pub record ChainLaws {W C R A : Type 0} (grpc : Grpc W C R A) : Type 0 where
  pub chain_nil :
      (method : Text) (handler : Handler W C R A)
      → grpc.chain_unary_server [] method handler ≡ handler
  pub chain_cons :
      (i : Interceptor W C R A) (is : List (Interceptor W C R A)) (method : Text)
      (handler : Handler W C R A)
      → grpc.chain_unary_server (i ∷ is) method handler
        ≡ i method (grpc.chain_unary_server is method handler)
  pub auth_ok :
      (check : C → Outcome ApiError C) (method : Text) (handler : Handler W C R A) (ctx ctx' : C)
      (req : R) (w : W)
      → check ctx ≡ ok ctx'
      → grpc.auth_interceptor check method handler ctx req w ≡ handler ctx' req w
  pub auth_err :
      (check : C → Outcome ApiError C) (method : Text) (handler : Handler W C R A) (ctx : C)
      (req : R) (w : W) (e : ApiError)
      → check ctx ≡ err e
      → grpc.auth_interceptor check method handler ctx req w ≡ (returned none (some e), w)

module _ {W C R A : Type 0} (grpc : Grpc W C R A) (laws : ChainLaws grpc) (tools : Tools W C R)
    (username password : Text) (method : Text) (handler : Handler W C R A) (ctx : C) (req : R)
    (w : W) where
  -- The base64 text of user and password.
  abbrev pub right_token : Text
  right_token = encode_to_string (username ++ (codes ":" ++ password))

  -- The handler with all but the first of the interceptors in front of it.
  watched : Handler W C R A
  watched = logger_middleware grpc tools username password method (
      recovery_middleware grpc tools username password method (
        response_time_metrics_middleware grpc tools username password method (
          sentry_middleware grpc tools username password method
            (new_relic_middleware grpc tools username password method handler))))

  nested :
      server_interceptor grpc tools username password method handler
      ≡ basic_auth_interceptor grpc tools username password method watched
  unfolding server_interceptor watched
  nested = rw (
    laws.chain_cons, laws.chain_cons, laws.chain_cons, laws.chain_cons, laws.chain_cons,
    laws.chain_cons, laws.chain_nil,
  )

  -- With a user configured and middlewares of gRPC that keep to their documentation, a request
  -- whose basic token is not the base64 text of user and password gets the error Unauthenticated
  -- and no response, and nothing else happens: neither the handler nor a later interceptor changes
  -- the state.
  pub server_interceptor-unauthorized :
      (token : Text)
      → eq username [] ≡ false
      → grpc.auth_from_md ctx (codes "basic") ≡ ok token
      → eq token right_token ≡ false
      → server_interceptor grpc tools username password method handler ctx req w
        ≡ (returned none (some (status unauthenticated (codes "invalid auth token"))), w)
  unfolding basic_auth_interceptor basic_auth_middleware check_token
  server_interceptor-unauthorized token named sent wrong =
      rw nested
        (rw named (laws.auth_err _ method _ ctx req w _ (rw (sent, check_token) (rw wrong refl))))

  -- No user is configured, or the request has the token of the user and password.
  abbrev pub IsAuthorized : Type 0
  IsAuthorized =
      (eq username [] ≡ true)
      ⊎ ((eq username [] ≡ false) × (grpc.auth_from_md ctx (codes "basic") ≡ ok right_token))

  authorized :
      IsAuthorized
      → server_interceptor grpc tools username password method handler ctx req w ≡ watched ctx req w
  unfolding basic_auth_interceptor basic_auth_middleware check_token no_auth_middleware
  authorized (inl e) = rw nested (rw e refl)
  authorized (inr (e, sent)) = rw nested (
      rw e (
        laws.auth_ok _ method _ ctx ctx req w
          (rw (sent, check_token) (rw (eq_refl right_token) refl))))

  -- The state in which the handler is called.
  abbrev pub state_before : W
  state_before = tools.start_transaction method (tools.clock (tools.clock w).1).1

  -- With middlewares of gRPC that keep to their documentation, if no user is configured or the
  -- request has the base64 text of user and password, and the handler, called in the context and
  -- state that the interceptors make, comes back without a panic, then the response and the error
  -- of the whole chain are those of the handler.
  pub server_interceptor-authorized :
      (h : Option A) (e : Option ApiError) (w' : W)
      → IsAuthorized
      → handler (tools.with_transaction ctx) req state_before ≡ (returned h e, w')
      → (server_interceptor grpc tools username password method handler ctx req w).0 ≡ returned h e
  unfolding watched logger_middleware recovery_middleware response_time_metrics_middleware
      sentry_middleware new_relic_middleware after recovered ended
  server_interceptor-authorized h e w' fine answered = rw (authorized fine) (rw answered refl)

  -- Under the same conditions, if the handler panics, the transaction is ended and the panic
  -- logged and captured, but the chain comes back with neither a response nor an error, and the
  -- request is logged as successful, given that no error has the code OK and that the status 200.
  pub server_interceptor-panicked :
      (v : Text) (w' : W)
      → IsAuthorized
      → handler (tools.with_transaction ctx) req state_before ≡ (panicked v, w')
      → grpc.from_error none ≡ some ok_code
      → grpc.http_status_from_code ok_code ≡ pos 200
      → server_interceptor grpc tools username password method handler ctx req w ≡ (
        returned none none,
        tools.log_debug method
            (pos 200)
            (codes "Request successful.")
            (tools.clock (tools.capture_panic v (tools.log_panic v (tools.end_transaction w')))).1,
      )
  unfolding watched logger_middleware recovery_middleware response_time_metrics_middleware
      sentry_middleware new_relic_middleware after recovered ended on_error_handler
      get_status_code_from_error outcome_message
  server_interceptor-panicked v w' fine crashed nil_code two_hundred =
      rw (authorized fine) (rw (crashed, nil_status) refl)
    where
      nil_status : get_status_code_from_error grpc none ≡ pos 200
      nil_status = rw (nil_code, get_status_code_from_error) two_hundred

-- ===== src/Tests/Middleware.antt =====
-- The chain of the gRPC server, run over middlewares written out; the state is the list of what was
-- logged.
use go_leaderboard.Base.{◌≡◌, refl, Option, none, some, inl, inr, List, [], ◌∷◌}
use go_leaderboard.Base.Int.{ℤ, pos}
use go_leaderboard.Base.Effect.{Outcome, ok, err, panic}
use go_leaderboard.Base.Bytes.{Text, codes, eq}
use go_leaderboard.Go.Base64.{encode_to_string}
use go_leaderboard.Go.Time.{at}
use go_leaderboard.Api.Defs.{
  ApiError, Code, status, service, unauthenticated, ok_code, invalid_argument, not_found, internal,
}
use go_leaderboard.Api.Middleware.{
  Returned, returned, panicked, Handler, Interceptor, Grpc, Tools, server_interceptor,
}
use go_leaderboard.Api.Middleware.Slashes.{remove_trailing_slash, remove_trailing_slash_lem}
use go_leaderboard.Api.Middleware.Passed.{
  ChainLaws, server_interceptor-unauthorized, server_interceptor-authorized,
  server_interceptor-panicked,
}

-- The state, the context (the token), the request and the response.
abbrev Logged : Type 0
Logged = List Text

abbrev Here : Type 0
Here = Interceptor Logged Text Text Text

abbrev http_status : Code → ℤ
http_status ok_code = pos 200
http_status invalid_argument = pos 400
http_status not_found = pos 404
http_status unauthenticated = pos 401
http_status internal = pos 500

abbrev code_of : Option ApiError → Option Code
code_of none = some ok_code
code_of (some (status c m)) = some c
code_of (some (service e)) = none

abbrev chained : List Here → Here
chained [] method handler = handler
chained (i ∷ is) method handler = i method (chained is method handler)

abbrev entered :
    Outcome ApiError Text → Handler Logged Text Text Text → Text → Logged → Returned Text × Logged
entered (ok ctx) handler req w = handler ctx req w
entered (err e) handler req w = (returned none (some e), w)
entered panic handler req w = (panicked [], w)

abbrev grpc : Grpc Logged Text Text Text
grpc = record {
  from_error = code_of;
  http_status_from_code = http_status;
  auth_from_md = λ ctx scheme. ok ctx;
  auth_interceptor = λ check method handler ctx. entered (check ctx) handler;
  chain_unary_server = chained;
}

laws : ChainLaws grpc
laws = record {
  chain_nil = λ method handler. refl;
  chain_cons = λ i is method handler. refl;
  auth_ok = λ check method handler ctx ctx' req w e. rw e refl;
  auth_err = λ check method handler ctx req w e h. rw h refl;
}

abbrev tools : Tools Logged Text Text
tools = record {
  log_debug = λ method code message w. message ∷ w;
  log_panic = λ v w. v ∷ w;
  capture_panic = λ v w. w;
  capture_error = λ method req code e w. w;
  timing = λ before behind tags w. w;
  clock = λ w. (at (pos 0) 0, w);
  start_transaction = λ method w. w;
  with_transaction = λ ctx. ctx;
  notice_error = λ e w. w;
  end_transaction = λ w. w;
}

abbrev echo : Handler Logged Text Text Text
echo ctx req w = (returned (some req) none, w)

abbrev broken : Handler Logged Text Text Text
broken ctx req w = (panicked (codes "nil"), w)

abbrev admin : Text
admin = codes "admin"

server_interceptor-unauthorized_example :
    server_interceptor grpc tools admin admin (codes "/m") echo (codes "guess") (codes "hi") []
    ≡ (returned none (some (status unauthenticated (codes "invalid auth token"))), [])
unfolding eq encode_to_string
server_interceptor-unauthorized_example =
    server_interceptor-unauthorized grpc laws tools admin admin (codes "/m") echo (codes "guess")
      (codes "hi") [] (codes "guess") refl refl refl

server_interceptor-authorized_example :
    (server_interceptor grpc tools admin admin
      (codes "/m")
      echo
      (codes "YWRtaW46YWRtaW4=")
      (codes "hi")
      []).0
    ≡ returned (some (codes "hi")) none
unfolding eq encode_to_string
server_interceptor-authorized_example =
    server_interceptor-authorized grpc laws tools admin admin (codes "/m") echo
      (codes "YWRtaW46YWRtaW4=") (codes "hi") [] (some (codes "hi")) none [] (inr (refl, refl)) refl

server_interceptor-panicked_example :
    server_interceptor grpc tools [] [] (codes "/m") broken [] (codes "hi") []
    ≡ (returned none none, codes "Request successful." ∷ codes "nil" ∷ [])
unfolding eq
server_interceptor-panicked_example =
    server_interceptor-panicked grpc laws tools [] [] (codes "/m") broken [] (codes "hi") []
      (codes "nil") [] (inl refl) refl refl refl

one_slash_goes : remove_trailing_slash (codes "/l//") ≡ codes "/l/"
one_slash_goes = remove_trailing_slash_lem b'/' (codes "l/") b'/'

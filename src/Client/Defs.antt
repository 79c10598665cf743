-- ===== src/Client/Defs.antt =====
-- The types of client/client.go, and sendTo. The context is left out: it cancels a request, which
-- net/http reports as an error. The configuration is only read by NewPodium.
use mathlib.Core.Option
use go_leaderboard.Base.{Option, ◌++◌, if◌then◌else◌}
use go_leaderboard.Base.Int.{ℤ, pos, ltb_ℤ}
use go_leaderboard.Base.Effect.{M, Outcome, pure, fail, handle}
use go_leaderboard.Base.Bytes.{Text, codes}
use go_leaderboard.Go.Strconv.{format_int}
use go_leaderboard.Go.Json.{Json}
use go_leaderboard.Go.Json.Print.{print}
use go_leaderboard.Go.Json.Decode.{DecodeError}

pub record RequestError : Type 0 where
  pub status_code : ℤ
  pub body : Text

unfoldable pub new_request_error : ℤ → Text → RequestError
new_request_error status_code body = record { status_code = status_code; body = body }

unfoldable pub error_message : RequestError → Text
error_message r =
    codes "Request error. Status code: "
    ++ (format_int r.status_code ++ (codes ". Body: " ++ r.body))

unfoldable pub status : RequestError → ℤ
status r = r.status_code

-- An error of net/http by its message, the client's own, and one of json.Unmarshal.
pub data ClientError : Type 0 where
  http : Text → ClientError
  request : RequestError → ClientError
  decoding : DecodeError → ClientError

-- A request with the headers Content-Type and, for basic authentication, the user and password.
pub record Request : Type 0 where
  pub method : Text
  pub url : Text
  pub body : Option Text
  pub content_type : Text
  pub user : Text
  pub pass : Text

-- A response, with what reading its body to the end gives.
pub record Response : Type 0 where
  pub status_code : ℤ
  pub read : Outcome Text Text

-- net/http: NewRequest refuses a bad method or URL, and Do talks to the server.
pub record Http (W : Type 0) : Type 0 where
  pub new_request : Text → Text → Outcome Text Text
  pub do_request : Request → M W Text Response

pub record Podium (W : Type 0) : Type 0 where
  pub http_client : Http W
  pub base_url : Text
  pub user : Text
  pub pass : Text

-- Score has the same fields as Member.
pub record Member : Type 0 where
  pub leaderboard_id : Text
  pub public_id : Text
  pub score : ℤ
  pub rank : ℤ
  pub previous_rank : ℤ

-- A body whose status is above 399 becomes an error.
unfoldable pub check_status : {W : Type 0} → ℤ → Text → M W ClientError Text
unfolding new_request_error
check_status code body =
    if ltb_ℤ (pos 399) code then fail (request (new_request_error code body)) else pure body

-- ioutil.ReadAll(resp.Body), and the check of the status after it.
unfoldable pub read_body : {W : Type 0} → Response → M W ClientError Text
unfolding check_status
read_body r = handle (λ w. (r.read, w)) (λ e. fail (http e)) (check_status r.status_code)

module _ {W : Type 0} (p : Podium W) where
  unfoldable pub request_for : Text → Text → Option Text → Request
  request_for method url body = record {
    method = method;
    url = url;
    body = body;
    content_type = codes "application/json";
    user = p.user;
    pass = p.pass;
  }

  -- json.Marshal cannot fail on the payloads of this client; a nil payload sends no body.
  unfoldable pub send_to : Text → Text → Option Json → M W ClientError Text
  unfolding read_body request_for
  send_to method url payload =
      handle (λ w. (p.http_client.new_request method url, w)) (λ e. fail (http e))
        λ checked.
          handle (p.http_client.do_request (request_for method checked (Option.map print payload)))
            (λ e. fail (http e)) read_body

-- ===== src/Client/Sent.antt =====
-- What comes back from one request of the client.
use mathlib.Core.Option
use go_leaderboard.Base.{
  ◌≡◌, ◌++◌, refl, ◌∙◌, ap, Bool, false, if◌then◌else◌, Option, none, some, [], Bool-cases, inl,
  inr,
}
use go_leaderboard.Base.Int.{ℤ, pos, ltb_ℤ}
use go_leaderboard.Base.Effect.{ok}
use go_leaderboard.Base.Bytes.{Text, codes, eq}
use go_leaderboard.Go.Word.{IsInt64}
use go_leaderboard.Go.Digits.{parse_int-format_int}
use go_leaderboard.Go.Strconv.{format_int}
use go_leaderboard.Go.Json.{Json, bool, str, obj, field, done}
use go_leaderboard.Go.Json.Print.{print}
use go_leaderboard.Go.Json.Parse.{parse}
use go_leaderboard.Go.Json.Decode.{
  Decoder, DecodeError, unmarshal, int, string, struct, same_key, fill_fields,
}
use go_leaderboard.Client.Defs.{Podium, Member, Response, request, request_for, send_to}
use go_leaderboard.Client.Urls.{build_update_score_url, build_increment_score_url}
use go_leaderboard.Client.Answers.{zero_member, zero_member_list, decode_member, decode_member_list}
use go_leaderboard.Client.Calls.{
  decoded, exchange, integer, score_payload, increment_payload, update_score, increment_score,
}

unmarshal-parse :
    {A : Type 0} (fill : Decoder A) (body : Text) (a : A) (v : Json)
    → parse body ≡ some v
    → unmarshal fill body a ≡ fill v a
unfolding unmarshal
unmarshal-parse fill body a v e = rw (e, unmarshal)

module _ {W : Type 0} (p : Podium W) (method url u : Text) (payload : Option Json) (w : W)
    (checked : p.http_client.new_request method url ≡ ok u) where
  pub exchange-sent :
      {A : Type 0} (fill : Decoder A) (zero_value : A) (r : Response) (body : Text) (w' : W)
      → p.http_client.do_request (request_for p method u (Option.map print payload)) w ≡ (ok r, w')
      → r.read ≡ ok body
      → exchange p method url payload fill zero_value w ≡ (
        if ltb_ℤ (pos 399) r.status_code
            then some (none, some (request (record { status_code = r.status_code; body = body })))
            else decoded (unmarshal fill body zero_value),
        w',
      )
  unfolding exchange send_to
  exchange-sent fill zero_value r body w' sent whole =
      elim (Bool-cases (ltb_ℤ (pos 399) r.status_code)) [
        | inl e ↦ rw (checked, sent, whole, e) refl
        | inr e ↦ rw (checked, sent, whole, e) refl
      ]

  -- An answer below 400 whose body decodes without an error.
  exchange-decoded :
      {A : Type 0} (fill : Decoder A) (zero_value a : A) (r : Response) (body : Text) (v : Json)
      (w' : W)
      → p.http_client.do_request (request_for p method u (Option.map print payload)) w ≡ (ok r, w')
      → r.read ≡ ok body
      → ltb_ℤ (pos 399) r.status_code ≡ false
      → parse body ≡ some v
      → fill v zero_value ≡ (a, none)
      → exchange p method url payload fill zero_value w ≡ (some (some a, none), w')
  unfolding decoded
  exchange-decoded {A} fill zero_value a r body v w' sent whole fine read filled =
      exchange-sent fill zero_value r body w' sent whole
      ∙ rw fine (
          ap (λ (x : A × Option DecodeError). (decoded x, w'))
            (unmarshal-parse fill body zero_value v read ∙ filled))

-- The JSON of the API for one member: the response of UpsertScore and of IncrementScore.
abbrev pub member_answer : Bool → Text → ℤ → ℤ → ℤ → ℤ → Json
member_answer success public_id score rank previous_rank expire_at = obj (
    field (codes "success") (bool success) (
      field (codes "publicID") (str public_id) (
        field (codes "score") (integer score) (
          field (codes "rank") (integer rank) (
            field (codes "previousRank") (integer previous_rank)
              (field (codes "expireAt") (integer expire_at) done))))))

int-integer : (n old : ℤ) → IsInt64 n → int (integer n) old ≡ (n, none)
unfolding int
int-integer n old h = rw (parse_int-format_int n h)

-- The member that an answer holds; it does not say which leaderboard.
abbrev pub member_of : Text → ℤ → ℤ → ℤ → Member
member_of public_id score rank previous_rank = record {
  leaderboard_id = [];
  public_id = public_id;
  score = score;
  rank = rank;
  previous_rank = previous_rank;
}

decode_member-answer :
    (success : Bool) (public_id : Text) (score rank previous_rank expire_at : ℤ)
    → IsInt64 score
    → IsInt64 rank
    → IsInt64 previous_rank
    → decode_member (member_answer success public_id score rank previous_rank expire_at) zero_member
      ≡ (member_of public_id score rank previous_rank, none)
unfolding decode_member struct fill_fields same_key eq zero_member string
decode_member-answer success public_id score rank previous_rank expire_at a b c =
    rw
      (int-integer score (pos 0) a, int-integer rank (pos 0) b, int-integer previous_rank (pos 0) c)

decode_member_list-answer :
    (success : Bool) (public_id : Text) (score rank previous_rank expire_at : ℤ)
    → decode_member_list
        (member_answer success public_id score rank previous_rank expire_at)
        zero_member_list
      ≡ (zero_member_list, none)
unfolding decode_member_list struct fill_fields same_key eq
decode_member_list-answer success public_id score rank previous_rank expire_at = refl

module _ {W : Type 0} (p : Podium W) (leaderboard member_id u : Text) (amount score_ttl : ℤ)
    (w w' : W) (r : Response) (body : Text) (success : Bool) (public_id : Text)
    (score rank previous_rank expire_at : ℤ) (read : r.read ≡ ok body)
    (fine : ltb_ℤ (pos 399) r.status_code ≡ false)
    (answer : parse body
      ≡ some (member_answer success public_id score rank previous_rank expire_at)) where
  -- If the server answers UpdateScore of the client with a status of at most 399 and a body that
  -- is the JSON of one member, whose score, rank and previous rank are 64-bit integers, then
  -- UpdateScore sends one request, of the method PUT with the JSON {"score":n} as its body for the
  -- score n, and returns without an error the member with that id, score, rank and previous rank
  -- and an empty leaderboard.
  pub update_score-answered :
      IsInt64 score
      → IsInt64 rank
      → IsInt64 previous_rank
      → p.http_client.new_request
          (codes "PUT")
          (build_update_score_url p leaderboard member_id score_ttl)
        ≡ ok u
      → p.http_client.do_request
          (request_for p
            (codes "PUT")
            u
            (some (codes "{\"score\":" ++ (format_int amount ++ codes "}"))))
          w
        ≡ (ok r, w')
      → update_score p leaderboard member_id amount score_ttl w ≡ (
        some (
          some (record {
            leaderboard_id = [];
            public_id = public_id;
            score = score;
            rank = rank;
            previous_rank = previous_rank;
          }),
          none,
        ),
        w',
      )
  unfolding update_score score_payload print
  update_score-answered a b c checked sent =
      exchange-decoded p _ _ u _ w checked decode_member zero_member _ r body _ w' sent read fine
        answer (decode_member-answer _ _ _ _ _ _ a b c)

  -- If the server answers IncrementScore of the client with a status of at most 399 and a body
  -- that is the JSON of one member, then IncrementScore sends one request, of the method PATCH
  -- with the JSON {"increment":n} as its body for the increment n, and returns without an error a
  -- list of members that is empty: score and rank are lost.
  pub increment_score-answered :
      p.http_client.new_request
          (codes "PATCH")
          (build_increment_score_url p leaderboard member_id score_ttl)
        ≡ ok u
      → p.http_client.do_request
          (request_for p
            (codes "PATCH")
            u
            (some (codes "{\"increment\":" ++ (format_int amount ++ codes "}"))))
          w
        ≡ (ok r, w')
      → increment_score p leaderboard member_id amount score_ttl w
        ≡ (some (some zero_member_list, none), w')
  unfolding increment_score increment_payload print
  increment_score-answered checked sent =
      exchange-decoded p _ _ u _ w checked decode_member_list zero_member_list _ r body _ w' sent
        read fine answer (decode_member_list-answer _ _ _ _ _ _)

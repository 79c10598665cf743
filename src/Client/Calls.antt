-- ===== src/Client/Calls.antt =====
-- The operations of the client. Each returns its value and an error, as Go does: an answer that cannot
-- be decoded gives both.
use mathlib.Core.Option
use go_leaderboard.Base.{Bool, false, Option, none, some, List, [], ◌∷◌, map}
use go_leaderboard.Base.Int.{ℤ, pos}
use go_leaderboard.Base.Effect.{Outcome, ok, err, panic}
use go_leaderboard.Base.Bytes.{Text, codes}
use go_leaderboard.Go.Strconv.{format_int}
use go_leaderboard.Go.Json.{Json, num, str, arr, obj, field, done, items}
use go_leaderboard.Go.Json.Decode.{DecodeError, Decoder, unmarshal}
use go_leaderboard.Client.Defs.{Podium, Member, ClientError, decoding, send_to}
use go_leaderboard.Client.Urls.{
  build_delete_leaderboard_url, build_get_top_percent_url, build_update_score_url,
  build_increment_score_url, build_update_scores_url, build_update_members_score_url,
  build_remove_member_from_leaderboard_url, build_get_top_url, build_get_member_url,
  build_get_member_in_leaderboards_url, build_get_count_url, build_get_members_around_member_url,
  build_get_members_url, build_healthcheck_url,
}
use go_leaderboard.Client.Answers.{
  MemberList, ScoreList, Answer, CountResp, zero_member, zero_member_list, decode_member,
  decode_member_list, decode_score_list, decode_answer, decode_count,
}

-- A value, nil where the request failed, and an error. `none` in all is a panic.
abbrev pub Reply : Type 0 → Type 0
Reply A = Option (Option A × Option ClientError)

unfoldable pub decoded : {A : Type 0} → A × Option DecodeError → Reply A
decoded (a, none) = some (some a, none)
decoded (a, some e) = some (some a, some (decoding e))

-- `if err != nil { return nil, err }`, and else json.Unmarshal into a zero value.
unfoldable pub answered : {A : Type 0} → Decoder A → A → Outcome ClientError Text → Reply A
unfolding decoded
answered fill zero_value (ok body) = decoded (unmarshal fill body zero_value)
answered fill zero_value (err e) = some (none, some e)
answered fill zero_value panic = none

abbrev pub integer : ℤ → Json
integer n = num (format_int n)

-- `order ...string`: the first of the list, if there is one.
unfoldable pub first_order : List Text → Text
first_order [] = codes "desc"
first_order (o ∷ os) = o

-- The payloads, with the keys of each map in the order in which Marshal writes them.
unfoldable pub score_payload : ℤ → Json
score_payload score = obj (field (codes "score") (integer score) done)

unfoldable pub increment_payload : ℤ → Json
increment_payload increment = obj (field (codes "increment") (integer increment) done)

unfoldable pub scores_payload : List Text → ℤ → Json
scores_payload leaderboards score = obj (
    field (codes "leaderboards") (arr (items (map str leaderboards)))
      (field (codes "score") (integer score) done))

unfoldable pub member_payload : Member → Json
member_payload m =
    obj (field (codes "publicID") (str m.public_id) (field (codes "score") (integer m.score) done))

unfoldable pub members_payload : List Member → Json
unfolding member_payload
members_payload members =
    obj (field (codes "members") (arr (items (map member_payload members))) done)

-- The members behind the pointers, none if one is nil.
unfoldable pub all_members : List (Option Member) → Option (List Member)
all_members [] = some []
all_members (none ∷ ms) = none
all_members (some m ∷ ms) = Option.map (λ rest. m ∷ rest) (all_members ms)

unfoldable pub count_of : Option CountResp × Option ClientError → ℤ × Option ClientError
count_of (none, e) = (pos 0, e)
count_of (some c, e) = (c.count, e)

module _ {W : Type 0} (p : Podium W) where
  -- One request, and what its answer decodes to.
  unfoldable pub exchange :
      {A : Type 0} → Text → Text → Option Json → Decoder A → A → W → Reply A × W
  unfolding answered
  exchange method url payload fill zero_value w =
      let (outcome, w') = send_to p method url payload w in (answered fill zero_value outcome, w')

  unfoldable pub get_top : Text → ℤ → ℤ → W → Reply MemberList × W
  unfolding exchange
  get_top leaderboard page page_size =
      exchange (codes "GET") (build_get_top_url p leaderboard page page_size) none
        decode_member_list zero_member_list

  unfoldable pub get_top_percent : Text → ℤ → W → Reply MemberList × W
  unfolding exchange
  get_top_percent leaderboard percentage =
      exchange (codes "GET") (build_get_top_percent_url p leaderboard percentage) none
        decode_member_list zero_member_list

  unfoldable pub update_score : Text → Text → ℤ → ℤ → W → Reply Member × W
  unfolding exchange
  update_score leaderboard member_id score score_ttl =
      exchange (codes "PUT") (build_update_score_url p leaderboard member_id score_ttl)
        (some (score_payload score)) decode_member zero_member

  unfoldable pub increment_score : Text → Text → ℤ → ℤ → W → Reply MemberList × W
  unfolding exchange
  increment_score leaderboard member_id increment score_ttl =
      exchange (codes "PATCH") (build_increment_score_url p leaderboard member_id score_ttl)
        (some (increment_payload increment)) decode_member_list zero_member_list

  unfoldable pub update_scores : List Text → Text → ℤ → ℤ → W → Reply ScoreList × W
  unfolding exchange
  update_scores leaderboards member_id score score_ttl =
      exchange (codes "PUT") (build_update_scores_url p member_id score_ttl)
        (some (scores_payload leaderboards score)) decode_score_list (record { scores = [] })

  -- `members` holds pointers; a nil one is a panic before anything is sent.
  unfoldable pub update_members_score : Text → List (Option Member) → ℤ → W → Reply MemberList × W
  unfolding exchange
  update_members_score leaderboard members score_ttl w = elim (all_members members) [
    | none ↦ (none, w)
    | some ms ↦
        exchange (codes "PUT") (build_update_members_score_url p leaderboard score_ttl)
          (some (members_payload ms)) decode_member_list zero_member_list w
  ]

  unfoldable pub remove_member_from_leaderboard : Text → Text → W → Reply Answer × W
  unfolding exchange
  remove_member_from_leaderboard leaderboard member =
      exchange (codes "DELETE") (build_remove_member_from_leaderboard_url p leaderboard member) none
        decode_answer (record { success = false; reason = [] })

  unfoldable pub get_member : Text → Text → W → Reply Member × W
  unfolding exchange
  get_member leaderboard member_id =
      exchange (codes "GET") (build_get_member_url p leaderboard member_id) none decode_member
        zero_member

  unfoldable pub get_members_around_member :
      Text → Text → ℤ → Bool → List Text → W → Reply MemberList × W
  unfolding exchange first_order
  get_members_around_member leaderboard member_id page_size get_last_if_not_found order =
      exchange (codes "GET")
        (build_get_members_around_member_url p leaderboard member_id page_size get_last_if_not_found
          (first_order order))
        none decode_member_list zero_member_list

  unfoldable pub get_members : Text → List Text → W → Reply MemberList × W
  unfolding exchange
  get_members leaderboard member_ids =
      exchange (codes "GET") (build_get_members_url p leaderboard member_ids) none
        decode_member_list zero_member_list

  unfoldable pub get_member_in_leaderboards : List Text → Text → List Text → W → Reply ScoreList × W
  unfolding exchange first_order
  get_member_in_leaderboards leaderboards member_id order =
      exchange (codes "GET")
        (build_get_member_in_leaderboards_url p leaderboards member_id (first_order order)) none
        decode_score_list (record { scores = [] })

  -- The body as it is; with an error it is nil, and the string empty.
  unfoldable pub healthcheck : W → Outcome ClientError Text × W
  healthcheck = send_to p (codes "GET") (build_healthcheck_url p) none

  unfoldable pub delete_leaderboard : Text → W → Reply Answer × W
  unfolding exchange
  delete_leaderboard leaderboard =
      exchange (codes "DELETE") (build_delete_leaderboard_url p leaderboard) none decode_answer
        (record { success = false; reason = [] })

  -- The count, 0 where the request failed.
  unfoldable pub get_count : Text → W → Option (ℤ × Option ClientError) × W
  unfolding exchange
  get_count leaderboard w =
      let (reply, w') =
        exchange (codes "GET") (build_get_count_url p leaderboard) none decode_count
          (record { count = pos 0 }) w in
      (Option.map count_of reply, w')

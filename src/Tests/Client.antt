-- ===== src/Tests/Client.antt =====
-- The client, run against answers written out.
use go_leaderboard.Base.{
  ℕ, ◌+◌, ◌≡◌, refl, arith, true, false, none, some, ◌↔◌, ◌≢◌, [], ◌∷◌, ◌++◌, All,
}
use go_leaderboard.Base.Int.{ℤ, pos, negsuc}
use go_leaderboard.Base.Effect.{ok}
use go_leaderboard.Base.Bytes.{Text, codes, eq}
use go_leaderboard.Go.Strconv.{split, format_int, parse_int}
use go_leaderboard.Go.Json.Decode.{unmarshal, struct, same_key, int}
use go_leaderboard.Go.Json.Print.{print}
use go_leaderboard.Go.Json.Parse.{parse}
use go_leaderboard.Redis.Sorted.{score_of}
use go_leaderboard.Redis.Server.{Store, memory, memory-Answers, ranking, clock}
use go_leaderboard.Database.Order.{desc}
use go_leaderboard.Database.Served.{down}
use go_leaderboard.Service.Pages.Served.{service}
use go_leaderboard.Api.Defs.{App}
use go_leaderboard.Api.Many.{GetMembersResponse, get_members}
use go_leaderboard.Api.Found.{absent_of}
use go_leaderboard.Client.Defs.{Podium, request, send_to}
use go_leaderboard.Client.Urls.{join, build_get_member_url, build_get_members_url}
use go_leaderboard.Client.Ids.{Lacks, split-join_iff}
use go_leaderboard.Client.Places.{build_get_member_url_injective, build_get_member_url_clash}
use go_leaderboard.Client.Answers.{zero_member_list, decode_member, decode_count, zero_member}
use go_leaderboard.Client.Calls.{
  exchange, update_score, increment_score, get_count, scores_payload, count_of,
}
use go_leaderboard.Client.Sent.{
  exchange-sent, update_score-answered, increment_score-answered, member_of,
}
use go_leaderboard.Client.Asked.{get_members-joined}
use go_leaderboard.Tests.Board.{board, ann, dan, store}

-- A server with one answer; its state counts the requests.
abbrev canned : ℤ → Text → Podium ℕ
canned status body = record {
  http_client = record {
    new_request = λ method url. ok url;
    do_request = λ r n. (ok (record { status_code = status; read = ok body }), n + 1);
  };
  base_url = codes "http://podium";
  user = codes "user";
  pass = codes "pass";
}

abbrev one_member : Text
one_member =
    codes
      "{\"success\":true, \"publicID\":\"ann\",\"score\":12,\"rank\":3,\"previousRank\":-1,\"expireAt\":0}"

gone :
    exchange
      (canned (pos 404) (codes "gone"))
      (codes "GET")
      (codes "/")
      none
      decode_member
      zero_member
      7
    ≡ (some (none, some (request (record { status_code = pos 404; body = codes "gone" }))), 8)
gone =
    exchange-sent (canned (pos 404) (codes "gone")) (codes "GET") (codes "/") (codes "/") none 7
      refl decode_member zero_member _ (codes "gone") 8 refl refl

update_score-answered_example :
    update_score (canned (pos 200) one_member) board ann (pos 12) (pos 0) 7
    ≡ (some (some (member_of ann (pos 12) (pos 3) (negsuc 0)), none), 8)
unfolding parse format_int
update_score-answered_example =
    update_score-answered (canned (pos 200) one_member) board ann _ (pos 12) (pos 0) 7 8 _
      one_member true ann (pos 12) (pos 3) (negsuc 0) (pos 0) refl refl refl (omega arith)
      (omega arith) (omega arith) refl refl

increment_score-answered_example :
    increment_score (canned (pos 200) one_member) board ann (pos 2) (pos 60) 7
    ≡ (some (some zero_member_list, none), 8)
unfolding parse format_int
increment_score-answered_example =
    increment_score-answered (canned (pos 200) one_member) board ann _ (pos 2) (pos 60) 7 8 _
      one_member true ann (pos 12) (pos 3) (negsuc 0) (pos 0) refl refl refl refl refl

ids_come_back :
    (split (join (ann ∷ dan ∷ [])) ≡ ann ∷ dan ∷ [])
    ↔ (((ann ∷ dan ∷ []) ≢ []) × All (Lacks b',') (ann ∷ dan ∷ []))
ids_come_back = split-join_iff (ann ∷ dan ∷ [])

build_get_member_url_injective_example : (board ≡ board) × (ann ≡ ann)
build_get_member_url_injective_example =
    build_get_member_url_injective (canned (pos 200) []) board board ann ann (omega arith)
      (omega arith) refl

same_url :
    build_get_member_url (canned (pos 200) []) (board ++ (codes "/members/" ++ ann)) dan
    ≡ build_get_member_url (canned (pos 200) []) board (ann ++ (codes "/members/" ++ dan))
same_url = build_get_member_url_clash (canned (pos 200) []) board ann dan

abbrev handlers : App Store
handlers = record {
  leaderboards = service memory clock;
  max_returned_members = pos 100;
  add_error = λ w. w;
}

ids_joined :
    (q : Text) × (build_get_members_url (canned (pos 200) []) board (ann ∷ dan ∷ [])
      ≡ codes "http://podium" ++ (codes "/l/" ++ (board ++ (codes "/members?ids=" ++ q))))
    × (r : GetMembersResponse) × (get_members handlers board desc false q store ≡ (ok r, store))
    × (r.not_found ≡ dan ∷ [])
unfolding eq join absent_of score_of
ids_joined =
    get_members-joined (canned (pos 200) []) memory ranking memory-Answers clock (pos 100) (λ w. w)
      board down false (ann ∷ dan ∷ []) store (λ e. cc) (omega arith) refl

-- What goes out.
payload :
    print (scores_payload (board ∷ codes "a\"b<" ∷ []) (negsuc 4))
    ≡ codes "{\"leaderboards\":[\"lb\",\"a\\\"b\\u003c\"],\"score\":-5}"
unfolding print scores_payload format_int
payload = refl

count :
    get_count (canned (pos 200) (codes "{\"success\":true,\"count\":7}")) board 0
    ≡ (some (pos 7, none), 1)
unfolding get_count send_to unmarshal parse decode_count struct same_key eq int parse_int count_of
count = refl

spaces_and_escapes : parse (codes " [1.5e3, \"\\ud83d\\ude00\\n\", {}, [ ], null] ") ≢ none
unfolding parse
spaces_and_escapes e = cc

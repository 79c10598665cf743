-- ===== src/Cmd/Smoke.antt =====
-- cmd/smoke.go: the smoke test, which stops the program by log.Fatalf at the first answer that it does
-- not like. What it prints on the way is left out; the leaderboard's id comes from a uuid.
use go_leaderboard.Base.{
  ℕ, zero, suc, ◌+◌, ◌&&◌, Bool, if◌then◌else◌, Option, none, some, List, [], ◌∷◌, ◌++◌,
}
use go_leaderboard.Base.Int.{ℤ, pos, eqb_ℤ, ◌-ℤ◌}
use go_leaderboard.Base.Effect.{M, Outcome, ok, err, panic, pure, fail, ◌>>=◌, ◌>>◌}
use go_leaderboard.Base.Bytes.{Text, codes, eq}
use go_leaderboard.Go.Strconv.{format_int}
use go_leaderboard.Client.Urls.{join}

pub record Response : Type 0 where
  pub status_code : ℤ
  pub read : Outcome Text Text

-- net/http: the request of a method, a URL and a body, and the sending of it. The error of NewRequest
-- is not looked at, so that a URL that it refuses is a nil request, and a panic.
pub record Http (W : Type 0) : Type 0 where
  pub new_request : Text → Text → Option Text → Bool
  pub do_request : Text → Text → Option Text → M W Text Response

-- A status and a body, or an error beside the status 500.
abbrev pub Answer : Type 0
Answer = ℤ × Text × Option Text

unfoldable pub body_of : Text → Option Text
body_of [] = none
body_of (c ∷ s) = some (c ∷ s)

unfoldable pub answer_of : {W : Type 0} → Outcome Text Response → M W Text Answer
answer_of (ok r) w = elim r.read [
  | ok body ↦ (ok (r.status_code, body, none), w)
  | err e ↦ (ok (pos 500, [], some e), w)
  | panic ↦ (panic, w)
]
answer_of (err e) w = (ok (pos 500, [], some e), w)
answer_of panic w = (panic, w)

-- log.Fatalf: the error is the message, and nothing runs after it.
unfoldable pub check :
    {W : Type 0}
    → (Text → Text)
    → (ℤ → Text → Text)
    → (ℤ → Text → Bool)
    → Answer
    → M W Text (Unit {0})
check unreachable refused good (status, body, some e) = fail (unreachable e)
check unreachable refused good (status, body, none) =
    if good status body then pure tt else fail (refused status body)

abbrev pub is_200 : ℤ → Text → Bool
is_200 status body = eqb_ℤ status (pos 200)

module _ {W : Type 0} (http : Http W) (base_url : Text) where
  unfoldable pub do_request : Text → Text → Text → M W Text Answer
  unfolding body_of answer_of
  do_request method url req_body w =
      let abs_url = base_url ++ url in
      if http.new_request method abs_url (body_of req_body)
      then (let (outcome, w') = http.do_request method abs_url (body_of req_body) w in
          answer_of outcome w')
      else (panic, w)

  abbrev unreachable : Text → Text → Text
  unreachable what e = what ++ (base_url ++ (codes ". Error: " ++ e))

  abbrev refused : Text → ℤ → Text → Text
  refused what status body =
      what
      ++ (base_url ++ (codes " (Status: " ++ (format_int status ++ (codes "). Error: " ++ body))))

  unfoldable pub do_health_check : M W Text (Unit {0})
  unfolding check
  do_health_check = do
    answer ← do_request (codes "GET") (codes "/healthcheck") []
    check (unreachable (codes "Could not reach ")) (refused (codes "Could not reach "))
        (λ status body. eqb_ℤ status (pos 200) && eq body (codes "WORKING")) answer

  -- What the other steps share: one request that must be answered with 200.
  unfoldable pub expect_200 : Text → Text → Text → Text → M W Text (Unit {0})
  unfolding check
  expect_200 what method url body = do
    answer ← do_request method url body
    check (unreachable what) (refused what) is_200 answer

  unfoldable pub add_member_score : Text → Text → ℤ → M W Text (Unit {0})
  add_member_score leaderboard_id member_id score =
      expect_200 (codes "Could not set member score at ") (codes "PUT")
        (codes "/l/" ++ (leaderboard_id ++ (codes "/members/" ++ (member_id ++ codes "/score"))))
        (codes "{\"score\":" ++ (format_int score ++ codes "}"))

  unfoldable pub get_member : Text → Text → M W Text (Unit {0})
  get_member leaderboard_id member_id =
      expect_200 (codes "Could not get member at ") (codes "GET")
        (codes "/l/" ++ (leaderboard_id ++ (codes "/members/" ++ member_id))) []

  unfoldable pub get_members : Text → Text → M W Text (Unit {0})
  get_members leaderboard_id member_ids =
      expect_200 (codes "Could not get members at ") (codes "GET")
        (codes "/l/" ++ (leaderboard_id ++ (codes "/members?ids=" ++ member_ids))) []

  unfoldable pub get_rank : Text → Text → M W Text (Unit {0})
  get_rank leaderboard_id member_id =
      expect_200 (codes "Could not get member rank at ") (codes "GET")
        (codes "/l/" ++ (leaderboard_id ++ (codes "/members/" ++ (member_id ++ codes "/rank")))) []

  unfoldable pub get_around : Text → Text → M W Text (Unit {0})
  get_around leaderboard_id member_id =
      expect_200 (codes "Could not get member around at ") (codes "GET")
        (codes "/l/" ++ (leaderboard_id ++ (codes "/members/" ++ (member_id ++ codes "/around"))))
        []

  unfoldable pub get_number_of_members : Text → M W Text (Unit {0})
  get_number_of_members leaderboard_id =
      expect_200 (codes "Could not get members count at ") (codes "GET")
        (codes "/l/" ++ (leaderboard_id ++ codes "/members-count")) []

  unfoldable pub get_top_members : Text → M W Text (Unit {0})
  get_top_members leaderboard_id =
      expect_200 (codes "Could not get top members at ") (codes "GET")
        (codes "/l/" ++ (leaderboard_id ++ codes "/top/1?pageSize=20")) []

  -- Its messages have a space at other places.
  unfoldable pub get_top_percentage : Text → M W Text (Unit {0})
  unfolding check
  get_top_percentage leaderboard_id = do
    answer ← do_request (codes "GET") (codes "/l/" ++ (leaderboard_id ++ codes "/top-percent/5")) []
    check (λ e. codes "Could not get top 5% at " ++ (base_url ++ (codes " . Error: " ++ e)))
        (λ status body.
          codes "Could not get top 5% at "
          ++ (base_url
              ++ (codes " (Status: " ++ (format_int status ++ (codes " ). Error: " ++ body)))))
        is_200 answer

  unfoldable pub remove_member : Text → Text → M W Text (Unit {0})
  remove_member leaderboard_id member_id =
      expect_200 (codes "Could not remove member at ") (codes "DELETE")
        (codes "/l/" ++ (leaderboard_id ++ (codes "/members/" ++ member_id))) []

  unfoldable pub remove_leaderboard : Text → M W Text (Unit {0})
  remove_leaderboard leaderboard_id =
      expect_200 (codes "Could not delete leaderboard at ") (codes "DELETE")
        (codes "/l/" ++ leaderboard_id) []

  -- `for i := 0; i < 100; i++`, with the rounds that are left.
  unfoldable pub for_each : ℕ → ℕ → (ℕ → M W Text (Unit {0})) → M W Text (Unit {0})
  for_each zero i body = pure tt
  for_each (suc left) i body = do body i; for_each left (i + 1) body

  unfoldable pub member_name : ℕ → Text
  member_name i = codes "member-" ++ format_int (pos i)

  unfoldable pub member_names : ℕ → ℕ → List Text
  unfolding member_name
  member_names zero i = []
  member_names (suc left) i = member_name i ∷ member_names left (i + 1)

  unfoldable pub smoke : Text → M W Text (Unit {0})
  unfolding do_health_check add_member_score get_member get_members get_rank get_around
      get_number_of_members get_top_members get_top_percentage remove_member remove_leaderboard
      for_each member_name member_names
  smoke leaderboard_id = do
    do_health_check
    for_each 100 0 (λ i. add_member_score leaderboard_id (member_name i) (pos 100 -ℤ pos i))
    for_each 100 0 (λ i. get_member leaderboard_id (member_name i))
    get_members leaderboard_id (join (member_names 100 0))
    for_each 100 0 (λ i. get_rank leaderboard_id (member_name i))
    for_each 100 0 (λ i. get_around leaderboard_id (member_name i))
    get_number_of_members leaderboard_id
    get_top_members leaderboard_id
    get_top_percentage leaderboard_id
    for_each 100 0 (λ i. remove_member leaderboard_id (member_name i))
    remove_leaderboard leaderboard_id

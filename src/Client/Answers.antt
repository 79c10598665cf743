-- ===== src/Client/Answers.antt =====
-- The values that the client decodes answers into. A field is found by its name without regard to case.
use go_leaderboard.Base.{Bool, Option, none, List, [], if◌then◌else◌}
use go_leaderboard.Base.Int.{ℤ, pos}
use go_leaderboard.Base.Bytes.{Text, codes}
use go_leaderboard.Go.Json.{Json}
use go_leaderboard.Go.Json.Decode.{
  DecodeError, Decoder, int, string, boolean, same_key, struct, pointer, slice,
}
use go_leaderboard.Client.Defs.{Member}

pub record MemberList : Type 0 where
  pub members : List (Option Member)
  pub member : Option Member
  pub not_found : List Text

pub record ScoreList : Type 0 where
  pub scores : List (Option Member)

pub record Answer : Type 0 where
  pub success : Bool
  pub reason : Text

pub record CountResp : Type 0 where
  pub count : ℤ

unfoldable pub zero_member : Member
zero_member = record {
  leaderboard_id = [];
  public_id = [];
  score = pos 0;
  rank = pos 0;
  previous_rank = pos 0;
}

unfoldable pub zero_member_list : MemberList
zero_member_list = record { members = []; member = none; not_found = [] }

-- A decoder of one field, put back into its record.
abbrev pub at_field :
    {A B : Type 0} → (A → B) → (A → B → A) → Decoder B → Json → A → A × Option DecodeError
at_field get set d v a = let (b, e) = d v (get a) in (set a b, e)

abbrev pub other : {A : Type 0} → A → A × Option DecodeError
other a = (a, none)

unfoldable pub member_field : Text → Decoder Member
member_field k v m =
    if same_key k (codes "LeaderboardID")
    then at_field (λ m. m.leaderboard_id) (λ m x. record m { leaderboard_id = x }) string v m
    else if same_key k (codes "PublicID")
    then at_field (λ m. m.public_id) (λ m x. record m { public_id = x }) string v m
    else if same_key k (codes "Score")
    then at_field (λ m. m.score) (λ m x. record m { score = x }) int v m
    else if same_key k (codes "Rank")
    then at_field (λ m. m.rank) (λ m x. record m { rank = x }) int v m
    else if same_key k (codes "PreviousRank")
    then at_field (λ m. m.previous_rank) (λ m x. record m { previous_rank = x }) int v m
    else other m

unfoldable pub decode_member : Decoder Member
unfolding member_field
decode_member = struct member_field

unfoldable pub decode_members : Decoder (List (Option Member))
unfolding decode_member zero_member
decode_members = slice none (pointer zero_member decode_member)

unfoldable pub member_list_field : Text → Decoder MemberList
unfolding decode_members decode_member zero_member
member_list_field k v l =
    if same_key k (codes "Members")
    then at_field (λ l. l.members) (λ l x. record l { members = x }) decode_members v l
    else if same_key k (codes "Member")
    then at_field (λ l. l.member) (λ l x. record l { member = x })
        (pointer zero_member decode_member) v l
    else if same_key k (codes "NotFound")
    then at_field (λ l. l.not_found) (λ l x. record l { not_found = x }) (slice [] string) v l
    else other l

unfoldable pub decode_member_list : Decoder MemberList
unfolding member_list_field
decode_member_list = struct member_list_field

unfoldable pub score_list_field : Text → Decoder ScoreList
unfolding decode_members
score_list_field k v l =
    if same_key k (codes "Scores")
    then at_field (λ l. l.scores) (λ l x. record l { scores = x }) decode_members v l
    else other l

unfoldable pub decode_score_list : Decoder ScoreList
unfolding score_list_field
decode_score_list = struct score_list_field

unfoldable pub answer_field : Text → Decoder Answer
answer_field k v a =
    if same_key k (codes "Success")
    then at_field (λ a. a.success) (λ a x. record a { success = x }) boolean v a
    else if same_key k (codes "Reason")
    then at_field (λ a. a.reason) (λ a x. record a { reason = x }) string v a
    else other a

unfoldable pub decode_answer : Decoder Answer
unfolding answer_field
decode_answer = struct answer_field

unfoldable pub count_field : Text → Decoder CountResp
count_field k v c =
    if same_key k (codes "count")
    then at_field (λ c. c.count) (λ c x. record c { count = x }) int v c
    else other c

unfoldable pub decode_count : Decoder CountResp
unfolding count_field
decode_count = struct count_field

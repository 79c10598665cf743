-- ===== src/Service/Members.antt =====
-- leaderboard/service/members.go and leaderboard.go: what the operations share.
use go_leaderboard.Base.{Bool, true, if◌then◌else◌, List, [], ◌∷◌, map, Option, none, some}
use go_leaderboard.Base.Int.{ℤ, pos, negsuc, eqb_ℤ}
use go_leaderboard.Base.Effect.{
  M, Outcome, ok, err, panic, pure, fail, crash, handle, wrap_err, ◌>>=◌, ◌>>◌,
}
use go_leaderboard.Base.Bytes.{Text}
use go_leaderboard.Go.Word.{◌+w◌, ◌*w◌, half64}
use go_leaderboard.Go.Float.{of_int, to_int}
use go_leaderboard.Go.Time.{Time, zero_time, at, unix, add, nanos}
use go_leaderboard.Go.Strconv.{parse_int, ParseError}
use go_leaderboard.Database.Errors as Db
use go_leaderboard.Database.Errors.{DbError}
use go_leaderboard.Database.Defs.{DbMember}
use go_leaderboard.Expiration.Errors.{ExpirationError}
use go_leaderboard.Expiration.Name.{get_expire_at, no_expiration}
use go_leaderboard.Service.Defs.{Service, Member, now}

-- The errors that cross the helpers as values of the interface `error`.
pub data Inner : Type 0 where
  database : DbError → Inner
  expiration : ExpirationError → Inner
  strconv : ParseError → Text → Inner

unfoldable pub convert_member : DbMember → Member
convert_member m = record {
  public_id = m.member;
  score = to_int m.score;
  rank = m.rank +w pos 1;
  previous_rank = pos 0;
  expire_at = pos 0;
}

unfoldable pub convert_members : List DbMember → List Member
unfolding convert_member
convert_members = map convert_member

-- The loops of setMembersPreviousRank and setMembersValues; none is a panic.
unfoldable pub previous_rank_of : Option DbMember → ℤ
previous_rank_of none = negsuc 0
previous_rank_of (some d) = d.rank +w pos 1

unfoldable pub with_previous_ranks : List Member → List (Option DbMember) → Option (List Member)
unfolding previous_rank_of
with_previous_ranks [] ds = some []
with_previous_ranks (m ∷ ms) [] = none
with_previous_ranks (m ∷ ms) (d ∷ ds) = elim (with_previous_ranks ms ds) [
  | none ↦ none
  | some rest ↦ some (record m { previous_rank = previous_rank_of d } ∷ rest)
]

unfoldable pub with_values : List Member → List (Option DbMember) → Option (List Member)
with_values ms [] = some ms
with_values [] (d ∷ ds) = none
with_values (m ∷ ms) (none ∷ ds) = none
with_values (m ∷ ms) (some d ∷ ds) = elim (with_values ms ds) [
  | none ↦ none
  | some rest ↦ some (record m { rank = d.rank +w pos 1; score = to_int d.score } ∷ rest)
]

abbrev or_panic : {W E A : Type 0} → Option A → M W E A
or_panic none = crash
or_panic (some a) = pure a

unfoldable pub scored : Member → DbMember
scored m = record { member = m.public_id; score = of_int m.score; rank = pos 0; ttl = zero_time }

unfoldable pub timed : Time → Member → DbMember
timed t m = record { member = m.public_id; score = of_int (pos 0); rank = pos 0; ttl = t }

unfoldable pub expiring : ℤ → Member → Member
expiring t m = record m { expire_at = t }

module _ {W : Type 0} (s : Service W) where
  unfoldable pub get_database_members :
      Text → List Member → Text → M W DbError (List (Option DbMember))
  get_database_members leaderboard members order =
      s.database.get_members leaderboard order true (map (λ m. m.public_id) members)

  unfoldable pub fetch_member_rank : Text → Text → Text → Bool → M W DbError ℤ
  fetch_member_rank leaderboard member order get_last =
      handle (s.database.get_rank leaderboard member order)
        (λ e. elim e [
          | Db.member_not_found l m ↦
              if get_last
              then (do total ← s.database.get_total_members leaderboard; pure (total +w pos 1))
              else fail (Db.member_not_found l m)
          | other ↦ fail other
        ])
        (λ rank. pure (rank +w pos 1))

  unfoldable pub set_members_previous_rank : Text → List Member → Text → M W DbError (List Member)
  unfolding get_database_members with_previous_ranks
  set_members_previous_rank leaderboard members order = do
    ds ← get_database_members leaderboard members order
    or_panic (with_previous_ranks members ds)

  unfoldable pub persist_members : Text → List Member → M W DbError (Unit {0})
  unfolding scored
  persist_members leaderboard members = s.database.set_members leaderboard (map scored members)

  unfoldable pub set_members_values : Text → List Member → Text → M W DbError (List Member)
  unfolding get_database_members with_values
  set_members_values leaderboard members order = do
    ds ← get_database_members leaderboard members order
    or_panic (with_values members ds)

  -- By what ParseInt returned for the time to live.
  unfoldable pub persist_times :
      Text → List Member → Text → ℤ × Option ParseError → M W Inner (List Member)
  unfolding timed expiring
  persist_times leaderboard members score_ttl (ttl, some e) = fail (strconv e score_ttl)
  persist_times leaderboard members score_ttl (ttl, none) = do
    t ← now s.clock
    let expiry = add t (ttl *w pos nanos)
    wrap_err database (s.database.set_members_ttl leaderboard (map (timed expiry) members))
    pure (map (expiring (unix expiry)) members)

  unfoldable pub persist_members_ttl : Text → List Member → Text → M W Inner (List Member)
  unfolding persist_times
  persist_members_ttl leaderboard members score_ttl =
      persist_times leaderboard members score_ttl (parse_int half64 score_ttl)

  -- What follows a name that has an expiration.
  unfoldable pub ensure_expiration : Text → ℤ → M W Inner (Unit {0})
  ensure_expiration leaderboard expire_at =
      handle (s.database.get_leaderboard_expiration leaderboard)
        (λ e. elim e [
          | Db.ttl_not_found l ↦
              wrap_err database (s.database.set_leaderboard_expiration leaderboard (at expire_at 0))
          | other ↦ fail (database other)
        ])
        (λ _. pure tt)

  -- By what GetExpireAt returned for the name.
  unfoldable pub ensure_by_name : Text → Outcome ExpirationError ℤ → M W Inner (Unit {0})
  unfolding ensure_expiration
  ensure_by_name leaderboard (ok expire_at) =
      if eqb_ℤ expire_at no_expiration then pure tt else ensure_expiration leaderboard expire_at
  ensure_by_name leaderboard (err e) = fail (expiration e)
  ensure_by_name leaderboard panic = crash

  unfoldable pub persist_leaderboard_expiration_time : Text → M W Inner (Unit {0})
  unfolding ensure_by_name
  persist_leaderboard_expiration_time leaderboard = do
    t ← now s.clock
    ensure_by_name leaderboard (get_expire_at (unix t) leaderboard)

-- ===== src/Tests/Writes.antt =====
-- Writes of the service and of the API, run.
use mathlib.Core.List.{reverse}
use go_leaderboard.Base.{map, All, List, false, ℕ, ◌≡◌, refl, arith, true, some, [], ◌∷◌}
use go_leaderboard.Base.Int.{pos, negsuc, ◌+ℤ◌}
use go_leaderboard.Base.Effect.{ok, err}
use go_leaderboard.Base.Bytes.{Text, codes, eq}
use go_leaderboard.Go.Format.{sprintf, HasNoPercent}
use go_leaderboard.Go.Float.{finite, to_int, of_int}
use go_leaderboard.Go.Time.{Time, at, unix}
use go_leaderboard.Go.Strconv.{parse_int, format_int}
use go_leaderboard.Expiration.Name.{get_expire_at, check_expire_at_errors}
use go_leaderboard.Expiration.Pattern.{find, from_to, yearly, periodic}
use go_leaderboard.Redis.Server.{
  Store, memory, memory-Answers, memory-Removes, memory-Increments, memory-Expiry, expires, update,
  ranking, sets, clock,
}
use go_leaderboard.Redis.Sorted.{position, score_of}
use go_leaderboard.Service.Errors.{leaderboard_expired, message}
use go_leaderboard.Service.Pages.Served.{service}
use go_leaderboard.Service.Writes.{
  set_member_score, increment_member_score, remove_members, remove_leaderboard,
}
use go_leaderboard.Service.Defs.{Member}
use go_leaderboard.Service.Writes.{new_member, set_members_score}
use go_leaderboard.Service.Writes.Bulk.{
  HasScore, ScoredAll, prepared, ranked_after, set_members_score-served,
}
use go_leaderboard.Service.Writes.Incremented.{increment_member_score-served}
use go_leaderboard.Service.Members.{persist_leaderboard_expiration_time}
use go_leaderboard.Service.Writes.Lasting.{Lasts, persist_leaderboard_expiration_time-Lasts}
use go_leaderboard.Service.Writes.Removed.{
  Without, remove_members-Without, remove_leaderboard-empty,
}
use go_leaderboard.Service.Writes.Timed.{ScoredUntil, set_member_score-timed}
use go_leaderboard.Redis.Removes.{has}
use go_leaderboard.Database.Order.{ttl_key, expiration_set}
use go_leaderboard.Service.Writes.Placed.{written}
use go_leaderboard.Service.Writes.Served.{Scored, set_member_score-served, set_member_score-expired}
use go_leaderboard.Api.Defs as Defs
use go_leaderboard.Api.Defs.{status, invalid_argument}
use go_leaderboard.Api.Upsert.{upsert_score, upsert_score_multi_leaderboards}
use go_leaderboard.Api.Expired.{one, several, app, upsert-expired}
use go_leaderboard.Tests.Board.{board, times, standings, ann, dan, store}

-- A name whose time is past at 1000 seconds, and a clock that shows them.
abbrev past : Text
past = codes "from0000000001to0000000005"

abbrev stopped : Store → Time × Store
stopped w = (at (pos 1000) 0, w)

abbrev two_members : List Member
two_members = new_member dan (pos 25) ∷ new_member ann (pos 5) ∷ []

set_members_score-served_example :
    (w : Store) × (set_members_score (service memory clock) board two_members true [] store ≡ (
      ok (
          map (ranked_after (ranking w board)) (
            prepared memory ranking memory-Answers clock (λ w. refl) board two_members true store)),
      w,
    ))
    × All
        (λ (m : Member). HasScore (ranking w board) m.public_id)
        (prepared memory ranking memory-Answers clock (λ w. refl) board two_members true store)
    × ScoredAll memory ranking memory-Answers clock (λ w. refl) board two_members store w
unfolding eq get_expire_at find from_to yearly periodic
set_members_score-served_example =
    set_members_score-served memory ranking memory-Answers clock (λ w. refl) board two_members true
      store (omega arith) (omega arith) (λ t. refl)

set_member_score-served_example :
    (w : Store) × (j : ℕ) × (set_member_score
        (service memory clock)
        board
        dan
        (pos 25)
        true
        []
        store
      ≡ (ok (written dan (pos 25) j (negsuc 0)), w))
    × (position dan (reverse (ranking w board)) ≡ some j)
    × Scored memory ranking memory-Answers clock (λ w. refl) board dan (pos 25) store w
unfolding eq position get_expire_at find from_to yearly periodic
set_member_score-served_example =
    set_member_score-served memory ranking memory-Answers clock (λ w. refl) board dan (pos 25) true
      store (omega arith) (omega arith) (λ t. refl)

set_member_score-timed_example :
    (w : Store) × (j : ℕ) × (set_member_score
        (service memory stopped)
        board
        dan
        (pos 25)
        true
        (codes "60")
        store
      ≡ (ok (record (written dan (pos 25) j (negsuc 0)) { expire_at = pos 1060 }), w))
    × (has times (sets w expiration_set) ≡ true)
    × ScoredUntil memory ranking sets memory-Answers memory-Removes stopped
        (λ w. refl)
        1000
        0
        (λ w. refl)
        board
        dan
        (pos 25)
        1060
        store
        w
unfolding eq position format_int ttl_key get_expire_at find from_to yearly periodic
set_member_score-timed_example =
    set_member_score-timed memory ranking sets memory-Answers memory-Removes stopped (λ w. refl)
      1000 0 (λ w. refl) board dan (pos 25) true 60 store (omega arith) (omega arith) (λ t. refl)
      (omega arith) (omega arith)

set_member_score-expired_example :
    (w : Store) × (set_member_score (service memory stopped) past dan (pos 25) true [] store
      ≡ (err (leaderboard_expired past), w))
    × Scored memory ranking memory-Answers stopped (λ w. refl) past dan (pos 25) store w
unfolding eq get_expire_at find from_to check_expire_at_errors parse_int unix
set_member_score-expired_example =
    set_member_score-expired memory ranking memory-Answers stopped (λ w. refl) past dan (pos 25)
      true [] store (omega arith) (λ v. refl)

upsert-expired_example :
    (w : Store) × (upsert_score
        (app memory ranking memory-Answers stopped (λ w. refl) (pos 100) (λ w. w))
        (one past dan (finite (pos 25) 0) true (pos 0))
        store
      ≡ (err (status invalid_argument (sprintf (message (leaderboard_expired past)))), w))
    × (upsert_score_multi_leaderboards
          (app memory ranking memory-Answers stopped (λ w. refl) (pos 100) (λ w. w))
          (several (past ∷ []) dan (finite (pos 25) 0) true (pos 0))
          store
        ≡ (err (Defs.service (leaderboard_expired past)), w))
    × Scored memory ranking memory-Answers stopped (λ w. refl) past dan (pos 25) store w
    × (HasNoPercent past
        → sprintf (message (leaderboard_expired past)) ≡ message (leaderboard_expired past))
unfolding eq to_int get_expire_at find from_to check_expire_at_errors parse_int unix
upsert-expired_example =
    upsert-expired memory ranking memory-Answers stopped (λ w. refl) (pos 100) (λ w. w) past [] dan
      (finite (pos 25) 0) true (pos 0) store (omega arith) (λ v. refl)

ann_and_dan_removed :
    (w : Store) × (remove_members (service memory clock) board (ann ∷ dan ∷ []) store ≡ (ok tt, w))
    × Without memory ranking sets memory-Removes clock board (ann ∷ dan ∷ []) store w
ann_and_dan_removed =
    remove_members-Without memory ranking sets memory-Removes clock board (ann ∷ dan ∷ []) store
      (omega arith)

emptied :
    (w : Store) × (remove_leaderboard (service memory clock) board store ≡ (ok tt, w))
    × (ranking w board ≡ [])
    × ((j : Text) → eq board j ≡ false → ranking w j ≡ ranking store j)
emptied = remove_leaderboard-empty memory ranking sets memory-Removes clock board store

increment_member_score-served_example :
    (w : Store) × (j : ℕ) × (increment_member_score
        (service memory clock)
        board
        ann
        (pos 15)
        []
        store
      ≡ (ok (written ann (pos 25) j (pos 0)), w))
    × (position ann (reverse (ranking w board)) ≡ some j)
    × Scored memory ranking memory-Answers clock (λ w. refl) board ann (pos 25) store w
unfolding eq score_of ◌+ℤ◌ of_int get_expire_at find from_to yearly periodic
increment_member_score-served_example =
    increment_member_score-served memory ranking memory-Answers memory-Increments clock (λ w. refl)
      board ann (pos 10) (pos 15) store refl (omega arith) (omega arith) (omega arith) (omega arith)
      (λ t. refl)

-- A name whose time is to come, and a leaderboard at it.
abbrev lasting : Text
lasting = codes "from0000001000to0000001500"

abbrev seasonal : Store
seasonal = record store { sorted = update lasting standings store.sorted }

persist_leaderboard_expiration_time-Lasts_example :
    (w : Store) × (persist_leaderboard_expiration_time (service memory clock) lasting seasonal
      ≡ (ok tt, w))
    × Lasts memory ranking expires clock memory-Expiry
        (λ w. refl)
        lasting
        (at (pos 2000) 0)
        seasonal
        w
unfolding eq get_expire_at find from_to check_expire_at_errors parse_int unix
persist_leaderboard_expiration_time-Lasts_example =
    persist_leaderboard_expiration_time-Lasts memory ranking expires clock memory-Expiry (λ w. refl)
      lasting (pos 2000) seasonal refl refl (omega arith)

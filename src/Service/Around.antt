-- ===== src/Service/Around.antt =====
-- leaderboard/service: get_around_me.go and get_around_score.go.
pub mod Window
pub mod Served
pub mod Score
use go_leaderboard.Base.{Bool, true, List, [], ◌∷◌}
use go_leaderboard.Base.Int.{ℤ, pos}
use go_leaderboard.Base.Effect.{M, pure, fail, handle, wrap_err, ◌>>=◌, ◌>>◌}
use go_leaderboard.Base.Bytes.{Text, codes}
use go_leaderboard.Go.Strconv.{format_int}
use go_leaderboard.Database.Errors as Db
use go_leaderboard.Database.Errors.{DbError}
use go_leaderboard.Service.Errors.{ServiceError, member_not_found}
use go_leaderboard.Service.Defs.{Service, Member}
use go_leaderboard.Service.Members.{convert_members, fetch_member_rank}
use go_leaderboard.Service.Pages.{Index, indexes_around, failed}

abbrev pub first_or_empty : List Text → Text
first_or_empty [] = []
first_or_empty (m ∷ ms) = m

module _ {W : Type 0} (s : Service W) where
  unfoldable pub calculate_indexes_around_member_rank : Text → ℤ → ℤ → M W DbError Index
  calculate_indexes_around_member_rank leaderboard rank page_size = do
    total ← s.database.get_total_members leaderboard
    pure (indexes_around total rank page_size)

  unfoldable pub get_around_me : Text → ℤ → Text → Text → Bool → M W ServiceError (List Member)
  unfolding fetch_member_rank calculate_indexes_around_member_rank
  get_around_me leaderboard page_size member order get_last =
      let label = codes "get around me" in
      handle (fetch_member_rank s leaderboard member order get_last)
        (λ e. elim e [
          | Db.member_not_found l m ↦ fail (member_not_found leaderboard member)
          | other ↦ fail (failed label other)
        ])
        λ rank. do
          indexes ←
              wrap_err (failed label)
                (calculate_indexes_around_member_rank leaderboard rank page_size)
          ms ←
              wrap_err (failed label)
                (s.database.get_ordered_members leaderboard indexes.start indexes.stop order)
          pure (convert_members ms)

  unfoldable pub get_member_id_with_closest_score : Text → ℤ → M W ServiceError Text
  get_member_id_with_closest_score leaderboard score = do
    ids ← wrap_err (failed (codes "get around score")) (
        s.database.get_member_ids_with_score_inside_range leaderboard (codes "-inf")
          (format_int score) (pos 0) (pos 1))
    pure (first_or_empty ids)

  unfoldable pub get_around_score : Text → ℤ → ℤ → Text → M W ServiceError (List Member)
  unfolding fetch_member_rank calculate_indexes_around_member_rank get_member_id_with_closest_score
  get_around_score leaderboard page_size score order = do
    let label = codes "get around score"
    member ← get_member_id_with_closest_score leaderboard score
    rank ← wrap_err (failed label) (fetch_member_rank s leaderboard member order true)
    indexes ←
        wrap_err (failed label) (calculate_indexes_around_member_rank leaderboard rank page_size)
    ms ←
        wrap_err (failed label)
          (s.database.get_ordered_members leaderboard indexes.start indexes.stop order)
    pure (convert_members ms)

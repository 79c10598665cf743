-- ===== src/Client/Urls.antt =====
-- The URLs of the client: the functions build…URL. Names and ids go in as they are.
use go_leaderboard.Base.{Bool, true, false, ◌++◌, List, [], ◌∷◌, if◌then◌else◌}
use go_leaderboard.Base.Int.{ℤ, pos, leb_ℤ}
use go_leaderboard.Base.Bytes.{Text, codes}
use go_leaderboard.Go.Strconv.{format_int}
use go_leaderboard.Client.Defs.{Podium}

-- %t
unfoldable pub format_bool : Bool → Text
format_bool true = codes "true"
format_bool false = codes "false"

-- strings.Join(ids, ",")
unfoldable pub join : List Text → Text
join [] = []
join (s ∷ []) = s
join (s ∷ t ∷ ss) = s ++ b',' ∷ join (t ∷ ss)

unfoldable pub append_score_ttl_and_prev_rank : Text → ℤ → Text
append_score_ttl_and_prev_rank pathname score_ttl =
    let pathname' = pathname ++ codes "?prevRank=true" in
    if leb_ℤ score_ttl (pos 0)
    then pathname'
    else pathname' ++ (codes "&scoreTTL=" ++ format_int score_ttl)

module _ {W : Type 0} (p : Podium W) where
  unfoldable pub build_url : Text → Text
  build_url pathname = p.base_url ++ pathname

  unfoldable pub build_delete_leaderboard_url : Text → Text
  unfolding build_url
  build_delete_leaderboard_url leaderboard = build_url (codes "/l/" ++ leaderboard)

  unfoldable pub build_get_top_percent_url : Text → ℤ → Text
  unfolding build_url
  build_get_top_percent_url leaderboard percentage =
      build_url (codes "/l/" ++ (leaderboard ++ (codes "/top-percent/" ++ format_int percentage)))

  unfoldable pub build_update_score_url : Text → Text → ℤ → Text
  unfolding build_url append_score_ttl_and_prev_rank
  build_update_score_url leaderboard member_id score_ttl = build_url (
      append_score_ttl_and_prev_rank
        (codes "/l/" ++ (leaderboard ++ (codes "/members/" ++ (member_id ++ codes "/score"))))
        score_ttl)

  unfoldable pub build_increment_score_url : Text → Text → ℤ → Text
  unfolding build_update_score_url
  build_increment_score_url leaderboard member_id score_ttl =
      build_update_score_url leaderboard member_id score_ttl

  unfoldable pub build_update_scores_url : Text → ℤ → Text
  unfolding build_url append_score_ttl_and_prev_rank
  build_update_scores_url member_id score_ttl =
      build_url
        (append_score_ttl_and_prev_rank (codes "/m/" ++ (member_id ++ codes "/scores")) score_ttl)

  unfoldable pub build_update_members_score_url : Text → ℤ → Text
  unfolding build_url append_score_ttl_and_prev_rank
  build_update_members_score_url leaderboard score_ttl =
      build_url
        (append_score_ttl_and_prev_rank (codes "/l/" ++ (leaderboard ++ codes "/scores")) score_ttl)

  unfoldable pub build_remove_member_from_leaderboard_url : Text → Text → Text
  unfolding build_url
  build_remove_member_from_leaderboard_url leaderboard member =
      build_url (codes "/l/" ++ (leaderboard ++ (codes "/members/" ++ member)))

  unfoldable pub build_get_top_url : Text → ℤ → ℤ → Text
  unfolding build_url
  build_get_top_url leaderboard page page_size = build_url (
      codes "/l/"
      ++ (leaderboard
          ++ (codes "/top/" ++ (format_int page ++ (codes "?pageSize=" ++ format_int page_size)))))

  unfoldable pub build_get_member_url : Text → Text → Text
  unfolding build_url
  build_get_member_url leaderboard member_id =
      build_url (codes "/l/" ++ (leaderboard ++ (codes "/members/" ++ member_id)))

  unfoldable pub build_get_member_in_leaderboards_url : List Text → Text → Text → Text
  unfolding build_url join
  build_get_member_in_leaderboards_url leaderboards member_id order = build_url (
      codes "/m/"
      ++ (member_id
          ++ (codes "/scores?leaderboardIds="
              ++ (join leaderboards ++ (codes "&order=" ++ order)))))

  unfoldable pub build_get_count_url : Text → Text
  unfolding build_url
  build_get_count_url leaderboard =
      build_url (codes "/l/" ++ (leaderboard ++ codes "/members-count"))

  unfoldable pub build_get_members_around_member_url : Text → Text → ℤ → Bool → Text → Text
  unfolding build_url format_bool
  build_get_members_around_member_url leaderboard member_id page_size get_last_if_not_found order =
      build_url (
        codes "/l/"
        ++ (leaderboard
            ++ (codes "/members/"
                ++ (member_id
                    ++ (codes "/around?pageSize="
                        ++ (format_int page_size
                            ++ (codes "&getLastIfNotFound="
                                ++ (format_bool get_last_if_not_found
                                    ++ (codes "&order=" ++ order)))))))))

  unfoldable pub build_get_members_url : Text → List Text → Text
  unfolding build_url join
  build_get_members_url leaderboard member_ids =
      build_url (codes "/l/" ++ (leaderboard ++ (codes "/members?ids=" ++ join member_ids)))

  unfoldable pub build_healthcheck_url : Text
  unfolding build_url
  build_healthcheck_url = build_url (codes "/healthcheck")

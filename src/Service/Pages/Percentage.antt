-- ===== src/Service/Pages/Percentage.antt =====
-- How many members GetTopPercentage asks for.
use go_leaderboard.Base.{arith, if◌then◌else◌}
use go_leaderboard.Base.Int.{ℤ, pos, ltb_ℤ, ◌≤ℤ◌}
use go_leaderboard.Service.Pages.{share, members_to_return}

clipped :
    (k max : ℤ)
    → pos 1 ≤ℤ max
    → (pos 1 ≤ℤ (
        if ltb_ℤ max (if ltb_ℤ k (pos 1) then pos 1 else k)
        then max
        else (if ltb_ℤ k (pos 1) then pos 1 else k)))
      × ((if ltb_ℤ max (if ltb_ℤ k (pos 1) then pos 1 else k)
            then max
            else (if ltb_ℤ k (pos 1) then pos 1 else k))
          ≤ℤ max)
clipped k max h = ground arith

-- With a limit of at least 1, the number of members that GetTopPercentage asks for is from 1 to
-- the limit, whatever the total and the percentage.
pub members_to_return-bounds :
    (total amount max : ℤ)
    → pos 1 ≤ℤ max
    → (pos 1 ≤ℤ members_to_return total amount max) × (members_to_return total amount max ≤ℤ max)
unfolding members_to_return
members_to_return-bounds total amount max h = clipped (share total amount) max h

-- ===== src/Service/Pages/Top.antt =====
-- GetTopPercentage over a server that answers.
use Prim.Native.Nat.{min, max}
use go_leaderboard.Service.Pages.Quarters.{percent_of, share_exact}
use go_leaderboard.Base.{
  if◌then◌else◌, ◌*◌, ◌/◌, ℕ, suc, ◌+◌, ◌-◌, ◌≤◌, ◌<◌, ◌≡◌, refl, ap, ◌∙◌, arith, false, ◌||◌, List,
  map, length, length-take, take,
}
use go_leaderboard.Base.Int.{ℤ, pos, negsuc, ltb_ℤ, ◌≤ℤ◌, pos_part}
use go_leaderboard.Base.Effect.{ok}
use go_leaderboard.Base.Bytes.{Text, eq}
use go_leaderboard.Go.Time.{Time}
use go_leaderboard.Redis.Defs.{GoRedis, Z}
use go_leaderboard.Redis.Answers.{Answers}
use go_leaderboard.Redis.Sorted.{slice}
use go_leaderboard.Database.Ranks.{numbered}
use go_leaderboard.Database.Served.{
  Direction, up, down, order_name, in_order, of_z, get_total_members-length,
  get_ordered_members-slice,
}
use go_leaderboard.Service.Members.{convert_members}
use go_leaderboard.Service.Around.Window.{limit}
use go_leaderboard.Service.Pages.{members_to_return, get_top_percentage}
use go_leaderboard.Service.Pages.Percentage.{members_to_return-bounds}
use go_leaderboard.Service.Pages.Served.{
  service, ranked, convert-numbered, length-in_order, minus_one, slice-page,
}

as_positive : (z : ℤ) → pos 1 ≤ℤ z → z ≡ pos (suc (pos_part z - 1))
as_positive (pos n) h = ap (λ (m : ℕ). pos m) (omega arith)
as_positive (negsuc n) h = absurd (omega arith)

suc_pred : (z : ℤ) → pos 1 ≤ℤ z → suc (pos_part z - 1) ≡ pos_part z
suc_pred (pos n) h = omega arith
suc_pred (negsuc n) h = absurd (omega arith)

short : (z : ℤ) (max : ℕ) → z ≤ℤ pos max → max < limit → pos_part z - 1 < limit
short (pos n) max h b = omega arith
short (negsuc n) max h b = omega arith

as_stop : (k : ℕ) → k ≡ 0 + suc k - 1
as_stop k = omega arith

in_range : (a : ℕ) → 0 < a → a ≤ 100 → (ltb_ℤ (pos a) (pos 1) || ltb_ℤ (pos 100) (pos a)) ≡ false
in_range a p q = ground arith

module _ {W : Type 0} (g : GoRedis W) (ranking : W → Text → List Z) (a : Answers g ranking)
    (clock : W → Time × W) where
  top_slice :
      (zs : List Z) (k : ℕ)
      → length zs < limit
      → convert_members (numbered (pos 0) (map of_z (slice (pos 0) (pos k) zs)))
        ≡ ranked 0 (take (suc k) zs)
  top_slice zs k h =
      rw
        (ap (λ (j : ℕ). slice (pos 0) (pos j) zs) (as_stop k)
          ∙ slice-page 0 (suc k) zs (omega arith))
        (convert-numbered 0 (take (suc k) zs) (omega (arith, length-take (suc k) zs)))

  top_of :
      (lb : Text) (d : Direction) (w : W) (page_size : ℤ) (percent max k : ℕ)
      → 0 < percent
      → percent ≤ 100
      → members_to_return (pos (length (ranking w lb))) (pos percent) (pos max) ≡ pos (suc k)
      → k < limit
      → length (ranking w lb) < limit
      → get_top_percentage (service g clock) lb page_size (pos percent) (pos max) (order_name d) w
        ≡ (ok (ranked 0 (take (suc k) (in_order d (ranking w lb)))), w)
  unfolding get_top_percentage eq
  top_of lb up w page_size percent max k p q e b h =
      rw (in_range percent p q, get_total_members-length g ranking a lb w)
        (rw e (
          rw (minus_one k b) (
            rw (get_ordered_members-slice g ranking a lb (pos 0) (pos k) up w)
              (rw (top_slice (ranking w lb) k h) refl))))
  top_of lb down w page_size percent max k p q e b h =
      rw (in_range percent p q, get_total_members-length g ranking a lb w)
        (rw e (
          rw (minus_one k b) (
            rw (get_ordered_members-slice g ranking a lb (pos 0) (pos k) down w) (
              rw
                (top_slice (in_order down (ranking w lb)) k
                  (omega (arith, length-in_order down (ranking w lb))))
                refl))))

  -- Over a server that answers, for a percentage from 1 to 100, a limit from 1 and below 2^62 and
  -- fewer than 2^62 members, GetTopPercentage returns the first members of the ranking in the
  -- order asked, each with its rank from 1, as many as the share, kept between 1 and the limit.
  pub get_top_percentage-take :
      (lb : Text) (d : Direction) (w : W) (page_size : ℤ) (percent max : ℕ)
      → 0 < percent
      → percent ≤ 100
      → 0 < max
      → max < limit
      → length (ranking w lb) < limit
      → get_top_percentage (service g clock) lb page_size (pos percent) (pos max) (order_name d) w
        ≡ (
          ok (
              ranked 0 (
                take
                  (pos_part
                    (members_to_return (pos (length (ranking w lb))) (pos percent) (pos max)))
                  (in_order d (ranking w lb)))),
          w,
        )
  get_top_percentage-take lb d w page_size percent max p q m b h =
      let n = members_to_return (pos (length (ranking w lb))) (pos percent) (pos max) in
      let (low, high) =
        members_to_return-bounds (pos (length (ranking w lb))) (pos percent) (pos max)
          (omega arith) in
      let e : n ≡ pos (suc (pos_part n - 1)) = as_positive n low in
      top_of lb d w page_size percent max (pos_part n - 1) p q e (short n max high b) h
      ∙ ap (λ (j : ℕ). (ok (ranked 0 (take j (in_order d (ranking w lb)))), w)) (suc_pred n low)

  members_to_return-exact :
      (t q most : ℕ)
      → 0 < q
      → q ≤ 4
      → t < 1125899906842624
      → pos_part (members_to_return (pos t) (pos (percent_of q)) (pos most))
        ≡ min most (max 1 ((t * percent_of q) / 100))
  unfolding members_to_return
  members_to_return-exact t q most p b h =
      rw (share_exact t q p b h) (clip ((t * percent_of q) / 100) most)
    where
      clip :
          (k most : ℕ)
          → pos_part (
              if ltb_ℤ (pos most) (if ltb_ℤ (pos k) (pos 1) then pos 1 else pos k)
              then pos most
              else (if ltb_ℤ (pos k) (pos 1) then pos 1 else pos k))
            ≡ min most (max 1 k)
      clip k most = ground arith

  -- Over a server that answers, for 25, 50, 75 or 100 percent, a limit from 1 and below 2^62 and
  -- fewer than 2^50 members, GetTopPercentage returns the first members of the ranking in the
  -- order asked, each with its rank from 1: as many as that percentage of the members, rounded
  -- down, but at least one and at most the limit.
  pub get_top_percentage-quarters :
      (lb : Text) (d : Direction) (w : W) (page_size : ℤ) (q most : ℕ)
      → 0 < q
      → q ≤ 4
      → 0 < most
      → most < limit
      → length (ranking w lb) < 1125899906842624
      → get_top_percentage
          (service g clock)
          lb
          page_size
          (pos (percent_of q))
          (pos most)
          (order_name d)
          w
        ≡ (
          ok (
              ranked 0 (
                take
                  (min most (max 1 ((length (ranking w lb) * percent_of q) / 100)))
                  (in_order d (ranking w lb)))),
          w,
        )
  get_top_percentage-quarters lb d w page_size q most p b m l h =
      get_top_percentage-take lb d w page_size (percent_of q) most (omega arith) (omega arith) m l
        (omega arith)
      ∙ ap (λ (j : ℕ). (ok (ranked 0 (take j (in_order d (ranking w lb)))), w))
          (members_to_return-exact (length (ranking w lb)) q most p b h)

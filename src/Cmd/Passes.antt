-- ===== src/Cmd/Passes.antt =====
-- The smoke test against a server that answers every request with 200.
use go_leaderboard.Base.{ℕ, zero, suc, ◌+◌, ◌≡◌, refl, arith, true, [], ◌++◌}
use go_leaderboard.Base.Int.{ℤ, pos, ◌-ℤ◌}
use go_leaderboard.Base.Effect.{M, ok, ◌>>◌}
use go_leaderboard.Base.Bytes.{Text, codes, eq}
use go_leaderboard.Cmd.Smoke.{
  Http, do_request, body_of, check, answer_of, expect_200, do_health_check, for_each, smoke,
  add_member_score, get_member, get_members, get_rank, get_around, get_number_of_members,
  get_top_members, get_top_percentage, remove_member, remove_leaderboard, member_name,
}

-- A server that is up: each request is answered with 200 and counted, and the health check says so.
pub record IsUp {W : Type 0} (http : Http W) (base_url : Text) (count : W → ℕ) : Type 0 where
  pub requests :
      (method url : Text) (body : Text) → http.new_request method url (body_of body) ≡ true
  pub replies :
      (method url body : Text) (w : W)
      → (text : Text) × (w' : W) × (http.do_request method url (body_of body) w
          ≡ (ok (record { status_code = pos 200; read = ok text }), w'))
        × (count w' ≡ suc (count w))
  pub health :
      (w : W)
      → (w' : W) × (http.do_request (codes "GET") (base_url ++ codes "/healthcheck") (body_of []) w
          ≡ (ok (record { status_code = pos 200; read = ok (codes "WORKING") }), w'))
        × (count w' ≡ suc (count w))

module _ {W : Type 0} (http : Http W) (base_url : Text) (count : W → ℕ)
    (up : IsUp http base_url count) where
  -- The call succeeds after n requests.
  Passes : ℕ → M W Text (Unit {0}) → Type 0
  Passes n m = (w : W) → (w' : W) × (m w ≡ (ok tt, w')) × (count w' ≡ count w + n)

  Passes-then :
      (n k : ℕ) (m m' : M W Text (Unit {0})) → Passes n m → Passes k m' → Passes (n + k) (m >> m')
  unfolding Passes
  Passes-then n k m m' p q w =
      let (w', e, c) = p w in let (w'', e', c') = q w' in (w'', rw e e', omega (arith, c, c'))

  Passes-for_each :
      (body : ℕ → M W Text (Unit {0}))
      → ((i : ℕ) → Passes 1 (body i))
      → (left i : ℕ) → Passes left (for_each http base_url left i body)
  unfolding Passes for_each
  Passes-for_each body p zero i w = (w, refl, omega arith)
  Passes-for_each body p (suc left) i w =
      let (w', e, c) = p i w in
      let (w'', e', c') = Passes-for_each body p left (i + 1) w' in
      (w'', rw e e', omega (arith, c, c'))

  Passes-health : Passes 1 (do_health_check http base_url)
  unfolding Passes do_health_check do_request check answer_of eq
  Passes-health w =
      let (w', e, c) = up.health w in
      (
        w',
        rw (up.requests (codes "GET") (base_url ++ codes "/healthcheck") []) (rw e refl),
        omega (arith, c),
      )

  Passes-expect_200 :
      (what method url body : Text) → Passes 1 (expect_200 http base_url what method url body)
  unfolding Passes expect_200 do_request check answer_of
  Passes-expect_200 what method url body w =
      let (text, w', e, c) = up.replies method (base_url ++ url) body w in
      (w', rw (up.requests method (base_url ++ url) body) (rw e refl), omega (arith, c))

  Passes-top : (lb : Text) → Passes 1 (get_top_percentage http base_url lb)
  unfolding Passes get_top_percentage do_request check answer_of
  Passes-top lb w =
      let url = codes "/l/" ++ (lb ++ codes "/top-percent/5") in
      let (text, w', e, c) = up.replies (codes "GET") (base_url ++ url) [] w in
      (w', rw (up.requests (codes "GET") (base_url ++ url) []) (rw e refl), omega (arith, c))

  add_member_score-Passes : (lb m : Text) (s : ℤ) → Passes 1 (add_member_score http base_url lb m s)
  unfolding add_member_score
  add_member_score-Passes lb m s = Passes-expect_200 _ _ _ _

  get_member-Passes : (lb m : Text) → Passes 1 (get_member http base_url lb m)
  unfolding get_member
  get_member-Passes lb m = Passes-expect_200 _ _ _ _

  get_members-Passes : (lb ms : Text) → Passes 1 (get_members http base_url lb ms)
  unfolding get_members
  get_members-Passes lb ms = Passes-expect_200 _ _ _ _

  get_rank-Passes : (lb m : Text) → Passes 1 (get_rank http base_url lb m)
  unfolding get_rank
  get_rank-Passes lb m = Passes-expect_200 _ _ _ _

  get_around-Passes : (lb m : Text) → Passes 1 (get_around http base_url lb m)
  unfolding get_around
  get_around-Passes lb m = Passes-expect_200 _ _ _ _

  get_number_of_members-Passes : (lb : Text) → Passes 1 (get_number_of_members http base_url lb)
  unfolding get_number_of_members
  get_number_of_members-Passes lb = Passes-expect_200 _ _ _ _

  get_top_members-Passes : (lb : Text) → Passes 1 (get_top_members http base_url lb)
  unfolding get_top_members
  get_top_members-Passes lb = Passes-expect_200 _ _ _ _

  remove_member-Passes : (lb m : Text) → Passes 1 (remove_member http base_url lb m)
  unfolding remove_member
  remove_member-Passes lb m = Passes-expect_200 _ _ _ _

  remove_leaderboard-Passes : (lb : Text) → Passes 1 (remove_leaderboard http base_url lb)
  unfolding remove_leaderboard
  remove_leaderboard-Passes lb = Passes-expect_200 _ _ _ _

  smoke-Passes : (lb : Text) → Passes 506 (smoke http base_url lb)
  unfolding smoke
  smoke-Passes lb = Passes-then 1 505 _ _ Passes-health (
      Passes-then 100 405 _ _
        (Passes-for_each _
          (λ i. add_member_score-Passes lb (member_name http base_url i) (pos 100 -ℤ pos i)) 100 0)
        (Passes-then 100 305 _ _
          (Passes-for_each _ (λ i. get_member-Passes lb (member_name http base_url i)) 100 0)
          (Passes-then 1 304 _ _ (get_members-Passes lb _) (
            Passes-then 100 204 _ _
              (Passes-for_each _ (λ i. get_rank-Passes lb (member_name http base_url i)) 100 0)
              (Passes-then 100 104 _ _
                (Passes-for_each _ (λ i. get_around-Passes lb (member_name http base_url i)) 100 0)
                (Passes-then 1 103 _ _ (get_number_of_members-Passes lb) (
                  Passes-then 1 102 _ _ (get_top_members-Passes lb) (
                    Passes-then 1 101 _ _ (Passes-top lb) (
                      Passes-then 100 1 _ _
                        (Passes-for_each _
                          (λ i. remove_member-Passes lb (member_name http base_url i)) 100 0)
                        (remove_leaderboard-Passes lb))))))))))

  -- Against a server that answers every request with 200 and the health check with WORKING, the
  -- smoke test ends without an error, after exactly 506 requests.
  pub smoke_lem :
      (lb : Text) (w : W)
      → (w' : W) × (smoke http base_url lb w ≡ (ok tt, w')) × (count w' ≡ count w + 506)
  unfolding Passes
  smoke_lem lb w = smoke-Passes lb w

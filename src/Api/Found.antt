-- ===== src/Api/Found.antt =====
-- GetMembers of the API over a server that answers: who is reported as not found.
use go_leaderboard.Base.{
  ℕ, ◌≡◌, refl, ap, ◌∙◌, sym, arith, Bool, true, false, ◌||◌, Option, none, some, List, [], ◌∷◌,
  map, Bool-cases, Option-cases, inl, inr,
}
use go_leaderboard.Base.Int.{ℤ}
use go_leaderboard.Base.Effect.{ok}
use go_leaderboard.Go.Float.{Float64}
use go_leaderboard.Go.Time.{Time}
use go_leaderboard.Go.Strconv.{split}
use go_leaderboard.Redis.Answers.{Answers}
use go_leaderboard.Redis.Sorted.{position, score_of}
use go_leaderboard.Redis.Sorted.Listed.{Standing, absent, present, standing}
use go_leaderboard.Database.Served.{Direction, up, down, order_name, in_order}
use go_leaderboard.Database.Served.Members.{seen, seen_with}
use go_leaderboard.Service.Pages.Served.{service}
use go_leaderboard.Api.Defs.{App, report, get_order}
use go_leaderboard.Base.Bytes.{Text, eq, eq_iff, eq_refl}
use go_leaderboard.Redis.Defs.{GoRedis, Z}
use go_leaderboard.Redis.Removes.{has}
use go_leaderboard.Database.Defs.{DbMember}
use go_leaderboard.Service.Defs.{Member}
use go_leaderboard.Service.Reads.Served.{get_members-found}
use go_leaderboard.Service.Reads.{member_of, found_members, insert_by_rank, sort_by_rank}
use go_leaderboard.Api.Many.{
  GetMembersResponse, new_get_members_response_list, get_members, is_found, not_found_ids,
}

is_found-insert_by_rank :
    (id : Text) (m : Member) (ms : List Member)
    → is_found id (insert_by_rank m ms) ≡ (eq m.public_id id || is_found id ms)
unfolding is_found insert_by_rank
is_found-insert_by_rank id m [] = refl
is_found-insert_by_rank id m (n ∷ ns) = ground (arith, is_found-insert_by_rank id m ns)

is_found-sort_by_rank :
    (id : Text) (ms : List Member) → is_found id (sort_by_rank ms) ≡ is_found id ms
unfolding sort_by_rank is_found
is_found-sort_by_rank id [] = refl
is_found-sort_by_rank id (m ∷ ms) =
    is_found-insert_by_rank id m (sort_by_rank ms)
    ∙ ap (λ (b : Bool). eq m.public_id id || b) (is_found-sort_by_rank id ms)

-- The texts for which a lookup has nothing.
unfoldable pub absent_of : {A : Type 0} → (Text → Option A) → List Text → List Text
absent_of f [] = []
absent_of f (m ∷ ms) = let rest = absent_of f ms in elim (f m) [ none ↦ m ∷ rest | some d ↦ rest ]

module _ (f : Text → Option DbMember)
    (named : (m : Text) (d : DbMember) → f m ≡ some d → d.member ≡ m) where
  found_first :
      (m : Text) (ms : List Text) (id : Text) (d : DbMember)
      → f m ≡ some d
      → is_found id (found_members (map f (m ∷ ms)))
        ≡ (eq m id || is_found id (found_members (map f ms)))
  unfolding is_found found_members member_of
  found_first m ms id d e =
      rw e (ap (λ (k : Text). eq k id || is_found id (found_members (map f ms))) (named m d e))

  absent-is_found :
      (id : Text) (ms : List Text) → f id ≡ none → is_found id (found_members (map f ms)) ≡ false
  unfolding is_found found_members
  absent-is_found id [] h = refl
  absent-is_found id (m ∷ ms) h = elim (Option-cases (f m)) [
    | inl e ↦ rw e (absent-is_found id ms h)
    | inr (d, e) ↦ found_first m ms id d e ∙ rw (other m d e) (absent-is_found id ms h)
  ]
    where
      other : (m : Text) (d : DbMember) → f m ≡ some d → eq m id ≡ false
      other m d e = elim (Bool-cases (eq m id)) [
        | inl t ↦ absurd (cc (ap f ((eq_iff m id).0 t), e, h))
        | inr t ↦ t
      ]

  present-is_found :
      (id : Text) (ms : List Text) (d : DbMember)
      → f id ≡ some d
      → has id ms ≡ true
      → is_found id (found_members (map f ms)) ≡ true
  unfolding found_members has
  present-is_found id [] d h k = cc
  present-is_found id (m ∷ ms) d h k = elim (Bool-cases (eq m id)) [
    | inl t ↦
        (let e : f m ≡ some d = ap f ((eq_iff m id).0 t) ∙ h in found_first m ms id d e ∙ rw t refl)
    | inr t ↦ elim (Option-cases (f m)) [
      | inl e ↦ rw e (present-is_found id ms d h (ground arith))
      | inr (x, e) ↦ found_first m ms id x e ∙ rw t (present-is_found id ms d h (ground arith))
    ]
  ]

  not_found_ids-absent_of :
      (ids xs : List Text)
      → ((x : Text) → has x xs ≡ true → has x ids ≡ true)
      → not_found_ids xs (sort_by_rank (found_members (map f ids))) ≡ absent_of f xs
  unfolding not_found_ids absent_of has
  not_found_ids-absent_of ids [] h = refl
  not_found_ids-absent_of ids (m ∷ xs) h =
      let rest = not_found_ids-absent_of ids xs (λ x k. h x (ground arith)) in
      let sorted = is_found-sort_by_rank m (found_members (map f ids)) in
      elim (Option-cases (f m)) [
        | inl e ↦
            rw (e, sorted ∙ absent-is_found m ids e, absent_of, not_found_ids)
              (ap (λ ys. m ∷ ys) rest)
        | inr (d, e) ↦
            rw
              (
                e,
                sorted ∙ present-is_found m ids d e (h m (rw (eq_refl m) refl)),
                absent_of,
                not_found_ids,
              )
              rest
      ]

-- Lookups that agree on who is there.
absent_of-agree :
    {A B : Type 0} (f : Text → Option A) (h : Text → Option B)
    → ((m : Text) → (h m ≡ none → f m ≡ none))
    → ((m : Text) (b : B) → h m ≡ some b → (a : A) × (f m ≡ some a))
    → (ids : List Text) → absent_of f ids ≡ absent_of h ids
unfolding absent_of
absent_of-agree f h p q [] = refl
absent_of-agree f h p q (m ∷ ms) = elim (Option-cases (h m)) [
  | inl e ↦ rw (e, p m e, absent_of) (ap (λ ys. m ∷ ys) (absent_of-agree f h p q ms))
  | inr (b, e) ↦ (let (a, d) = q m b e in rw (e, d, absent_of) (absent_of-agree f h p q ms))
]

seen_with-named :
    (m : Text) (t : Time) (x : Option Float64) (i : Option ℕ) (d : DbMember)
    → seen_with m t x i ≡ some d
    → d.member ≡ m
seen_with-named m t none i d e = cc
seen_with-named m t (some x) none d e = cc
seen_with-named m t (some x) (some i) d e =
    ap (λ (o : Option DbMember). elim o [ none ↦ m | some y ↦ y.member ]) (sym e)

seen_with-present :
    (m : Text) (t : Time) (x : Float64) (i : ℕ)
    → (d : DbMember) × (seen_with m t (some x) (some i) ≡ some d)
seen_with-present m t x i = (_, refl)

module _ {W : Type 0} (g : GoRedis W) (ranking : W → Text → List Z) (a : Answers g ranking)
    (clock : W → Time × W) (max : ℤ) (add_error : W → W) where
  abbrev handlers : App W
  handlers = record {
    leaderboards = service g clock;
    max_returned_members = max;
    add_error = add_error;
  }

  seen-named :
      (lb : Text) (dir : Direction) (ttl : Bool) (w : W) (m : Text) (d : DbMember)
      → seen g ranking a lb dir ttl w m ≡ some d
      → d.member ≡ m
  seen-named lb dir ttl w m d e =
      seen_with-named m _ (score_of m (ranking w lb)) (position m (in_order dir (ranking w lb))) d e

  seen-absent :
      (lb : Text) (dir : Direction) (ttl : Bool) (w : W) (m : Text)
      → score_of m (ranking w lb) ≡ none
      → seen g ranking a lb dir ttl w m ≡ none
  seen-absent lb dir ttl w m e = rw e refl

  seen-present :
      (lb : Text) (dir : Direction) (ttl : Bool) (w : W) (m : Text) (x : Float64)
      → score_of m (ranking w lb) ≡ some x
      → (d : DbMember) × (seen g ranking a lb dir ttl w m ≡ some d)
  seen-present lb dir ttl w m x e = from dir (standing m (ranking w lb))
    where
      from :
          (dir : Direction)
          → Standing m (ranking w lb)
          → (d : DbMember) × (seen g ranking a lb dir ttl w m ≡ some d)
      from dir (absent s p q) = absurd (cc (s, e))
      from up (present y i j s p q) = rw (s, p) (seen_with-present m _ y i)
      from down (present y i j s p q) = rw (s, q) (seen_with-present m _ y j)

  answer : Text → Direction → Bool → Text → W → GetMembersResponse
  answer lb dir ttl ids w =
      let ms = sort_by_rank (found_members (map (seen g ranking a lb dir ttl w) (split ids))) in
      record {
        members = new_get_members_response_list 0 ms;
        not_found = not_found_ids (split ids) ms;
      }

  missing :
      (lb : Text) (dir : Direction) (ttl : Bool) (ids : Text) (w : W)
      → (answer lb dir ttl ids w).not_found ≡ absent_of (λ m. score_of m (ranking w lb)) (split ids)
  unfolding answer
  missing lb dir ttl ids w =
      not_found_ids-absent_of (seen g ranking a lb dir ttl w) (seen-named lb dir ttl w) (split ids)
        (split ids) (λ x k. k)
      ∙ absent_of-agree (seen g ranking a lb dir ttl w) (λ m. score_of m (ranking w lb))
          (seen-absent lb dir ttl w) (seen-present lb dir ttl w) (split ids)

  -- Over a server that answers, for a list of ids that is not empty, GetMembers of the API
  -- succeeds, and reports as not found exactly those of the ids between the commas that have no
  -- score on the leaderboard, in the order asked.
  pub get_members-not_found :
      (lb : Text) (dir : Direction) (ttl : Bool) (ids : Text) (w : W)
      → eq ids [] ≡ false
      → (r : GetMembersResponse) × (get_members handlers lb (order_name dir) ttl ids w ≡ (ok r, w))
        × (r.not_found ≡ absent_of (λ m. score_of m (ranking w lb)) (split ids))
  unfolding get_members report get_order eq answer
  get_members-not_found lb up ttl ids w h = (
    answer lb up ttl ids w,
    rw h (rw (get_members-found g ranking a clock lb (split ids) up ttl w) refl),
    missing lb up ttl ids w,
  )
  get_members-not_found lb down ttl ids w h = (
    answer lb down ttl ids w,
    rw h (rw (get_members-found g ranking a clock lb (split ids) down ttl w) refl),
    missing lb down ttl ids w,
  )

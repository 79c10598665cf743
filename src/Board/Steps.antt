-- ===== src/Board/Steps.antt =====
-- One command over a server that answers.
use mathlib.Core.Option
use go_leaderboard.Base.{
  ◌∷◌, map, length-map, ℕ, ◌+◌, ◌<◌, ◌≡◌, refl, ap, ◌∙◌, arith, ◌&&◌, Bool, true, false,
  if◌then◌else◌, Option, none, some, List, [], length, Bool-cases, Option-cases, inl, inr,
}
use go_leaderboard.Base.Int.{ℤ, ◌+ℤ◌}
use go_leaderboard.Base.Effect.{ok, pure, resume}
use go_leaderboard.Base.Bytes.{Text, eq, eq_iff}
use go_leaderboard.Go.Float.{of_int, to_int, to_int-of_int}
use go_leaderboard.Go.Time.{Time}
use go_leaderboard.Redis.Defs.{GoRedis, Z}
use go_leaderboard.Redis.Answers.{Answers}
use go_leaderboard.Redis.Increments.{Increments, IsScore}
use go_leaderboard.Redis.Removes.{Removes, without_all, has}
use go_leaderboard.Redis.Sorted.{score_of, add_one, add_all}
use go_leaderboard.Service.Pages.Served.{service}
use go_leaderboard.Service.Around.Window.{limit}
use go_leaderboard.Redis.Sorted.Listed.{Standing, standing, absent, present}
use go_leaderboard.Database.Served.{down}
use go_leaderboard.Database.Served.Members.{seen}
use go_leaderboard.Service.Errors.{ServiceError}
use go_leaderboard.Service.Reads.{member_of}
use go_leaderboard.Service.Reads.Served.{member_outcome, get_member-seen}
use go_leaderboard.Service.Writes.Placed.{entry, length-add_one}
use go_leaderboard.Service.Writes.Served.{Scored, set_member_score-served}
use go_leaderboard.Service.Defs.{Member}
use go_leaderboard.Service.Writes.Bulk.{
  ScoredAll, entry_of, set_members_score-served, length-add_all,
}
use go_leaderboard.Service.Writes.Incremented.{increment_member_score-served}
use go_leaderboard.Service.Writes.Removed.{remove_members-served, remove_leaderboard-served}
use go_leaderboard.Board.{
  Board, Command, set_scores, last_score, cost, set_score, increment, remove, remove_all, read,
  apply, reply, score_or_zero, Fits, execute, IsSmallScore,
}
use go_leaderboard.Board.Lookups.{score_of-without_all_if, length-without_all}
use go_leaderboard.Redis.Sorted.Added.{score_of-add_one_if}

-- A list of scores written one after the other.
score_of-add_all :
    (x : Text) (ms : List Member) (zs : List Z) (old : Option ℤ)
    → score_of x zs ≡ Option.map of_int old
    → score_of x (add_all (map entry_of ms) zs) ≡ Option.map of_int (last_score x ms old)
unfolding add_all
score_of-add_all x [] zs old h = h
score_of-add_all x (m ∷ ms) zs old h =
    score_of-add_all x ms (add_one (entry_of m) zs) (if eq m.public_id x then some m.score else old)
      (score_of-add_one_if x (entry_of m) zs ∙ chosen (eq m.public_id x))
  where
    chosen :
        (t : Bool)
        → (if t then some (of_int m.score) else score_of x zs)
          ≡ Option.map of_int (if t then some m.score else old)
    chosen true = refl
    chosen false = h

module _ {W : Type 0} (g : GoRedis W) (ranking : W → Text → List Z) (sets : W → Text → List Text)
    (a : Answers g ranking) (b : Increments g ranking) (d : Removes g ranking sets)
    (clock : W → Time × W) (still : (w : W) → (clock w).1 ≡ w) where
  -- The server holds the scores of the board.
  abbrev pub Represents : W → Board → Type 0
  Represents w board = (l m : Text) → score_of m (ranking w l) ≡ Option.map of_int (board l m)

  -- There is room for n more members in every leaderboard.
  abbrev pub HasRoom : ℕ → W → Type 0
  HasRoom n w = (l : Text) → length (ranking w l) + n < limit

  -- After one member was given a score.
  Scored-Represents :
      (lb m : Text) (s : ℤ) (w w' : W) (board : Board)
      → Scored g ranking a clock still lb m s w w'
      → Represents w board
      → (l x : Text)
      → score_of x (ranking w' l)
        ≡ Option.map of_int (if eq lb l && eq m x then some s else board l x)
  Scored-Represents lb m s w w' board r h l x = elim (Bool-cases (eq lb l)) [
    | inl e ↦
        rw (r l, e)
          (score_of-add_one_if x (entry m s) (ranking w lb)
            ∙ chosen (eq m x)
                (ap (λ (k : Text). score_of x (ranking w k)) ((eq_iff lb l).0 e) ∙ h l x))
    | inr e ↦ rw (r l, e) (h l x)
  ]
    where
      chosen :
          (t : Bool)
          → score_of x (ranking w lb) ≡ Option.map of_int (board l x)
          → (if t then some (of_int s) else score_of x (ranking w lb))
            ≡ Option.map of_int (if t then some s else board l x)
      chosen true q = refl
      chosen false q = q

  Scored-HasRoom :
      (lb m : Text) (s : ℤ) (n : ℕ) (w w' : W)
      → Scored g ranking a clock still lb m s w w'
      → HasRoom (1 + n) w
      → HasRoom n w'
  Scored-HasRoom lb m s n w w' r h l = elim (Bool-cases (eq lb l)) [
    | inl e ↦ rw (r l, e) (omega (arith, length-add_one (entry m s) (ranking w lb), h lb))
    | inr e ↦ rw (r l, e) (omega (arith, h l))
  ]

  many-Represents :
      (lb : Text) (ms : List Member) (prev : Bool) (w w' : W) (board : Board)
      → ScoredAll g ranking a clock still lb ms w w'
      → Represents w board
      → Represents w' (apply (set_scores lb ms prev) board)
  many-Represents lb ms prev w w' board r h l x = elim (Bool-cases (eq lb l)) [
    | inl e ↦
        rw (r l, e)
          (score_of-add_all x ms (ranking w lb) (board l x)
            (ap (λ (k : Text). score_of x (ranking w k)) ((eq_iff lb l).0 e) ∙ h l x))
    | inr e ↦ rw (r l, e) (h l x)
  ]

  many-HasRoom :
      (lb : Text) (ms : List Member) (n : ℕ) (w w' : W)
      → ScoredAll g ranking a clock still lb ms w w'
      → HasRoom (length ms + n) w
      → HasRoom n w'
  many-HasRoom lb ms n w w' r h l = elim (Bool-cases (eq lb l)) [
    | inl e ↦
        rw (r l, e)
          (omega
            (arith, length-add_all (map entry_of ms) (ranking w lb), length-map entry_of ms, h lb))
    | inr e ↦ rw (r l, e) (omega (arith, h l))
  ]

  removed-Represents :
      (lb : Text) (ms : List Text) (w w' : W) (board : Board)
      → ((j : Text)
          → ranking w' j ≡ (if eq lb j then without_all ms (ranking w lb) else ranking w j))
      → Represents w board
      → Represents w' (apply (remove lb ms) board)
  removed-Represents lb ms w w' board r h l x = elim (Bool-cases (eq lb l)) [
    | inl e ↦
        rw (r l, e)
          (score_of-without_all_if x ms (ranking w lb)
            ∙ chosen (has x ms)
                (ap (λ (k : Text). score_of x (ranking w k)) ((eq_iff lb l).0 e) ∙ h l x))
    | inr e ↦ rw (r l, e) (h l x)
  ]
    where
      chosen :
          (t : Bool)
          → score_of x (ranking w lb) ≡ Option.map of_int (board l x)
          → (if t then none else score_of x (ranking w lb))
            ≡ Option.map of_int (if t then none else board l x)
      chosen true q = refl
      chosen false q = q

  removed-HasRoom :
      (lb : Text) (ms : List Text) (n : ℕ) (w w' : W)
      → ((j : Text)
          → ranking w' j ≡ (if eq lb j then without_all ms (ranking w lb) else ranking w j))
      → HasRoom (1 + n) w
      → HasRoom n w'
  removed-HasRoom lb ms n w w' r h l = elim (Bool-cases (eq lb l)) [
    | inl e ↦ rw (r l, e) (omega (arith, length-without_all ms (ranking w lb), h lb))
    | inr e ↦ rw (r l, e) (omega (arith, h l))
  ]

  emptied-Represents :
      (lb : Text) (w w' : W) (board : Board)
      → ((j : Text) → ranking w' j ≡ (if eq lb j then [] else ranking w j))
      → Represents w board
      → Represents w' (apply (remove_all lb) board)
  unfolding score_of
  emptied-Represents lb w w' board r h l x = elim (Bool-cases (eq lb l)) [
    | inl e ↦ rw (r l, e) refl
    | inr e ↦ rw (r l, e) (h l x)
  ]

  emptied-HasRoom :
      (lb : Text) (n : ℕ) (w w' : W)
      → ((j : Text) → ranking w' j ≡ (if eq lb j then [] else ranking w j))
      → HasRoom (1 + n) w
      → HasRoom n w'
  emptied-HasRoom lb n w w' r h l = elim (Bool-cases (eq lb l)) [
    | inl e ↦ rw (r l, e) (omega (arith, h l))
    | inr e ↦ rw (r l, e) (omega (arith, h l))
  ]

  -- A read finds the score of the board, and changes nothing.
  read-reply :
      (lb m : Text) (w : W) (board : Board)
      → Represents w board
      → IsSmallScore (board lb m)
      → execute (service g clock) (read lb m) w ≡ (ok (board lb m), w)
  unfolding execute member_of
  read-reply lb m w board h small =
      rw (get_member-seen g ranking a clock lb m down false w)
        (from (board lb m) (standing m (ranking w lb)) (h lb m) small)
    where
      from :
          (o : Option ℤ)
          → Standing m (ranking w lb)
          → score_of m (ranking w lb) ≡ Option.map of_int o
          → IsSmallScore o
          → resume {F = ServiceError}
              (member_outcome g ranking a clock lb m (seen g ranking a lb down false w m))
              (λ _. pure none)
              (λ r. pure (some r.score))
              w
            ≡ (ok o, w)
      from none (absent s p q) e f = rw s refl
      from none (present x i j s p q) e f = absurd (cc (s, e))
      from (some z) (absent s p q) e f = absurd (cc (s, e))
      from (some z) (present x i j s p q) e f =
          rw (s, q) (ap (λ (v : ℤ). (ok (some v), w)) (ap to_int (cc (s, e)) ∙ to_int-of_int z f))

  -- What a command does to the server, in terms of the board.
  pub record Refined (c : Command) (n : ℕ) (w : W) (board : Board) : Type 0 where
    pub world : W
    pub answered : execute (service g clock) c w ≡ (ok (reply c board), world)
    pub represents : Represents world (apply c board)
    pub room : HasRoom n world

  score_of-IsScore :
      (lb m : Text) (w : W) (board : Board)
      → Represents w board
      → IsScore (score_of m (ranking w lb)) (score_or_zero (board lb m))
  score_of-IsScore lb m w board h = elim (Option-cases (board lb m)) [
    | inl e ↦ rw (h lb m ∙ ap (Option.map of_int) e, e) refl
    | inr (z, e) ↦ rw (h lb m ∙ ap (Option.map of_int) e, e) refl
  ]

  pub execute-Refined :
      (c : Command) (n : ℕ) (w : W) (board : Board)
      → Represents w board
      → HasRoom (cost c + n) w
      → Fits c board
      → Refined c n w board
  unfolding execute
  execute-Refined (set_score lb m s prev) n w board h room fits =
      let (w', j, e, q, r) =
        set_member_score-served g ranking a clock still lb m s prev w fits.0
          (omega (arith, room lb)) fits.1 in
      record {
        world = w';
        answered = rw e refl;
        represents = Scored-Represents lb m s w w' board r h;
        room = Scored-HasRoom lb m s n w w' r room;
      }
  execute-Refined (set_scores lb ms prev) n w board h room fits =
      let (w', e, listed, r) =
        set_members_score-served g ranking a clock still lb ms prev w fits.0
          (omega (arith, room lb)) fits.1 in
      record {
        world = w';
        answered = rw e refl;
        represents = many-Represents lb ms prev w w' board r h;
        room = many-HasRoom lb ms n w w' r room;
      }
  execute-Refined (increment lb m i) n w board h room fits =
      let old = score_or_zero (board lb m) in
      let (w', j, e, q, r) =
        increment_member_score-served g ranking a b clock still lb m old i w
          (score_of-IsScore lb m w board h) fits.0 fits.1 fits.2 (omega (arith, room lb)) fits.3 in
      record {
        world = w';
        answered = rw e refl;
        represents = Scored-Represents lb m (old +ℤ i) w w' board r h;
        room = Scored-HasRoom lb m (old +ℤ i) n w w' r room;
      }
  execute-Refined (remove lb ms) n w board h room fits =
      let (w', e, r) = remove_members-served g ranking sets d clock lb ms w fits in
      record {
        world = w';
        answered = rw e refl;
        represents = removed-Represents lb ms w w' board r h;
        room = removed-HasRoom lb ms n w w' r room;
      }
  execute-Refined (remove_all lb) n w board h room fits =
      let (w', e, r) = remove_leaderboard-served g ranking sets d clock lb w in
      record {
        world = w';
        answered = rw e refl;
        represents = emptied-Represents lb w w' board r h;
        room = emptied-HasRoom lb n w w' r room;
      }
  execute-Refined (read lb m) n w board h room fits = record {
    world = w;
    answered = read-reply lb m w board h fits;
    represents = h;
    room = λ l. omega (arith, room l);
  }

-- ===== src/Redis/Server.antt =====
-- A server in memory that meets the assumptions: go-redis as functions of its state.
use mathlib.Core.List.{reverse}
use go_leaderboard.Base.{
  ℕ, arith, ap, sym, ◌<◌, ◌≡◌, Bool-cases, inl, inr, refl, ◌==◌, true, if◌then◌else◌, Option, none,
  some, List, [], ◌∷◌, length, take, drop,
}
use go_leaderboard.Base.Int.{ℤ, pos, negsuc, pos_part, ◌+ℤ◌}
use go_leaderboard.Base.Effect.{ok}
use go_leaderboard.Base.Bytes.{Text, codes, eq, eq_refl}
use go_leaderboard.Go.Float.{Float64, of_int, to_int, to_int-of_int, magnitude}
use go_leaderboard.Go.Strconv.{parse_int}
use go_leaderboard.Go.Word.{half64}
use go_leaderboard.Go.Time.{unix, Time}
use go_leaderboard.Redis.Defs.{GoRedis, Z, ttl_key_not_found, key_without_ttl}
use go_leaderboard.Redis.Sorted.{slice, position, score_of, add_one, add_all}
use go_leaderboard.Redis.Increments.{Increments, IsScore}
use go_leaderboard.Redis.Expiry.{Expiry, ttl_reply}
use go_leaderboard.Redis.Removes.{Removes, without_all, due, has, absent_from}
use go_leaderboard.Go.Digits.{parse_int-format_int}
use go_leaderboard.Redis.Answers.{Answers, or_nil, rank_reply}

pub record Store : Type 0 where
  pub sorted : Text → List Z
  pub plain : Text → List Text
  pub expiry : Text → Option Time
  pub time : Time

abbrev pub update : {A : Type 0} → Text → A → (Text → A) → Text → A
update k a f j = if eq k j then a else f j

-- The members with a score up to a bound that is written in decimal.
abbrev up_to : Text → List Z → List Text
up_to max zs = due (of_int ((parse_int half64 max).0)) zs

abbrev page_of : ℤ → ℤ → List Text → List Text
page_of offset count ms = take (pos_part count) (drop (pos_part offset) ms)

abbrev entry : Text → Float64 → Z
entry m x = record { member = m; score = x }

-- Increments are whole numbers here.
sum : Float64 → Option Float64 → Float64
sum x none = x
sum x (some y) = of_int (to_int y +ℤ to_int x)

unfoldable pub memory : GoRedis Store
unfolding sum
memory = record {
  del = λ k w. (ok 1, record w { sorted = update k [] w.sorted });
  exists = λ k w. (ok (if length (w.sorted k) == 0 then 0 else 1), w);
  expire_at = λ k t w. (ok true, record w { expiry = update k (some t) w.expiry });
  ping = λ w. (ok (codes "PONG"), w);
  sadd = λ k m w. (
    ok 1,
    record w { plain = update k (if has m (w.plain k) then w.plain k else m ∷ w.plain k) w.plain },
  );
  smembers = λ k w. (ok (w.plain k), w);
  srem = λ k ms w. (ok 1, record w { plain = update k (absent_from ms (w.plain k)) w.plain });
  ttl = λ k w. (
    ok (
        if length (w.sorted k) == 0
        then ttl_key_not_found
        else elim (w.expiry k) [ none ↦ key_without_ttl | some t ↦ pos 1 ]),
    w,
  );
  zadd =
      λ k zs w. (ok (length zs), record w { sorted = update k (add_all zs (w.sorted k)) w.sorted });
  zcard = λ k w. (ok (length (w.sorted k)), w);
  zincrby = λ k x m w.
      let y = sum x (score_of m (w.sorted k)) in
      (ok y, record w { sorted = update k (add_all (entry m y ∷ []) (w.sorted k)) w.sorted });
  zrange_with_scores = λ k i j w. (ok (slice i j (w.sorted k)), w);
  zrange_by_score =
      λ k min max offset count w. (ok (page_of offset count (up_to max (w.sorted k))), w);
  zrank = λ k m w. (rank_reply (position m (w.sorted k)), w);
  zrem = λ k ms w. (ok 1, record w { sorted = update k (without_all ms (w.sorted k)) w.sorted });
  zrevrange_with_scores = λ k i j w. (ok (slice i j (reverse (w.sorted k))), w);
  zrevrange_by_score =
      λ k min max offset count w. (ok (page_of offset count (reverse (up_to max (w.sorted k)))), w);
  zrevrank = λ k m w. (rank_reply (position m (reverse (w.sorted k))), w);
  zscore = λ k m w. (or_nil (score_of m (w.sorted k)), w);
}

abbrev pub ranking : Store → Text → List Z
ranking w = w.sorted

pub memory-Answers : Answers memory ranking
unfolding memory
memory-Answers = record {
  zcard_lem = λ k w. refl;
  zrange_lem = λ k i j w. refl;
  zrevrange_lem = λ k i j w. refl;
  zrank_lem = λ k m w. refl;
  zrevrank_lem = λ k m w. refl;
  zscore_lem = λ k m w. refl;
  zadd_lem = λ k zs w h. (
    length zs,
    record w { sorted = update k (add_all zs (w.sorted k)) w.sorted },
    refl,
    λ j. refl,
  );
}

abbrev pub sets : Store → Text → List Text
sets w = w.plain

has-added :
    (k m : Text) (f : Text → List Text)
    → has m (update k (if has m (f k) then f k else m ∷ f k) f k) ≡ true
unfolding has
has-added k m f =
    rw (eq_refl k)
      (elim (Bool-cases (has m (f k))) [ inl e ↦ rw e e | inr e ↦ rw e (rw (eq_refl m) refl) ])

ttl_memory :
    (size : ℕ) (o : Option Time)
    → (if size == 0 then ttl_key_not_found else elim o [ none ↦ key_without_ttl | some t ↦ pos 1 ])
      ≡ ttl_reply size o 1
ttl_memory size none = refl
ttl_memory size (some t) = refl

pub memory-Removes : Removes memory ranking sets
unfolding memory
memory-Removes = record {
  smembers_lem = λ k w. refl;
  sadd_lem = λ k m w. (
    1,
    record w { plain = update k (if has m (w.plain k) then w.plain k else m ∷ w.plain k) w.plain },
    refl,
    (λ j. refl),
    has-added k m w.plain,
  );
  srem_lem = λ k ms w h. (
    1,
    record w { plain = update k (absent_from ms (w.plain k)) w.plain },
    refl,
    λ j. refl,
    λ j. refl,
  );
  exists_lem = λ k w. refl;
  zrem_lem = λ k ms w h.
      (1, record w { sorted = update k (without_all ms (w.sorted k)) w.sorted }, refl, λ j. refl);
  del_lem = λ k w. (1, record w { sorted = update k [] w.sorted }, refl, λ j. refl);
  due_lem = λ k max n w p b. rw (parse_int-format_int max b) refl;
  due_last_lem = λ k max n w p b. rw (parse_int-format_int max b) refl;
}

zero_plus : (i : ℤ) → pos 0 +ℤ i ≡ i
unfolding ◌+ℤ◌
zero_plus (pos n) = ground arith
zero_plus (negsuc n) = ground arith

sum-IsScore :
    (o : Option Float64) (s i : ℤ)
    → IsScore o s
    → magnitude s < 9007199254740992
    → magnitude i < 9007199254740992
    → sum (of_int i) o ≡ of_int (s +ℤ i)
unfolding sum
sum-IsScore none s i h p q = ap of_int (sym (rw h (zero_plus i)))
sum-IsScore (some x) s i h p q = rw (h, to_int-of_int s p, to_int-of_int i q) refl

pub memory-Increments : Increments memory ranking
unfolding memory add_all
memory-Increments = record {
  zincrby_lem = λ k m s i w h p q b.
      let x = sum (of_int i) (score_of m (w.sorted k)) in
      (
        x,
        record w { sorted = update k (add_all (entry m x ∷ []) (w.sorted k)) w.sorted },
        refl,
        λ j.
            ap (λ (y : Float64). if eq k j then add_one (entry m y) (w.sorted k) else w.sorted j)
              (sum-IsScore (score_of m (w.sorted k)) s i h p q),
      );
}

abbrev pub expires : Store → Text → Option Time
expires w = w.expiry

pub memory-Expiry : Expiry memory ranking expires (λ w. unix w.time)
unfolding memory
memory-Expiry = record {
  ttl_lem = λ k w. (1, ap (λ (z : ℤ). (ok z, w)) (ttl_memory (length (w.sorted k)) (w.expiry k)));
  expire_at_lem =
      λ k t w h p. (record w { expiry = update k (some t) w.expiry }, refl, (λ j. refl), λ j. refl);
}

-- time.Now() of the store, which stands still.
abbrev pub clock : Store → Time × Store
clock w = (w.time, w)

-- ===== src/Database/Served/Names.antt =====
-- GetExpirationLeaderboards over a server: the names that SetMembersTTL recorded.
use go_leaderboard.Base.{
  arith, true, false, ◌++◌, length, length-append, Bool-cases, inl, inr, ◌≡◌, refl, ap, List, [],
  ◌∷◌, map,
}
use go_leaderboard.Base.Effect.{ok}
use go_leaderboard.Base.Bytes.{Text, eq, eq_iff, trim_suffix}
use go_leaderboard.Base.Suffix.{trim_suffix-append}
use go_leaderboard.Redis.Defs.{GoRedis, Z}
use go_leaderboard.Redis.Removes.{Removes}
use go_leaderboard.Redis.Standalone as Standalone
use go_leaderboard.Redis.Standalone.{client}
use go_leaderboard.Database.Order.{ttl_key, ttl_suffix, expiration_set}
use go_leaderboard.Database.Expiring.{get_expiration_leaderboards}

pub ttl_key-ne : (lb : Text) → eq lb (ttl_key lb) ≡ true → ⊥
unfolding ttl_key
ttl_key-ne lb h =
    omega (arith, ap length ((eq_iff lb (lb ++ ttl_suffix)).0 h), length-append lb ttl_suffix)

pub ttl_key-other : (lb : Text) → eq lb (ttl_key lb) ≡ false
ttl_key-other lb = elim (Bool-cases (eq lb (ttl_key lb))) [
  | inl e ↦ absurd (ttl_key-ne lb e)
  | inr e ↦ e
]

trimmed : (ls : List Text) → map (λ k. trim_suffix k ttl_suffix) (map ttl_key ls) ≡ ls
unfolding ttl_key
trimmed [] = refl
trimmed (l ∷ ls) = rw (trim_suffix-append l ttl_suffix) (ap (λ xs. l ∷ xs) (trimmed ls))

module _ {W : Type 0} (g : GoRedis W) (ranking : W → Text → List Z) (sets : W → Text → List Text)
    (a : Removes g ranking sets) where
  -- Over a server that answers, if the set of expirations holds the keys that SetMembersTTL makes
  -- for a list of leaderboards, GetExpirationLeaderboards returns their names.
  pub get_expiration_leaderboards-ttl_key :
      (w : W) (ls : List Text)
      → sets w expiration_set ≡ map ttl_key ls
      → get_expiration_leaderboards (client g) w ≡ (ok ls, w)
  unfolding get_expiration_leaderboards Standalone.smembers
  get_expiration_leaderboards-ttl_key w ls h =
      rw (a.smembers_lem expiration_set w) (rw h (rw (trimmed ls) refl))

-- ===== src/Tests/Board.antt =====
-- A leaderboard of three members in memory, with times to expire.
use go_leaderboard.Base.{ℕ, none, List, [], ◌∷◌}
use go_leaderboard.Base.Int.{pos}
use go_leaderboard.Base.Bytes.{Text, codes}
use go_leaderboard.Go.Float.{finite}
use go_leaderboard.Go.Time.{at}
use go_leaderboard.Redis.Defs.{Z}
use go_leaderboard.Redis.Server.{Store, update}
use go_leaderboard.Database.Order.{expiration_set}

abbrev pub board : Text
board = codes "lb"

abbrev pub times : Text
times = codes "lb:ttl"

abbrev pub ann : Text
ann = codes "ann"

abbrev pub bob : Text
bob = codes "bob"

abbrev pub cid : Text
cid = codes "cid"

abbrev pub dan : Text
dan = codes "dan"

abbrev pub held : Text → ℕ → Z
held m n = record { member = m; score = finite (pos n) 0 }

-- Lowest score first.
abbrev pub standings : List Z
standings = held ann 10 ∷ held bob 20 ∷ held cid 30 ∷ []

-- At 1000 seconds, the time of ann has come and that of bob has not.
abbrev pub store : Store
store = record {
  sorted = update board standings (update times (held ann 900 ∷ held bob 2000 ∷ []) (λ k. []));
  plain = update expiration_set (times ∷ []) (λ k. []);
  expiry = λ k. none;
  time = at (pos 1000) 0;
}

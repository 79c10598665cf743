-- ===== src/Tests/Expiration.antt =====
-- Names of leaderboards, run.
use go_leaderboard.Base.{◌≡◌, refl, arith}
use go_leaderboard.Base.Int.{pos}
use go_leaderboard.Base.Effect.{ok, err}
use go_leaderboard.Base.Bytes.{Text, codes}
use go_leaderboard.Go.Strconv.{digits_value}
use go_leaderboard.Expiration.Pattern.{find, from_to}
use go_leaderboard.Expiration.Errors.{invalid_duration}
use go_leaderboard.Expiration.Name.{get_expire_at}
use go_leaderboard.Expiration.Future.{IsAhead, get_expire_at-IsAhead}
use go_leaderboard.Expiration.Unix.{IsUnixName, unix_name_expiration, unix_name_after_2038}

abbrev summer : Text
summer = codes "from0000001000to0000001500"

abbrev late : Text
late = codes "from2147483648to2147490000"

abbrev yearly_name : Text
yearly_name = codes "season-year2030"

summer-IsUnixName : IsUnixName summer 1000 1500
unfolding find from_to digits_value
summer-IsUnixName = record {
  start = codes "0000001000";
  end = codes "0000001500";
  matches = refl;
  start_filled = λ h. cc;
  end_filled = λ h. cc;
  start_value = refl;
  end_value = refl;
}

late-IsUnixName : IsUnixName late 2147483648 2147490000
unfolding find from_to digits_value
late-IsUnixName = record {
  start = codes "2147483648";
  end = codes "2147490000";
  matches = refl;
  start_filled = λ h. cc;
  end_filled = λ h. cc;
  start_value = refl;
  end_value = refl;
}

get_expire_at-IsAhead_example :
    IsAhead (pos 1893456000) (get_expire_at (pos 1893456000) yearly_name)
get_expire_at-IsAhead_example = get_expire_at-IsAhead (pos 1893456000) yearly_name

unix_name_expiration_example : get_expire_at (pos 1700) summer ≡ ok (pos 2000)
unix_name_expiration_example =
    unix_name_expiration (pos 1700) summer 1000 1500 summer-IsUnixName (omega arith) (omega arith)

unix_name_after_2038_example : get_expire_at (pos 1700) late ≡ err (invalid_duration late (pos 0))
unix_name_after_2038_example =
    unix_name_after_2038 (pos 1700) late 2147483648 2147490000 late-IsUnixName (omega arith)
      (omega arith)

-- ===== src/Database/Redis.antt =====
-- leaderboard/database/redis.go: the type Redis as the two interfaces.
use go_leaderboard.Redis.Defs.{Client}
use go_leaderboard.Database.Defs.{Database, Expiration}
use go_leaderboard.Database.Ranks.{
  get_total_members, get_rank, get_ordered_members, get_member_ids_with_score_inside_range,
  get_members,
}
use go_leaderboard.Database.Scores.{
  get_leaderboard_expiration, healthcheck, increment_member_score, remove_leaderboard,
  remove_members, set_leaderboard_expiration, set_members, set_members_ttl,
}
use go_leaderboard.Database.Expiring.{
  get_expiration_leaderboards, get_members_to_expire, remove_leaderboard_from_expire_list,
  expire_members,
}

abbrev pub redis_database : {W : Type 0} → Client W → Database W
redis_database c = record {
  get_leaderboard_expiration = get_leaderboard_expiration c;
  get_member_ids_with_score_inside_range = get_member_ids_with_score_inside_range c;
  get_members = get_members c;
  get_ordered_members = get_ordered_members c;
  get_rank = get_rank c;
  get_total_members = get_total_members c;
  healthcheck = healthcheck c;
  increment_member_score = increment_member_score c;
  remove_leaderboard = remove_leaderboard c;
  remove_members = remove_members c;
  set_leaderboard_expiration = set_leaderboard_expiration c;
  set_members = set_members c;
  set_members_ttl = set_members_ttl c;
}

abbrev pub redis_expiration : {W : Type 0} → Client W → Expiration W
redis_expiration c = record {
  get_expiration_leaderboards = get_expiration_leaderboards c;
  get_members_to_expire = get_members_to_expire c;
  remove_leaderboard_from_expire_list = remove_leaderboard_from_expire_list c;
  expire_members = expire_members c;
}

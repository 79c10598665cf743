-- ===== src/Api/NotFound.antt =====
-- Which errors of the service the handlers take for a missing member, by the text of the message.
use go_leaderboard.Base.{◌≡◌, refl, true, ◌↔◌}
use go_leaderboard.Base.Bytes.{has_prefix}
use go_leaderboard.Service.Errors.{
  ServiceError, general, member_not_found, page_out_of_range, leaderboard_expired, percentage,
  message,
}
use go_leaderboard.Api.Defs.{is_not_found}

abbrev pub IsMissing : ServiceError → Type 0
IsMissing (member_not_found l m) = Unit
IsMissing _ = ⊥

-- The handlers take an error of the service for a missing member, by the prefix of its message,
-- exactly if it is a MemberNotFoundError, whatever names and messages the errors carry.
pub is_not_found_iff : (e : ServiceError) → (is_not_found e ≡ true) ↔ IsMissing e
unfolding is_not_found message has_prefix
is_not_found_iff (member_not_found l m) = (λ _. tt, λ _. refl)
is_not_found_iff (general s m) = (λ h. cc, λ h. absurd h)
is_not_found_iff (page_out_of_range p t) = (λ h. cc, λ h. absurd h)
is_not_found_iff (leaderboard_expired l) = (λ h. cc, λ h. absurd h)
is_not_found_iff (percentage p) = (λ h. cc, λ h. absurd h)

-- ===== src/Policies/Examples.antt =====
-- config/remote_read_only_policy.py and config/csrf_policy.py: some requests.
use xauusd_bot.Base.{true, false, ◌≡◌, refl, none, some, Text, codes, has_text, text_eq}
use xauusd_bot.Supervisor.Commands.{starts_with, has_character}
use xauusd_bot.Policies.Paths.{
  safe_path, urlsplit, split_path, without_removed, is_removed, before, from_first, split,
  is_dot_segment, has_dot_segment, is_plain_path, is_rooted,
}
use xauusd_bot.Policies.Routes.{remote_allowed_exact_paths, private_control_post_paths}
use xauusd_bot.Policies.Boundary.{
  is_allowlisted, is_remote_path_allowed, is_control_route, decide_allowlisted,
  authorize_remote_request, is_private_control_path_allowed, is_auth_route_allowed,
  is_auth_admin_route_allowed, post_word,
}
use xauusd_bot.Policies.Separation.{IsReadOnly, authorize_remote_request-IsReadOnly}
use xauusd_bot.Policies.Treatment.{Treated, private_route-Treated, allowed_is_not_private}

abbrev same : Text → Text
same t = t

abbrev account : Text
account = codes "/api/account"

account_is_safe : safe_path account ≡ some account
unfolding safe_path urlsplit split_path without_removed is_removed before from_first split
    is_dot_segment has_dot_segment is_plain_path is_rooted starts_with has_character has_text
    text_eq
account_is_safe = refl

account_is_allowed : (authorize_remote_request same (codes "GET") account true none).allowed ≡ true
unfolding safe_path urlsplit split_path without_removed is_removed before from_first split
    is_dot_segment has_dot_segment is_plain_path is_rooted starts_with has_character has_text
    text_eq authorize_remote_request decide_allowlisted is_remote_path_allowed is_allowlisted
    remote_allowed_exact_paths
account_is_allowed = refl

authorize_remote_request-IsReadOnly_example : IsReadOnly same (codes "GET") account true none
authorize_remote_request-IsReadOnly_example =
    authorize_remote_request-IsReadOnly same (codes "GET") account true none account_is_allowed

allowed_is_not_private_example :
    (is_private_control_path_allowed same account (codes "POST") ≡ false)
    × (is_auth_route_allowed same account (codes "POST") ≡ false)
    × (is_auth_admin_route_allowed same account (codes "POST") ≡ false)
allowed_is_not_private_example =
    allowed_is_not_private same (codes "GET") account true none (codes "POST") account_is_allowed

private_route-Treated_example : Treated post_word (codes "/api/control/stop")
unfolding is_control_route private_control_post_paths has_text text_eq
private_route-Treated_example = private_route-Treated post_word (codes "/api/control/stop") refl

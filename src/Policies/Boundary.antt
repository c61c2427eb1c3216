-- ===== src/Policies/Boundary.antt =====
-- config/remote_read_only_policy.py: which requests each boundary lets through. `upper` is str.upper.
use xauusd_bot.Base.{
  Bool, true, false, not, ◌&&◌, ◌||◌, Option, none, some, Text, codes, text_eq, has_text,
  if◌then◌else◌,
}
use xauusd_bot.Policies.Paths.{split, safe_path}
use xauusd_bot.Policies.Routes.{
  private_control_get_paths, private_control_post_paths, auth_post_paths, auth_get_paths,
  remote_allowed_exact_paths, fullmatch, any_fullmatch, remote_allowed_parameter_paths,
  account_disable_route, account_sessions_route, account_session_route,
}

abbrev pub get_word : Text
get_word = codes "GET"

abbrev pub post_word : Text
post_word = codes "POST"

abbrev pub delete_word : Text
delete_word = codes "DELETE"

abbrev pub options_word : Text
options_word = codes "OPTIONS"

abbrev pub accounts_path : Text
accounts_path = codes "/api/auth/admin/accounts"

-- `REMOTE_FRONTEND_ORIGIN`
abbrev pub remote_frontend_origin : Text
remote_frontend_origin = codes "https://xauusd-bot-mu.vercel.app"

-- The reasons of a decision.
pub data BoundaryReason : Type 0 where
  method_not_allowed path_not_allowlisted origin_not_allowed : BoundaryReason
  cors_preflight_no_upstream authentication_required authenticated_read_only_route : BoundaryReason

pub record RemoteBoundaryDecision : Type 0 where
  pub allowed : Bool
  pub reason : BoundaryReason
  pub path : Option Text

unfoldable pub is_allowlisted : Text → Bool
is_allowlisted path =
    has_text path remote_allowed_exact_paths
    || any_fullmatch remote_allowed_parameter_paths (split path)

-- A test of a path that may be `None`.
abbrev pub path_passes : (Text → Bool) → Option Text → Bool
path_passes test none = false
path_passes test (some path) = test path

-- `is_remote_path_allowed`
unfoldable pub is_remote_path_allowed : Text → Bool
is_remote_path_allowed raw = path_passes is_allowlisted (safe_path raw)

unfoldable pub is_control_route : (verb path : Text) → Bool
is_control_route verb path =
    if text_eq verb get_word
    then has_text path private_control_get_paths
    else text_eq verb post_word && has_text path private_control_post_paths

unfoldable pub is_auth_route : (verb path : Text) → Bool
is_auth_route verb path =
    text_eq verb post_word && has_text path auth_post_paths
    || text_eq verb get_word && has_text path auth_get_paths

-- `AUTH_ADMIN_ROUTE_METHODS`, and the routes of one account.
unfoldable pub is_auth_admin_route : (verb path : Text) → Bool
is_auth_admin_route verb path =
    (text_eq verb get_word || text_eq verb post_word) && text_eq path accounts_path
    || text_eq verb post_word && fullmatch account_disable_route (split path)
    || text_eq verb get_word && fullmatch account_sessions_route (split path)
    || text_eq verb delete_word
      && (fullmatch account_sessions_route (split path)
          || fullmatch account_session_route (split path))

module _ (upper : Text → Text) where
  -- `is_private_control_path_allowed`
  unfoldable pub is_private_control_path_allowed : (raw method : Text) → Bool
  is_private_control_path_allowed raw method =
      path_passes (is_control_route (upper method)) (safe_path raw)

  -- `is_auth_route_allowed`
  unfoldable pub is_auth_route_allowed : (raw method : Text) → Bool
  is_auth_route_allowed raw method = path_passes (is_auth_route (upper method)) (safe_path raw)

  -- `is_auth_admin_route_allowed`
  unfoldable pub is_auth_admin_route_allowed : (raw method : Text) → Bool
  is_auth_admin_route_allowed raw method =
      path_passes (is_auth_admin_route (upper method)) (safe_path raw)

  abbrev pub is_frontend : Option Text → Bool
  is_frontend none = false
  is_frontend (some origin) = text_eq origin remote_frontend_origin

  unfoldable pub decide_allowlisted :
      (verb : Text) → Bool → Option Text → Option Text → RemoteBoundaryDecision
  decide_allowlisted verb authenticated origin path =
      if text_eq verb options_word
      then if is_frontend origin
        then record { allowed = true; reason = cors_preflight_no_upstream; path = path }
        else record { allowed = false; reason = origin_not_allowed; path = path }
      else if authenticated
      then record { allowed = true; reason = authenticated_read_only_route; path = path }
      else record { allowed = false; reason = authentication_required; path = path }

  -- `authorize_remote_request`
  unfoldable pub authorize_remote_request :
      (method raw : Text) (authenticated : Bool) (origin : Option Text) → RemoteBoundaryDecision
  authorize_remote_request method raw authenticated origin =
      let path = safe_path raw in
      if not (text_eq (upper method) get_word || text_eq (upper method) options_word)
      then record { allowed = false; reason = method_not_allowed; path = path }
      else if not (is_remote_path_allowed raw)
      then record { allowed = false; reason = path_not_allowlisted; path = path }
      else decide_allowlisted (upper method) authenticated origin path

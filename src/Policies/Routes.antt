-- ===== src/Policies/Routes.antt =====
-- config/remote_read_only_policy.py: the sets of paths and the shapes of paths with an identifier.
use xauusd_bot.Base.{
  ℕ, Bool, true, false, not, ◌&&◌, ◌||◌, List, [], ◌∷◌, Text, length, is_empty, ◌==◌, leb, codes,
  text_eq,
}

-- `PRIVATE_CONTROL_GET_PATHS`
unfoldable pub private_control_get_paths : List Text
private_control_get_paths = codes "/api/control/status" ∷ codes "/api/control/demo-status" ∷ []

-- `PRIVATE_CONTROL_POST_PATHS`
unfoldable pub private_control_post_paths : List Text
private_control_post_paths =
    codes "/api/control/start"
    ∷ codes "/api/control/stop"
    ∷ codes "/api/control/restart"
    ∷ codes "/api/control/demo-on"
    ∷ codes "/api/control/demo-off"
    ∷ []

-- `AUTH_ROUTE_METHODS`, by its methods.
unfoldable pub auth_post_paths : List Text
auth_post_paths = codes "/api/auth/login" ∷ codes "/api/auth/logout" ∷ codes "/api/auth/enroll" ∷ []

unfoldable pub auth_get_paths : List Text
auth_get_paths = codes "/api/auth/session" ∷ codes "/api/auth/csrf" ∷ []

-- `REMOTE_ALLOWED_EXACT_PATHS`
unfoldable pub remote_allowed_exact_paths : List Text
remote_allowed_exact_paths =
    codes "/api/account"
    ∷ codes "/api/config/public"
    ∷ codes "/api/decisions"
    ∷ codes "/api/export/decisions.csv"
    ∷ codes "/api/export/trades.csv"
    ∷ codes "/api/forward/health"
    ∷ codes "/api/forward/performance"
    ∷ codes "/api/forward/session"
    ∷ codes "/api/forward/trades"
    ∷ codes "/api/intelligence/alerts"
    ∷ codes "/api/intelligence/candidate"
    ∷ codes "/api/intelligence/context"
    ∷ codes "/api/intelligence/evidence"
    ∷ codes "/api/live/status"
    ∷ codes "/api/positions"
    ∷ codes "/api/positions/status"
    ∷ codes "/api/performance/account-curve"
    ∷ codes "/api/performance/by-confidence"
    ∷ codes "/api/performance/by-direction"
    ∷ codes "/api/performance/by-hour"
    ∷ codes "/api/performance/by-session"
    ∷ codes "/api/performance/by-weekday"
    ∷ codes "/api/performance/cumulative-r"
    ∷ codes "/api/performance/monthly"
    ∷ codes "/api/performance/pnl-by-day"
    ∷ codes "/api/performance/summary"
    ∷ codes "/api/research/compare"
    ∷ codes "/api/research/datasets"
    ∷ codes "/api/research/robustness"
    ∷ codes "/api/research/roadmap"
    ∷ codes "/api/research/runs"
    ∷ codes "/api/research/strategies"
    ∷ codes "/api/risk/current"
    ∷ codes "/api/shadow/decision"
    ∷ codes "/api/shadow/decisions"
    ∷ codes "/api/shadow/health"
    ∷ codes "/api/shadow/outcome-health"
    ∷ codes "/api/shadow/outcomes"
    ∷ codes "/api/shadow/performance"
    ∷ codes "/api/shadow/summary"
    ∷ codes "/api/supervisor/status"
    ∷ codes "/api/symbol"
    ∷ codes "/api/system/events"
    ∷ codes "/api/system/health"
    ∷ codes "/api/trades"
    ∷ []

-- One segment of a pattern: itself, `[^/]+` or `[0-9a-fA-F-]{36}`.
pub data Piece : Type 0 where
  literal : Text → Piece
  identifier hexadecimal : Piece

unfoldable pub is_hex : ℕ → Bool
is_hex c =
    leb b'0' c && leb c b'9' || leb b'a' c && leb c b'f' || leb b'A' c && leb c b'F' || c == b'-'

unfoldable pub are_hex : Text → Bool
are_hex [] = true
are_hex (c ∷ cs) = is_hex c && are_hex cs

unfoldable pub piece_matches : Piece → Text → Bool
piece_matches (literal t) segment = text_eq segment t
piece_matches identifier segment = not (is_empty segment)
piece_matches hexadecimal segment = length segment == 36 && are_hex segment

-- `pattern.fullmatch(path)`, with the pattern and the path cut at their slashes.
unfoldable pub fullmatch : List Piece → List Text → Bool
fullmatch [] [] = true
fullmatch (piece ∷ pieces) (segment ∷ segments) =
    piece_matches piece segment && fullmatch pieces segments
fullmatch _ _ = false

unfoldable pub any_fullmatch : List (List Piece) → List Text → Bool
any_fullmatch [] segments = false
any_fullmatch (pattern_ ∷ patterns) segments =
    fullmatch pattern_ segments || any_fullmatch patterns segments

-- `/api/` and another segment.
abbrev pub below_api : Text → List Piece → List Piece
below_api area pieces = literal [] ∷ literal (codes "api") ∷ literal area ∷ pieces

-- `_REMOTE_ALLOWED_PARAMETER_PATHS`
unfoldable pub remote_allowed_parameter_paths : List (List Piece)
remote_allowed_parameter_paths =
    below_api (codes "research")
      (literal (codes "roadmap") ∷ literal (codes "runs") ∷ identifier ∷ [])
    ∷ below_api (codes "research") (
        literal (codes "roadmap")
        ∷ literal (codes "runs")
        ∷ identifier
        ∷ literal (codes "timeline")
        ∷ [])
    ∷ below_api (codes "research")
        (literal (codes "runs") ∷ identifier ∷ literal (codes "curve") ∷ [])
    ∷ below_api (codes "trades") (identifier ∷ [])
    ∷ below_api (codes "trades") (identifier ∷ literal (codes "events") ∷ [])
    ∷ []

-- `/api/auth/admin/accounts/`, an account and more.
abbrev pub account_route : List Piece → List Piece
account_route pieces =
    below_api (codes "auth")
      (literal (codes "admin") ∷ literal (codes "accounts") ∷ hexadecimal ∷ pieces)

-- `_AUTH_ADMIN_ACCOUNT_ROUTE` with its two endings, and `_AUTH_ADMIN_SESSION_ROUTE`.
unfoldable pub account_disable_route : List Piece
account_disable_route = account_route (literal (codes "disable") ∷ [])

unfoldable pub account_sessions_route : List Piece
account_sessions_route = account_route (literal (codes "sessions") ∷ [])

unfoldable pub account_session_route : List Piece
account_session_route = account_route (literal (codes "sessions") ∷ hexadecimal ∷ [])

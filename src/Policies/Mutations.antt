-- ===== src/Policies/Mutations.antt =====
-- config/csrf_policy.py: which operations need a CSRF token.
use xauusd_bot.Base.{
  ◌&&◌, ◌||◌, Option, none, some, List, [], ◌∷◌, Text, codes, text_eq, has_text, if◌then◌else◌,
}
use xauusd_bot.Policies.Paths.{split}
use xauusd_bot.Policies.Routes.{
  fullmatch, account_disable_route, account_sessions_route, account_session_route,
}
use xauusd_bot.Policies.Boundary.{post_word, delete_word}

pub data MutationClass : Type 0 where
  csrf_required pre_auth_exception read_only : MutationClass

-- `SAFE_METHODS`
unfoldable pub safe_methods : List Text
safe_methods = codes "GET" ∷ codes "HEAD" ∷ codes "OPTIONS" ∷ []

-- `PRE_AUTH_MUTATIONS`, all of them with POST.
unfoldable pub pre_auth_mutations : List Text
pre_auth_mutations = codes "/api/auth/login" ∷ codes "/api/auth/enroll" ∷ []

-- `CSRF_REQUIRED_MUTATIONS`, all of them with POST.
unfoldable pub csrf_required_mutations : List Text
csrf_required_mutations =
    codes "/api/auth/logout"
    ∷ codes "/api/auth/admin/accounts"
    ∷ codes "/api/control/start"
    ∷ codes "/api/control/stop"
    ∷ codes "/api/control/restart"
    ∷ codes "/api/control/demo-on"
    ∷ codes "/api/control/demo-off"
    ∷ []

abbrev pub disable_template : Text
disable_template = codes "/api/auth/admin/accounts/{account_id}/disable"

unfoldable pub session_templates : List Text
session_templates =
    codes "/api/auth/admin/accounts/{account_id}/sessions"
    ∷ codes "/api/auth/admin/accounts/{account_id}/sessions/{session_id}"
    ∷ []

unfoldable pub classify_verb : (verb path : Text) → Option MutationClass
classify_verb verb path =
    if has_text verb safe_methods
    then some read_only
    else if text_eq verb post_word && has_text path pre_auth_mutations
    then some pre_auth_exception
    else if text_eq verb post_word && has_text path csrf_required_mutations
    then some csrf_required
    else if text_eq verb post_word
        && (text_eq path disable_template || fullmatch account_disable_route (split path))
    then some csrf_required
    else if text_eq verb delete_word && has_text path session_templates
    then some csrf_required
    else if text_eq verb delete_word
        && (fullmatch account_sessions_route (split path)
            || fullmatch account_session_route (split path))
    then some csrf_required
    else none

-- `classify_mutation`; `none` is refused.
unfoldable pub classify_mutation : (upper : Text → Text) (method path : Text) → Option MutationClass
classify_mutation upper method path = classify_verb (upper method) path

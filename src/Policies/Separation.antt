-- ===== src/Policies/Separation.antt =====
-- config/remote_read_only_policy.py: what the remote boundary lets through, and that the private
-- routes are not among it.
use xauusd_bot.Base.{
  unnegated, Bool, true, false, not, ◌&&◌, ◌||◌, ◌≡◌, ◌≢◌, refl, sym, ◌∙◌, ap, subst, Option, none,
  some, List, [], ◌∷◌, Text, codes, text_eq, text_eq→eq, all_texts, has_text-all_texts, if_case,
  Bool-cases, inl, inr, ◌⊎◌, false≢true, and_left, and_right, arith,
}
use xauusd_bot.Policies.Paths.{split, safe_path}
use xauusd_bot.Policies.Routes.{
  private_control_get_paths, private_control_post_paths, auth_post_paths, auth_get_paths,
  remote_allowed_exact_paths, Piece, piece_matches, fullmatch, any_fullmatch, below_api,
  remote_allowed_parameter_paths, account_disable_route, account_sessions_route,
  account_session_route,
}
use xauusd_bot.Policies.Boundary.{
  accounts_path, get_word, post_word, options_word, remote_frontend_origin, RemoteBoundaryDecision,
  is_allowlisted, path_passes, is_remote_path_allowed, is_control_route, is_auth_route,
  is_auth_admin_route, is_frontend, decide_allowlisted, authorize_remote_request,
}

or_case : (a b c : Bool) → (a ≡ true → c ≡ true) → (b ≡ true → c ≡ true) → a || b ≡ true → c ≡ true
or_case true b c h k e = h refl
or_case false b c h k e = k e

pub contradicts : (b : Bool) → b ≡ true → not b ≢ true
contradicts true e h = false≢true h
contradicts false e h = false≢true e

or_left_true : (a b : Bool) → a || b ≡ true → b ≡ false → a ≡ true
or_left_true true b h e = refl
or_left_true false b h e = absurd (false≢true (sym e ∙ h))

-- The segment after `/api`.
abbrev area : List Text → Text
area (a ∷ b ∷ c ∷ segments) = c
area _ = []

abbrev is_private_area : Text → Bool
is_private_area t = text_eq t (codes "control") || text_eq t (codes "auth")

area-fullmatch :
    (t : Text) (pieces : List Piece) (segments : List Text)
    → fullmatch (below_api t pieces) segments ≡ true
    → area segments ≡ t
unfolding fullmatch piece_matches
area-fullmatch t pieces [] h = absurd (false≢true h)
area-fullmatch t pieces (a ∷ []) h = absurd (false≢true (and_right (text_eq a []) false h))
area-fullmatch t pieces (a ∷ b ∷ []) h =
    absurd (false≢true (and_right (text_eq b (codes "api")) false (and_right (text_eq a []) _ h)))
area-fullmatch t pieces (a ∷ b ∷ c ∷ segments) h =
    text_eq→eq c t
      (and_left _ _ (and_right (text_eq b (codes "api")) _ (and_right (text_eq a []) _ h)))

public_fullmatch :
    (t : Text) (pieces : List Piece) (segments : List Text)
    → not (is_private_area t) ≡ true
    → fullmatch (below_api t pieces) segments ≡ true
    → not (is_private_area (area segments)) ≡ true
public_fullmatch t pieces segments h m =
    subst (λ x. not (is_private_area x) ≡ true) (sym (area-fullmatch t pieces segments m)) h

private_fullmatch :
    (t : Text) (pieces : List Piece) (segments : List Text)
    → is_private_area t ≡ true
    → fullmatch (below_api t pieces) segments ≡ true
    → is_private_area (area segments) ≡ true
private_fullmatch t pieces segments h m =
    subst (λ x. is_private_area x ≡ true) (sym (area-fullmatch t pieces segments m)) h

is_allowlisted_public :
    (path : Text) → is_allowlisted path ≡ true → not (is_private_area (area (split path))) ≡ true
unfolding is_allowlisted any_fullmatch remote_allowed_parameter_paths remote_allowed_exact_paths
    all_texts split text_eq
is_allowlisted_public path =
    let segments = split path in
    let goal = not (is_private_area (area segments)) in
    or_case _ _ goal
      (has_text-all_texts (λ p. not (is_private_area (area (split p)))) path
        remote_allowed_exact_paths refl)
      (or_case _ _ goal (public_fullmatch (codes "research") _ segments refl) (
        or_case _ _ goal (public_fullmatch (codes "research") _ segments refl) (
          or_case _ _ goal (public_fullmatch (codes "research") _ segments refl) (
            or_case _ _ goal (public_fullmatch (codes "trades") _ segments refl) (
              or_case _ _ goal (public_fullmatch (codes "trades") _ segments refl)
                (λ e. absurd (false≢true e)))))))

-- The routes of the private boundaries, whatever the method.
abbrev pub is_private_route : (verb path : Text) → Bool
is_private_route verb path =
    is_control_route verb path || is_auth_route verb path || is_auth_admin_route verb path

-- A path of this list is below a private area.
abbrev are_private : List Text → Bool
are_private paths = all_texts (λ p. is_private_area (area (split p))) paths

and_case : (a b c : Bool) → (b ≡ true → c ≡ true) → a && b ≡ true → c ≡ true
and_case a b c h e = h (and_right a b e)

control_route_private :
    (verb path : Text)
    → is_control_route verb path ≡ true
    → is_private_area (area (split path)) ≡ true
unfolding is_control_route private_control_get_paths private_control_post_paths all_texts split
    text_eq
control_route_private verb path =
    let private_ = λ (p : Text). is_private_area (area (split p)) in
    if_case (λ b. b ≡ true → private_ path ≡ true) (text_eq verb get_word) _ _
      (λ e. has_text-all_texts private_ path private_control_get_paths refl)
      (λ e.
        and_case (text_eq verb post_word) _ (private_ path)
          (has_text-all_texts private_ path private_control_post_paths refl))

auth_route_private :
    (verb path : Text) → is_auth_route verb path ≡ true → is_private_area (area (split path)) ≡ true
unfolding is_auth_route auth_post_paths auth_get_paths all_texts split text_eq
auth_route_private verb path =
    let private_ = λ (p : Text). is_private_area (area (split p)) in
    or_case _ _ (private_ path)
      (and_case (text_eq verb post_word) _ (private_ path)
        (has_text-all_texts private_ path auth_post_paths refl))
      (and_case (text_eq verb get_word) _ (private_ path)
        (has_text-all_texts private_ path auth_get_paths refl))

account_routes_private :
    (segments : List Text)
    → fullmatch account_disable_route segments
        || fullmatch account_sessions_route segments
        || fullmatch account_session_route segments
      ≡ true
    → is_private_area (area segments) ≡ true
unfolding account_disable_route account_sessions_route account_session_route text_eq
account_routes_private segments =
    let private_ = is_private_area (area segments) in
    or_case (fullmatch account_disable_route segments || fullmatch account_sessions_route segments)
      (fullmatch account_session_route segments) private_
      (or_case (fullmatch account_disable_route segments)
        (fullmatch account_sessions_route segments) private_
        (private_fullmatch (codes "auth") _ segments refl)
        (private_fullmatch (codes "auth") _ segments refl))
      (private_fullmatch (codes "auth") _ segments refl)

accounts_private :
    (path : Text) → text_eq path accounts_path ≡ true → is_private_area (area (split path)) ≡ true
unfolding split text_eq
accounts_private path e =
    subst (λ p. is_private_area (area (split p)) ≡ true) (sym (text_eq→eq path accounts_path e))
      refl

admin_route_private :
    (verb path : Text)
    → is_auth_admin_route verb path ≡ true
    → is_private_area (area (split path)) ≡ true
unfolding is_auth_admin_route
admin_route_private verb path h =
    let accounts = accounts_private path in
    let routes = account_routes_private (split path) in ground (arith, h, accounts, routes)

private_route_private :
    (verb path : Text)
    → is_private_route verb path ≡ true
    → is_private_area (area (split path)) ≡ true
private_route_private verb path =
    or_case (is_control_route verb path || is_auth_route verb path) (is_auth_admin_route verb path)
      (is_private_area (area (split path)))
      (or_case (is_control_route verb path) (is_auth_route verb path)
        (is_private_area (area (split path))) (control_route_private verb path)
        (auth_route_private verb path))
      (admin_route_private verb path)

-- No path that is on the allowlist of the remote boundary is a route of a private boundary, with any
-- method.
pub allowlisted_is_not_private :
    (verb path : Text) → is_allowlisted path ≡ true → is_private_route verb path ≡ false
allowlisted_is_not_private verb path allowed = elim (Bool-cases (is_private_route verb path)) [
  | inr e ↦ e
  | inl e ↦ absurd (
      contradicts (is_private_area (area (split path))) (private_route_private verb path e)
        (is_allowlisted_public path allowed))
]

module _ (upper : Text → Text) where
  -- What an allowed request is: its path is safe and on the allowlist, and it is an authenticated
  -- GET or a preflight from the dashboard.
  pub record IsReadOnly (method raw : Text) (authenticated : Bool) (origin : Option Text)
      : Type 0 where
    pub path : Text
    pub is_safe : safe_path raw ≡ some path
    pub listed : is_allowlisted path ≡ true
    pub reads :
        ((upper method ≡ get_word) × (authenticated ≡ true))
        ⊎ ((upper method ≡ options_word) × (origin ≡ some remote_frontend_origin))

  is_frontend-some :
      (origin : Option Text)
      → is_frontend upper origin ≡ true
      → origin ≡ some remote_frontend_origin
  is_frontend-some none h = absurd (false≢true h)
  is_frontend-some (some o) h = ap some (text_eq→eq o _ h)

  path_passes-some :
      (test : Text → Bool) (o : Option Text)
      → path_passes test o ≡ true
      → (p : Text) × (o ≡ some p) × (test p ≡ true)
  path_passes-some test none h = absurd (false≢true h)
  path_passes-some test (some p) h = (p, refl, h)

  -- authorize_remote_request allows nothing but an authenticated GET or a preflight from the
  -- dashboard's own origin, each with a safe path that is on the allowlist.
  pub authorize_remote_request-IsReadOnly :
      (method raw : Text) (authenticated : Bool) (origin : Option Text)
      → (authorize_remote_request upper method raw authenticated origin).allowed ≡ true
      → IsReadOnly method raw authenticated origin
  unfolding authorize_remote_request decide_allowlisted is_remote_path_allowed
  authorize_remote_request-IsReadOnly method raw authenticated origin =
      let verb = upper method in
      let Allows : RemoteBoundaryDecision → Type 0 =
        (λ d. d.allowed ≡ true → IsReadOnly method raw authenticated origin) in
      if_case Allows (not (text_eq verb get_word || text_eq verb options_word)) _ _
        (λ e h. absurd (false≢true h))
        (λ known.
          if_case Allows (not (path_passes is_allowlisted (safe_path raw))) _ _
            (λ e h. absurd (false≢true h))
            (λ e.
              let (p, is_path, listed) =
                path_passes-some is_allowlisted (safe_path raw) (unnegated _ e) in
              if_case Allows (text_eq verb options_word) _ _
                (λ preflight.
                  if_case Allows (is_frontend upper origin) _ _
                    (λ ours h. record {
                      path = p;
                      is_safe = is_path;
                      listed = listed;
                      reads = inr (text_eq→eq verb _ preflight, is_frontend-some origin ours);
                    })
                    (λ e h. absurd (false≢true h)))
                (λ other.
                  if_case Allows authenticated _ _
                    (λ session h. record {
                      path = p;
                      is_safe = is_path;
                      listed = listed;
                      reads =
                          inl (
                            text_eq→eq verb _ (or_left_true _ _ (unnegated _ known) other),
                            session,
                          );
                    })
                    (λ e h. absurd (false≢true h)))))

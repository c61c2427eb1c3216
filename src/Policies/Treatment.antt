-- ===== src/Policies/Treatment.antt =====
-- config/remote_read_only_policy.py beside config/csrf_policy.py: how the boundaries and the classes
-- of operations fit together, and which spellings of a path pass.
use xauusd_bot.Base.{
  Bool, true, false, not, ◌||◌, ◌≡◌, refl, sym, ap, subst, Option, none, some, [], ◌∷◌, Text, codes,
  text_eq, text_eq→eq, has_text, all_texts, has_text-all_texts, Bool-cases, inl, inr, ◌⊎◌,
  false≢true, none≢some, and_left, and_right, arith,
}
use xauusd_bot.Supervisor.Commands.{has_character, starts_with, slash, tab}
use xauusd_bot.Policies.Paths.{
  split, safe_path, without_removed, is_removed, before, from_first, urlsplit, is_rooted,
}
use xauusd_bot.Policies.Routes.{
  private_control_post_paths, auth_post_paths, piece_matches, fullmatch, account_disable_route,
  account_sessions_route, account_session_route,
}
use xauusd_bot.Policies.Boundary.{
  accounts_path, get_word, post_word, delete_word, is_control_route, is_auth_route,
  is_auth_admin_route, is_private_control_path_allowed, is_auth_route_allowed,
  is_auth_admin_route_allowed, authorize_remote_request,
}
use xauusd_bot.Policies.Mutations.{
  MutationClass, csrf_required, pre_auth_exception, read_only, safe_methods, pre_auth_mutations,
  csrf_required_mutations, disable_template, session_templates, classify_verb,
}
use xauusd_bot.Policies.Separation.{
  contradicts, is_private_route, allowlisted_is_not_private, authorize_remote_request-IsReadOnly,
}

-- How a route of a private boundary is classified: it is read, it needs a CSRF token, or it is the
-- login or the enrollment.
pub data Treated (verb path : Text) : Type 0 where
  by_reading : verb ≡ get_word → classify_verb verb path ≡ some read_only → Treated verb path
  by_token : classify_verb verb path ≡ some csrf_required → Treated verb path
  before_login :
      verb ≡ post_word
      → has_text path pre_auth_mutations ≡ true
      → classify_verb verb path ≡ some pre_auth_exception
      → Treated verb path

get-Treated : (verb path : Text) → text_eq verb get_word ≡ true → Treated verb path
unfolding classify_verb safe_methods has_text text_eq
get-Treated verb path e =
    let is_get = text_eq→eq verb get_word e in
    by_reading is_get (subst (λ v. classify_verb v path ≡ some read_only) (sym is_get) refl)

abbrev is_token_class : Option MutationClass → Bool
is_token_class (some csrf_required) = true
is_token_class _ = false

-- Whether POST of a path needs a token.
abbrev needs_token : Text → Bool
needs_token path = is_token_class (classify_verb post_word path)

needs_token-csrf :
    (path : Text) → needs_token path ≡ true → classify_verb post_word path ≡ some csrf_required
needs_token-csrf path h = is_class-some (classify_verb post_word path) h
  where
    is_class-some : (o : Option MutationClass) → is_token_class o ≡ true → o ≡ some csrf_required
    is_class-some none e = absurd (false≢true e)
    is_class-some (some csrf_required) e = refl
    is_class-some (some pre_auth_exception) e = absurd (false≢true e)
    is_class-some (some read_only) e = absurd (false≢true e)

pre_auth-post :
    (path : Text)
    → has_text path pre_auth_mutations ≡ true
    → classify_verb post_word path ≡ some pre_auth_exception
unfolding classify_verb safe_methods has_text text_eq
pre_auth-post path h = rw h

post_at :
    (verb path : Text) → text_eq verb post_word ≡ true → Treated post_word path → Treated verb path
post_at verb path e t = subst (λ v. Treated v path) (sym (text_eq→eq verb post_word e)) t

control_post-Treated :
    (path : Text) → has_text path private_control_post_paths ≡ true → Treated post_word path
unfolding private_control_post_paths all_texts classify_verb safe_methods has_text text_eq
    pre_auth_mutations csrf_required_mutations
control_post-Treated path h =
    by_token (
      needs_token-csrf path (has_text-all_texts needs_token path private_control_post_paths refl h))

auth_post-Treated : (path : Text) → has_text path auth_post_paths ≡ true → Treated post_word path
unfolding auth_post_paths all_texts classify_verb safe_methods has_text text_eq pre_auth_mutations
    csrf_required_mutations
auth_post-Treated path h =
    let known =
      has_text-all_texts (λ p. needs_token p || has_text p pre_auth_mutations) path auth_post_paths
        refl h in
    elim (Bool-cases (has_text path pre_auth_mutations)) [
      | inl e ↦ before_login refl e (pre_auth-post path e)
      | inr e ↦ by_token (needs_token-csrf path (ground (arith, known, e)))
    ]

accounts-Treated : (path : Text) → text_eq path accounts_path ≡ true → Treated post_word path
unfolding classify_verb safe_methods has_text text_eq pre_auth_mutations csrf_required_mutations
accounts-Treated path e =
    subst (λ p. Treated post_word p) (sym (text_eq→eq path accounts_path e)) (by_token refl)

disable_is_not_pre_auth :
    (path : Text)
    → fullmatch account_disable_route (split path) ≡ true
    → has_text path pre_auth_mutations ≡ false
unfolding all_texts pre_auth_mutations fullmatch account_disable_route split piece_matches text_eq
disable_is_not_pre_auth path h = elim (Bool-cases (has_text path pre_auth_mutations)) [
  | inr e ↦ e
  | inl e ↦
      let other =
        has_text-all_texts (λ p. not (fullmatch account_disable_route (split p))) path
          pre_auth_mutations refl e in
      absurd (contradicts (fullmatch account_disable_route (split path)) h other)
]

disable-Treated :
    (path : Text) → fullmatch account_disable_route (split path) ≡ true → Treated post_word path
unfolding classify_verb safe_methods has_text text_eq
disable-Treated path h =
    let other = disable_is_not_pre_auth path h in
    elim (Bool-cases (has_text path csrf_required_mutations)) [
      | inl e ↦ by_token (rw (other, e))
      | inr e ↦ elim (Bool-cases (text_eq path disable_template)) [
        | inl f ↦ by_token (rw (other, e, f))
        | inr f ↦ by_token (rw (other, e, f, h))
      ]
    ]

delete-Treated :
    (path : Text)
    → fullmatch account_sessions_route (split path) || fullmatch account_session_route (split path)
      ≡ true
    → Treated delete_word path
unfolding classify_verb safe_methods has_text text_eq
delete-Treated path h = elim (Bool-cases (has_text path session_templates)) [
  | inl e ↦ by_token (rw e)
  | inr e ↦ by_token (rw (e, h))
]

or-cases : (a b : Bool) → a || b ≡ true → (a ≡ true) ⊎ (b ≡ true)
or-cases true b h = inl refl
or-cases false b h = inr h

none_of_three : (a b c : Bool) → a || b || c ≡ false → (a ≡ false) × (b ≡ false) × (c ≡ false)
none_of_three true b c h = absurd (false≢true (sym h))
none_of_three false true c h = absurd (false≢true (sym h))
none_of_three false false c h = (refl, refl, h)

control-Treated : (verb path : Text) → is_control_route verb path ≡ true → Treated verb path
unfolding is_control_route
control-Treated verb path h = elim (Bool-cases (text_eq verb get_word)) [
  | inl e ↦ get-Treated verb path e
  | inr e ↦
      let by_post = rw e at h in
      post_at verb path (and_left _ _ by_post)
        (control_post-Treated path (and_right (text_eq verb post_word) _ by_post))
]

auth-Treated : (verb path : Text) → is_auth_route verb path ≡ true → Treated verb path
unfolding is_auth_route
auth-Treated verb path h = elim (or-cases _ _ h) [
  | inl e ↦
      post_at verb path (and_left _ _ e)
        (auth_post-Treated path (and_right (text_eq verb post_word) _ e))
  | inr e ↦ get-Treated verb path (and_left _ _ e)
]

admin-Treated : (verb path : Text) → is_auth_admin_route verb path ≡ true → Treated verb path
unfolding is_auth_admin_route
admin-Treated verb path h = elim (or-cases _ _ h) [
  | inr e ↦
      subst (λ v. Treated v path) (sym (text_eq→eq verb delete_word (and_left _ _ e)))
        (delete-Treated path (and_right (text_eq verb delete_word) _ e))
  | inl rest ↦ elim (or-cases _ _ rest) [
    | inr e ↦ get-Treated verb path (and_left _ _ e)
    | inl more ↦ elim (or-cases _ _ more) [
      | inr e ↦
          post_at verb path (and_left _ _ e)
            (disable-Treated path (and_right (text_eq verb post_word) _ e))
      | inl e ↦ elim (or-cases _ _ (and_left _ _ e)) [
        | inl g ↦ get-Treated verb path g
        | inr p ↦ post_at verb path p (
            accounts-Treated path (and_right (text_eq verb get_word || text_eq verb post_word) _ e))
      ]
    ]
  ]
]

-- Every route that a private boundary lets through is classified by classify_mutation, so that none
-- is refused or forgotten: it is read by GET, or it needs a CSRF token, or it is the login or the
-- enrollment with POST.
pub private_route-Treated :
    (verb path : Text) → is_private_route verb path ≡ true → Treated verb path
private_route-Treated verb path h = elim (or-cases _ _ h) [
  | inr e ↦ admin-Treated verb path e
  | inl rest ↦ elim (or-cases _ _ rest) [
    | inl e ↦ control-Treated verb path e
    | inr e ↦ auth-Treated verb path e
  ]
]

module _ (upper : Text → Text) where
  -- A request that authorize_remote_request allows is let through by none of the private boundaries,
  -- under any method.
  pub allowed_is_not_private :
      (method raw : Text) (authenticated : Bool) (origin : Option Text) (other : Text)
      → (authorize_remote_request upper method raw authenticated origin).allowed ≡ true
      → (is_private_control_path_allowed upper raw other ≡ false)
        × (is_auth_route_allowed upper raw other ≡ false)
        × (is_auth_admin_route_allowed upper raw other ≡ false)
  unfolding is_private_control_path_allowed is_auth_route_allowed is_auth_admin_route_allowed
  allowed_is_not_private method raw authenticated origin other h =
      let allowed = authorize_remote_request-IsReadOnly upper method raw authenticated origin h in
      let none_private = allowlisted_is_not_private (upper other) allowed.path allowed.listed in
      rw (allowed.is_safe) (none_of_three _ _ _ none_private)

rooted : (raw : Text) → starts_with (codes "/") raw ≡ true → (xs : Text) × (raw ≡ slash ∷ xs)
unfolding starts_with
rooted [] h = absurd (false≢true h)
rooted (x ∷ xs) h = (xs, ap (λ c. c ∷ xs) (ground (arith, h)))

urlsplit_hidden :
    (xs : Text)
    → starts_with (codes "//") (without_removed (slash ∷ xs)) ≡ false
    → urlsplit (slash ∷ tab ∷ slash ∷ slash ∷ xs) ≡ urlsplit (slash ∷ xs)
unfolding urlsplit without_removed is_removed starts_with before from_first has_character
urlsplit_hidden xs single = rw single

-- The tests of a safe path, one by one.
safe_path-rooted : (raw path : Text) → safe_path raw ≡ some path → is_rooted raw ≡ true
unfolding safe_path
safe_path-rooted raw path h = elim (Bool-cases (is_rooted raw)) [
  | inl e ↦ e
  | inr e ↦ absurd (none≢some (rw e at h))
]

safe_path_again :
    (raw other path : Text)
    → is_rooted other ≡ true
    → urlsplit other ≡ urlsplit raw
    → safe_path raw ≡ some path
    → safe_path other ≡ some path
unfolding safe_path
safe_path_again raw other path root same h = rw (same, root) (rw (safe_path-rooted raw path h) at h)

-- A target whose second slash is hidden from the test for two slashes by a tab, which urlsplit takes
-- out, has the path of the target behind it: an empty host is not refused.
pub hidden_slashes_pass :
    (raw path : Text)
    → safe_path raw ≡ some path
    → starts_with (codes "//") (without_removed raw) ≡ false
    → safe_path (slash ∷ tab ∷ slash ∷ raw) ≡ some path
unfolding is_rooted starts_with
hidden_slashes_pass raw path h single =
    let (xs, shape) = rooted raw (and_left _ _ (safe_path-rooted raw path h)) in
    safe_path_again raw (slash ∷ tab ∷ slash ∷ raw) path refl
      (subst (λ r. urlsplit (slash ∷ tab ∷ slash ∷ r) ≡ urlsplit r) (sym shape)
        (urlsplit_hidden xs
          (subst (λ r. starts_with (codes "//") (without_removed r) ≡ false) shape single)))
      h

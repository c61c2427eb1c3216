-- ===== src/Csrf/Binding.antt =====
-- The tokens that are accepted for a session are those that are issued for it.
use xauusd_bot.Base.{
  unnegated, ◌+◌, ◌≡◌, refl, ap, sym, ◌∙◌, Bool, true, false, not, ◌||◌, Option, none, some, ◌++◌,
  Text, text_eq, text_eq_refl, text_eq→eq, length, take, is_empty, ◌==◌, if◌then◌else◌, arith,
  false≢true, none≢some, some-injective, Bool-cases, inl, inr, subst,
}
use xauusd_bot.Csrf.Slices.{drop, length-++, take-++, drop-++, take-drop, length-take_lem}
use xauusd_bot.Csrf.Tokens.{
  Codec, has_token_shape, session_mac, issue_csrf_token, validate_decoded, validate_csrf_token,
  Encodes,
}

if_false : (b x : Bool) → (if b then false else x) ≡ true → (b ≡ false) × (x ≡ true)
if_false true x h = absurd (false≢true h)
if_false false x h = (refl, h)

or_left : (a b : Bool) → a || b ≡ false → a ≡ false
or_left true b h = h
or_left false b h = refl

module _ (codec : Codec) (nonce session token : Text) where
  issue_lem :
      issue_csrf_token codec nonce session ≡ some token
      → (is_empty session ≡ false)
        × (codec.encode (nonce ++ session_mac codec session nonce) ≡ token)
  unfolding issue_csrf_token
  issue_lem h = elim (Bool-cases (is_empty session)) [
    | inl e ↦ absurd (none≢some (sym (rw e refl) ∙ h))
    | inr e ↦ (e, some-injective (sym (rw e refl) ∙ h))
  ]

  decoded_lem :
      length nonce ≡ 32
      → length (nonce ++ session_mac codec session nonce) ≡ 64
      → validate_decoded codec session
          (codec.encode (nonce ++ session_mac codec session nonce))
          (some (nonce ++ session_mac codec session nonce))
        ≡ true
  unfolding validate_decoded
  decoded_lem size whole =
      let mac = session_mac codec session nonce in
      rw
        (
          whole,
          text_eq_refl (codec.encode (nonce ++ mac)),
          take-++ nonce mac 32 size,
          drop-++ nonce mac 32 size,
          text_eq_refl mac,
        )
        refl

  -- A token issued for a session over a nonce of 32 bytes is valid for that session, where the HMAC
  -- has 32 bytes and nonce and HMAC are encoded as base 64 does it.
  pub issued_is_valid :
      length nonce ≡ 32
      → length (session_mac codec session nonce) ≡ 32
      → Encodes codec (nonce ++ session_mac codec session nonce)
      → issue_csrf_token codec nonce session ≡ some token
      → validate_csrf_token codec (some session) (some token) ≡ true
  unfolding validate_csrf_token
  issued_is_valid size mac_size law issued =
      let (full, same) = issue_lem issued in
      let mac = session_mac codec session nonce in
      let whole : length (nonce ++ mac) ≡ 64 = length-++ nonce mac 32 32 size mac_size in
      subst (λ supplied. validate_csrf_token codec (some session) (some supplied) ≡ true) same
        (rw (full, law.shape, law.decodes) (decoded_lem size whole))

module _ (codec : Codec) (session token : Text) where
  validate_decoded-issued :
      (decoded : Option Text)
      → validate_decoded codec session token decoded ≡ true
      → (nonce : Text) × (length nonce ≡ 32)
        × (codec.encode (nonce ++ session_mac codec session nonce) ≡ token)
  unfolding validate_decoded
  validate_decoded-issued none h = absurd (false≢true h)
  validate_decoded-issued (some d) h =
      let mac = session_mac codec session (take 32 d) in
      let (size, h1) =
        if_false (not (length d == 64))
          (if not (text_eq (codec.encode d) token) then false else text_eq mac (drop 32 d)) h in
      let (canonical, h2) =
        if_false (not (text_eq (codec.encode d) token)) (text_eq mac (drop 32 d)) h1 in
      let long : length d ≡ 32 + 32 = ground (arith, size) in
      let whole : take 32 d ++ mac ≡ d =
        ap (λ rest. take 32 d ++ rest) (text_eq→eq mac (drop 32 d) h2) ∙ take-drop 32 d in
      (
        take 32 d,
        length-take_lem 32 32 d long,
        ap codec.encode whole ∙ text_eq→eq (codec.encode d) token (unnegated _ canonical),
      )

  -- A token that is valid for a session is one that `issue_csrf_token` gives out for that session with
  -- some nonce of 32 bytes, in the spelling of its encoding.
  pub valid_is_issued :
      validate_csrf_token codec (some session) (some token) ≡ true
      → (nonce : Text) × (length nonce ≡ 32) × (issue_csrf_token codec nonce session ≡ some token)
  unfolding validate_csrf_token issue_csrf_token
  valid_is_issued h =
      let (open_, h1) =
        if_false (is_empty session || not (has_token_shape token))
          (validate_decoded codec session token (codec.decode token)) h in
      let (nonce, size, same) = validate_decoded-issued (codec.decode token) h1 in
      (
        nonce,
        size,
        rw (or_left (is_empty session) (not (has_token_shape token)) open_) (ap some same),
      )

module _ (codec : Codec) (token : Text) where
  -- The token decodes to 32 bytes and this MAC of the session over them.
  DecodesFor : (session : Text) → Option Text → Type 0
  DecodesFor session decoded =
      (d : Text) × (decoded ≡ some d)
      × (length d ≡ 64)
      × (session_mac codec session (take 32 d) ≡ drop 32 d)

  validate_decoded-DecodesFor :
      (session : Text) (decoded : Option Text)
      → validate_decoded codec session token decoded ≡ true
      → DecodesFor session decoded
  unfolding validate_decoded DecodesFor
  validate_decoded-DecodesFor session none h = absurd (false≢true h)
  validate_decoded-DecodesFor session (some d) h =
      let mac = session_mac codec session (take 32 d) in
      let (size, h1) =
        if_false (not (length d == 64))
          (if not (text_eq (codec.encode d) token) then false else text_eq mac (drop 32 d)) h in
      let (canonical, h2) =
        if_false (not (text_eq (codec.encode d) token)) (text_eq mac (drop 32 d)) h1 in
      (d, refl, ground (arith, size), text_eq→eq mac (drop 32 d) h2)

  valid-DecodesFor :
      (session : Text)
      → validate_csrf_token codec (some session) (some token) ≡ true
      → DecodesFor session (codec.decode token)
  unfolding validate_csrf_token
  valid-DecodesFor session h =
      let (open_, h1) =
        if_false (is_empty session || not (has_token_shape token))
          (validate_decoded codec session token (codec.decode token)) h in
      validate_decoded-DecodesFor session (codec.decode token) h1

  -- A token that is valid for two sessions shows 32 bytes over which both sessions have the same HMAC:
  -- where no two sessions have a common HMAC over a nonce of 32 bytes, a token is valid for one alone.
  pub valid_twice_collides :
      (session other : Text)
      → validate_csrf_token codec (some session) (some token) ≡ true
      → validate_csrf_token codec (some other) (some token) ≡ true
      → (nonce : Text) × (length nonce ≡ 32)
        × (session_mac codec session nonce ≡ session_mac codec other nonce)
  unfolding DecodesFor
  valid_twice_collides session other h k =
      let (d, decoded, size, mac) = valid-DecodesFor session h in
      let (d2, decoded2, size2, mac2) = valid-DecodesFor other k in
      let same : d2 ≡ d = some-injective (sym decoded2 ∙ decoded) in
      (
        take 32 d,
        length-take_lem 32 32 d size,
        mac ∙ sym (subst (λ b. session_mac codec other (take 32 b) ≡ drop 32 b) same mac2),
      )

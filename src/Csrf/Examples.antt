-- ===== src/Csrf/Examples.antt =====
-- A token of a session, with functions in place of the encoding and the HMAC.
use xauusd_bot.Base.{ℕ, zero, suc, ◌≡◌, refl, true, some, [], ◌∷◌, ◌++◌, Text, text_eq, length}
use xauusd_bot.Csrf.Slices.{drop}
use xauusd_bot.Csrf.Tokens.{
  Codec, Encodes, is_token_character, are_all, has_token_shape, session_mac, issue_csrf_token,
  validate_decoded, validate_csrf_token,
}
use xauusd_bot.Csrf.Binding.{issued_is_valid, valid_is_issued, valid_twice_collides}

abbrev repeated : ℕ → ℕ → Text
repeated zero c = []
repeated (suc n) c = c ∷ repeated n c

-- Every message has the same HMAC, and every 64 bytes the same encoding, decoded to these bytes.
abbrev codec : Codec
codec = record {
  hmac_sha256 = λ key message. repeated 32 0;
  encode = λ b. repeated 86 65;
  decode = λ t. some (repeated 64 0);
  utf8 = λ t. t;
}

abbrev nonce : Text
nonce = repeated 32 0

abbrev session : Text
session = 21 ∷ []

mac_has_32_bytes : length (session_mac codec session nonce) ≡ 32
unfolding session_mac
mac_has_32_bytes = refl

codec-Encodes : Encodes codec (nonce ++ session_mac codec session nonce)
unfolding session_mac has_token_shape are_all is_token_character
codec-Encodes = record { shape = refl; decodes = refl }

issues_token : issue_csrf_token codec nonce session ≡ some (repeated 86 65)
unfolding issue_csrf_token
issues_token = refl

accepts_token : validate_csrf_token codec (some session) (some (repeated 86 65)) ≡ true
unfolding validate_csrf_token validate_decoded has_token_shape are_all is_token_character
    session_mac drop text_eq
accepts_token = refl

issued_is_valid_example : validate_csrf_token codec (some session) (some (repeated 86 65)) ≡ true
issued_is_valid_example =
    issued_is_valid codec nonce session (repeated 86 65) refl mac_has_32_bytes codec-Encodes
      issues_token

valid_is_issued_example :
    (n : Text) × (length n ≡ 32) × (issue_csrf_token codec n session ≡ some (repeated 86 65))
valid_is_issued_example = valid_is_issued codec session (repeated 86 65) accepts_token

abbrev other : Text
other = 22 ∷ []

accepts_for_other : validate_csrf_token codec (some other) (some (repeated 86 65)) ≡ true
unfolding validate_csrf_token validate_decoded has_token_shape are_all is_token_character
    session_mac drop text_eq
accepts_for_other = refl

valid_twice_collides_example :
    (n : Text) × (length n ≡ 32) × (session_mac codec session n ≡ session_mac codec other n)
valid_twice_collides_example =
    valid_twice_collides codec (repeated 86 65) session other accepts_token accepts_for_other

-- ===== src/Csrf/Tokens.antt =====
-- services/csrf.py: the tokens that bind a mutation to the session cookie. HMAC-SHA-256, the
-- encoding in base 64 and UTF-8 are parameters.
use xauusd_bot.Base.{
  ℕ, ◌≡◌, Bool, true, false, not, ◌&&◌, ◌||◌, Option, none, some, [], ◌∷◌, ◌++◌, Text, text_eq,
  length, take, is_empty, leb, ◌==◌, if◌then◌else◌,
}
use xauusd_bot.Csrf.Slices.{drop}

-- Bytes and texts are lists of numbers. `encode` is `urlsafe_b64encode` less its padding, and
-- `decode` the inverse on a text that the padding is added to, `none` where it raises.
pub record Codec : Type 0 where
  pub hmac_sha256 : (key message : Text) → Text
  pub encode : Text → Text
  pub decode : Text → Option Text
  pub utf8 : Text → Text

-- `_NONCE_BYTES` and `_TOKEN_BYTES`
abbrev pub nonce_bytes : ℕ
nonce_bytes = 32

abbrev pub token_bytes : ℕ
token_bytes = 64

-- `_TOKEN_CONTEXT`: "xauusd-private-csrf-v1" and a zero byte.
abbrev pub token_context : Text
token_context =
    120 ∷ 97 ∷ 117 ∷ 117 ∷ 115 ∷ 100 ∷ 45 ∷ 112 ∷ 114 ∷ 105 ∷ 118 ∷ 97 ∷ 116 ∷ 101 ∷ 45 ∷ 99 ∷ 115
    ∷ 114 ∷ 102 ∷ 45 ∷ 118 ∷ 49 ∷ 0 ∷ []

-- `[A-Za-z0-9_-]`
unfoldable pub is_token_character : ℕ → Bool
is_token_character c =
    leb 65 c && leb c 90 || leb 97 c && leb c 122 || leb 48 c && leb c 57 || c == 95 || c == 45

unfoldable pub are_all : (ℕ → Bool) → Text → Bool
are_all p [] = true
are_all p (c ∷ cs) = p c && are_all p cs

-- `_TOKEN_PATTERN.fullmatch(supplied)`
unfoldable pub has_token_shape : Text → Bool
has_token_shape t = length t == 86 && are_all is_token_character t

module _ (codec : Codec) where
  unfoldable pub session_mac : (session nonce : Text) → Text
  session_mac session nonce = codec.hmac_sha256 (codec.utf8 session) (token_context ++ nonce)

  -- `none` is the ValueError.
  unfoldable pub issue_csrf_token : (nonce session : Text) → Option Text
  issue_csrf_token nonce session =
      if is_empty session then none else some (codec.encode (nonce ++ session_mac session nonce))

  unfoldable pub validate_decoded : (session supplied : Text) → Option Text → Bool
  validate_decoded session supplied none = false
  validate_decoded session supplied (some decoded) =
      if not (length decoded == token_bytes)
      then false
      else if not (text_eq (codec.encode decoded) supplied)
      then false
      else text_eq (session_mac session (take nonce_bytes decoded)) (drop nonce_bytes decoded)

  unfoldable pub validate_csrf_token : (session supplied : Option Text) → Bool
  validate_csrf_token none supplied = false
  validate_csrf_token (some session) none = false
  validate_csrf_token (some session) (some supplied) =
      if is_empty session || not (has_token_shape supplied)
      then false
      else validate_decoded session supplied (codec.decode supplied)

-- What the code relies on for some bytes: they are encoded as 86 characters of the alphabet, from
-- which they are decoded again. Base 64 does so for every 64 bytes.
pub record Encodes (codec : Codec) (b : Text) : Type 0 where
  pub shape : has_token_shape (codec.encode b) ≡ true
  pub decodes : codec.decode (codec.encode b) ≡ some b

-- ===== src/Policies/Origins.antt =====
-- config/csrf_policy.py: the provenance of a request.
use xauusd_bot.Base.{
  ℕ, Bool, true, false, not, ◌&&◌, ◌||◌, Option, none, some, List, [], ◌∷◌, Text, is_empty, codes,
  text_eq, has_text, is_some, ltb, leb, ◌==◌, if◌then◌else◌,
}
use xauusd_bot.Supervisor.Commands.{has_character, starts_with}

-- `SplitResult`, with what its properties read; a port is in its range.
pub record SplitOrigin : Type 0 where
  pub scheme : Text
  pub netloc : Text
  pub username : Option Text
  pub password : Option Text
  pub path : Text
  pub query : Text
  pub fragment : Text
  pub hostname : Option Text
  pub port : Option ℕ

-- What is taken from Python: str.strip, str.lower and str.isspace, urllib.parse.urlsplit with the
-- properties (`none` where one of them raises ValueError), ipaddress and the codec for IDNA.
pub record OriginLibrary : Type 0 where
  pub strip : Text → Text
  pub lower : Text → Text
  pub is_space : ℕ → Bool
  pub urlsplit_origin : Text → Option SplitOrigin
  pub ip_compressed : Text → Option Text
  pub idna_lower : Text → Option Text

pub record OriginKey : Type 0 where
  pub scheme : Text
  pub host : Text
  pub port : ℕ

unfoldable pub ends_with_character : ℕ → Text → Bool
ends_with_character c [] = false
ends_with_character c (x ∷ []) = c == x
ends_with_character c (x ∷ y ∷ ys) = ends_with_character c (y ∷ ys)

unfoldable pub same_key : OriginKey → OriginKey → Bool
same_key a b = text_eq a.scheme b.scheme && text_eq a.host b.host && a.port == b.port

module _ (lib : OriginLibrary) where
  unfoldable pub has_space : Text → Bool
  has_space [] = false
  has_space (c ∷ cs) = lib.is_space c || ltb c 32 || has_space cs

  unfoldable pub is_bare_value : Text → Bool
  is_bare_value value =
      not (is_empty value)
      && text_eq value (lib.strip value)
      && not (has_space value || has_character b'?' value || has_character b'#' value)

  -- The parts that an origin has, and none of the others.
  unfoldable pub is_bare_origin : SplitOrigin → Bool
  is_bare_origin p =
      has_text (lib.lower p.scheme) (codes "http" ∷ codes "https" ∷ [])
      && not (is_empty p.netloc)
      && not (ends_with_character b':' p.netloc)
      && not (is_some p.username)
      && not (is_some p.password)
      && is_empty p.path
      && is_empty p.query
      && is_empty p.fragment
      && not (has_character b'%' p.netloc)

  unfoldable pub usable_host : Option Text → Option Text
  usable_host none = none
  usable_host (some host) = if is_empty host || has_character b'*' host then none else some host

  unfoldable pub checked_idna : Option Text → Option Text
  checked_idna none = none
  checked_idna (some host) =
      if is_empty host || starts_with (codes ".") host || ends_with_character b'.' host
      then none
      else some host

  unfoldable pub canonical_host : Text → Option Text → Option Text
  canonical_host host (some address) = some address
  canonical_host host none = checked_idna (lib.idna_lower host)

  unfoldable pub resolved_port : Text → Option ℕ → ℕ
  resolved_port scheme (some port) = port
  resolved_port scheme none = if text_eq scheme (codes "https") then 443 else 80

  unfoldable pub key_of : SplitOrigin → Option Text → Option OriginKey
  key_of p none = none
  key_of p (some host) =
      let scheme = lib.lower p.scheme in
      let port = resolved_port scheme p.port in
      if leb 1 port && leb port 65535
      then some (record { scheme = scheme; host = host; port = port })
      else none

  unfoldable pub host_of : Option Text → Option Text
  host_of none = none
  host_of (some host) = canonical_host host (lib.ip_compressed host)

  unfoldable pub split_key : Option SplitOrigin → Option OriginKey
  split_key none = none
  split_key (some p) =
      if is_bare_origin p then key_of p (host_of (usable_host p.hostname)) else none

  -- `origin_key`
  unfoldable pub origin_key : Text → Option OriginKey
  origin_key value = if is_bare_value value then split_key (lib.urlsplit_origin value) else none

  unfoldable pub is_key : OriginKey → Option OriginKey → Bool
  is_key supplied none = false
  is_key supplied (some key) = same_key key supplied

  unfoldable pub any_key : OriginKey → List Text → Bool
  any_key supplied [] = false
  any_key supplied (candidate ∷ candidates) =
      is_key supplied (origin_key candidate) || any_key supplied candidates

  unfoldable pub key_is_trusted : Option OriginKey → List Text → Bool
  key_is_trusted none trusted = false
  key_is_trusted (some supplied) trusted = any_key supplied trusted

  unfoldable pub key_of_origin : Option Text → Option OriginKey
  key_of_origin none = none
  key_of_origin (some origin) = origin_key origin

  -- `is_trusted_origin`
  unfoldable pub is_trusted_origin : Option Text → List Text → Bool
  is_trusted_origin origin trusted = key_is_trusted (key_of_origin origin) trusted

  -- `fetch_metadata_is_acceptable`
  unfoldable pub fetch_metadata_is_acceptable : Option Text → Bool
  fetch_metadata_is_acceptable none = true
  fetch_metadata_is_acceptable (some value) =
      has_text (lib.lower (lib.strip value))
        (codes "same-origin" ∷ codes "same-site" ∷ codes "none" ∷ [])

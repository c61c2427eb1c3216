-- ===== src/Policies/Paths.antt =====
-- config/remote_read_only_policy.py: `_safe_path`, with what it uses of urllib.parse.urlsplit.
use xauusd_bot.Base.{
  ℕ, Bool, false, not, ◌&&◌, ◌||◌, Option, none, some, List, [], ◌∷◌, Text, is_empty, ◌==◌,
  if◌then◌else◌, codes, has_text,
}
use xauusd_bot.Supervisor.Commands.{has_character, starts_with, slash, backslash, tab}

abbrev pub newline : ℕ
newline = b'\n'

abbrev pub carriage_return : ℕ
carriage_return = 13

-- `_UNSAFE_URL_BYTES_TO_REMOVE` of urllib.parse.
unfoldable pub is_removed : ℕ → Bool
is_removed c = c == tab || c == carriage_return || c == newline

unfoldable pub without_removed : Text → Text
without_removed [] = []
without_removed (c ∷ cs) = if is_removed c then without_removed cs else c ∷ without_removed cs

-- What stands before the first of these characters, and from it on.
unfoldable pub before : Text → Text → Text
before stops [] = []
before stops (c ∷ cs) = if has_character c stops then [] else c ∷ before stops cs

unfoldable pub from_first : Text → Text → Text
from_first stops [] = []
from_first stops (c ∷ cs) = if has_character c stops then c ∷ cs else from_first stops cs

abbrev pub tail_of : Text → Text
tail_of [] = []
tail_of (c ∷ cs) = cs

-- `SplitResult`; a target that begins with a slash has no scheme.
pub record SplitTarget : Type 0 where
  pub netloc : Text
  pub path : Text
  pub fragment : Text

-- The path in front of a query and a fragment.
unfoldable pub split_path : Text → Text → SplitTarget
split_path netloc url = record {
  netloc = netloc;
  path = before (codes "?") (before (codes "#") url);
  fragment = tail_of (from_first (codes "#") url);
}

-- `urlsplit` of a target that begins with a slash. Where it raises there is a netloc.
unfoldable pub urlsplit : Text → SplitTarget
urlsplit raw =
    let url = without_removed raw in
    let rest = tail_of (tail_of url) in
    if starts_with (codes "//") url
    then split_path (before (codes "/?#") rest) (from_first (codes "/?#") rest)
    else split_path [] url

abbrev pub cons_first : ℕ → List Text → List Text
cons_first c [] = (c ∷ []) ∷ []
cons_first c (segment ∷ segments) = (c ∷ segment) ∷ segments

-- `path.split("/")`
unfoldable pub split : Text → List Text
split [] = [] ∷ []
split (c ∷ cs) = let rest = split cs in if c == slash then [] ∷ rest else cons_first c rest

-- `segment in {"", ".", ".."}`
unfoldable pub is_dot_segment : Text → Bool
is_dot_segment segment = has_text segment (codes "" ∷ codes "." ∷ codes ".." ∷ [])

unfoldable pub has_dot_segment : List Text → Bool
has_dot_segment [] = false
has_dot_segment (segment ∷ segments) = is_dot_segment segment || has_dot_segment segments

abbrev pub later_segments : List Text → List Text
later_segments [] = []
later_segments (segment ∷ segments) = segments

-- The tests of the path. `unquote` leaves a path without a percent sign as it is.
unfoldable pub is_plain_path : Text → Bool
is_plain_path path =
    starts_with (codes "/") path
    && not (has_character backslash path)
    && not (has_character 0 path)
    && not (has_character b'%' path)
    && not (has_dot_segment (later_segments (split path)))

unfoldable pub is_rooted : Text → Bool
is_rooted raw = starts_with (codes "/") raw && not (starts_with (codes "//") raw)

-- `_safe_path`
unfoldable pub safe_path : Text → Option Text
safe_path raw =
    let target = urlsplit raw in
    if is_rooted raw
      && is_empty target.netloc
      && is_empty target.fragment
      && is_plain_path target.path
    then some target.path
    else none

-- ===== src/Supervisor/Commands.antt =====
-- services/supervisor.py: `_command_matches`, with what it uses of subprocess.list2cmdline and of
-- Python's texts.
use xauusd_bot.Base.{
  ℕ, zero, suc, ◌+◌, Bool, true, false, not, ◌&&◌, ◌||◌, Option, none, some, List, [], ◌∷◌, ◌++◌,
  map, Text, is_empty, length, ◌==◌, if◌then◌else◌,
}
use xauusd_bot.Csrf.Slices.{drop}
use xauusd_bot.Supervisor.Types.{Host}

abbrev pub blank : ℕ
blank = 32

abbrev pub tab : ℕ
tab = 9

abbrev pub quote : ℕ
quote = 34

abbrev pub apostrophe : ℕ
apostrophe = 39

abbrev pub slash : ℕ
slash = 47

abbrev pub backslash : ℕ
backslash = 92

-- `c in text`
unfoldable pub has_character : ℕ → Text → Bool
has_character c [] = false
has_character c (x ∷ xs) = c == x || has_character c xs

unfoldable pub backslashes : ℕ → Text
backslashes zero = []
backslashes (suc n) = backslash ∷ backslashes n

-- The characters of one argument, with the backslashes that wait for the character after them.
unfoldable pub quoted_characters : Bool → Text → ℕ → Text
quoted_characters needquote [] waiting =
    backslashes waiting ++ (if needquote then backslashes waiting ++ quote ∷ [] else [])
quoted_characters needquote (c ∷ cs) waiting =
    if c == backslash
    then quoted_characters needquote cs (suc waiting)
    else if c == quote
    then backslashes (waiting + waiting) ++ backslash ∷ quote ∷ quoted_characters needquote cs 0
    else backslashes waiting ++ c ∷ quoted_characters needquote cs 0

unfoldable pub needs_quotes : Text → Bool
needs_quotes arg = has_character blank arg || has_character tab arg || is_empty arg

unfoldable pub quoted_argument : Text → Text
quoted_argument arg =
    (if needs_quotes arg then quote ∷ [] else []) ++ quoted_characters (needs_quotes arg) arg 0

-- `subprocess.list2cmdline`
unfoldable pub list2cmdline : List Text → Text
list2cmdline [] = []
list2cmdline (arg ∷ []) = quoted_argument arg
list2cmdline (arg ∷ next ∷ args) = quoted_argument arg ++ blank ∷ list2cmdline (next ∷ args)

-- `.replace("/", "\\")`
unfoldable pub slashes_turned : Text → Text
slashes_turned text = map (λ c. if c == slash then backslash else c) text

-- `.replace('"', "")`
unfoldable pub without_quotes : Text → Text
without_quotes [] = []
without_quotes (c ∷ cs) = if c == quote then without_quotes cs else c ∷ without_quotes cs

unfoldable pub starts_with : Text → Text → Bool
starts_with [] text = true
starts_with (x ∷ xs) [] = false
starts_with (x ∷ xs) (y ∷ ys) = x == y && starts_with xs ys

abbrev pub next_offset : Option ℕ → Option ℕ
next_offset none = none
next_offset (some n) = some (suc n)

-- `text.find(needle)`, and `none` for -1.
unfoldable pub find : Text → Text → Option ℕ
find needle [] = if starts_with needle [] then some 0 else none
find needle (c ∷ cs) = if starts_with needle (c ∷ cs) then some 0 else next_offset (find needle cs)

-- `end == len(observed) or observed[end] in " \t\"'"`, for what follows `end`.
unfoldable pub ends_there : Text → Bool
ends_there [] = true
ends_there (c ∷ cs) = c == blank || c == tab || c == quote || c == apostrophe

unfoldable pub ends_after : Text → Text → Option ℕ → Bool
ends_after needle observed none = false
ends_after needle observed (some offset) = ends_there (drop (offset + length needle) observed)

unfoldable pub needle_matches : Host → Text → Text → Bool
needle_matches host observed expected =
    let needle = slashes_turned (host.casefold expected) in
    ends_after needle observed (find needle observed)

unfoldable pub observed_line : Host → Text → Text
observed_line host command_line = without_quotes (slashes_turned (host.casefold command_line))

-- `command[1:]`
unfoldable pub arguments_of : List Text → List Text
arguments_of [] = []
arguments_of (program ∷ args) = args

abbrev pub has_program : List Text → Bool
has_program [] = false
has_program (program ∷ args) = true

-- `_command_matches`
unfoldable pub command_matches : Host → Text → List Text → Bool
command_matches host command_line command =
    let expected = list2cmdline (arguments_of command) in
    let observed = observed_line host command_line in
    has_program command
    && not (is_empty command_line)
    && (needle_matches host observed expected
        || needle_matches host observed (without_quotes expected))

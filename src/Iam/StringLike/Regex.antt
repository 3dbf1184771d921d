-- ===== src/Iam/StringLike/Regex.antt =====
-- Go's `regexp.QuoteMeta`, a `strings.Replacer` with two pairs, and `regexp.MatchString` for the
-- expressions that come of the two: literals, escaped punctuation, `.` and `.*`.
use fakes3pp.Prelude.{
  ℕ, Char, code, String, Bool, true, false, not, ◌&&◌, ◌||◌, List, [], ◌∷◌, Option, none, some,
  ◌==◌, if◌then◌else◌,
}

abbrev pub is_one_of : ℕ → String → Bool
is_one_of n String.[] = false
is_one_of n (String.◌∷◌ d s) = n == code d || is_one_of n s

-- The characters that `QuoteMeta` escapes.
unfoldable pub is_special : ℕ → Bool
is_special n = is_one_of n "\\.+*?()|[]{}^$"

unfoldable pub quote_meta : String → String
quote_meta String.[] = ""
quote_meta (String.◌∷◌ c s) =
    if is_special (code c)
    then String.◌∷◌ "\\" (String.◌∷◌ c (quote_meta s))
    else String.◌∷◌ c (quote_meta s)

-- `strings.NewReplacer("\\*", ".*", "\\?", ".").Replace`.
unfoldable pub replace_wildcards : String → String
replace_wildcards String.[] = ""
replace_wildcards (String.◌∷◌ c String.[]) = String.◌∷◌ c ""
replace_wildcards (String.◌∷◌ c (String.◌∷◌ d s)) =
    let any_run = String.◌∷◌ "." (String.◌∷◌ "*" (replace_wildcards s)) in
    let any_char = String.◌∷◌ "." (replace_wildcards s) in
    let same = String.◌∷◌ c (replace_wildcards (String.◌∷◌ d s)) in
    if code c == b'\\' && code d == b'*'
    then any_run
    else if code c == b'\\' && code d == b'?'
    then any_char
    else same

-- The parts of an expression.
pub data Token : Type 0 where
  literal : Char → Token
  any_char any_run : Token

abbrev pub cons : Token → Option (List Token) → Option (List Token)
cons t none = none
cons t (some ts) = some (t ∷ ts)

-- The parse of an expression; `none` for what lies outside the kind described above.
unfoldable pub parse : String → Option (List Token)
parse String.[] = some []
parse (String.◌∷◌ c String.[]) =
    if code c == b'.'
    then some (any_char ∷ [])
    else if is_special (code c)
    then none
    else some (literal c ∷ [])
parse (String.◌∷◌ c (String.◌∷◌ d s)) =
    let after_two = parse s in
    let after_one = parse (String.◌∷◌ d s) in
    let escaped = if is_special (code d) then cons (literal d) after_two else none in
    let dot = if code d == b'*' then cons any_run after_two else cons any_char after_one in
    let plain = cons (literal c) after_one in
    if code c == b'\\'
    then escaped
    else if code c == b'.'
    then dot
    else if is_special (code c)
    then none
    else plain

-- `.` matches any character but a line feed.
abbrev pub is_dot : Char → Bool
is_dot c = not (code c == 10)

-- Whether a match of the expression begins at the beginning of the text.
unfoldable pub match_here : List Token → String → Bool
match_here [] s = true
match_here (literal c ∷ ts) String.[] = false
match_here (literal c ∷ ts) (String.◌∷◌ d s) = code c == code d && match_here ts s
match_here (any_char ∷ ts) String.[] = false
match_here (any_char ∷ ts) (String.◌∷◌ d s) = is_dot d && match_here ts s
match_here (any_run ∷ ts) String.[] = match_here ts String.[]
match_here (any_run ∷ ts) (String.◌∷◌ d s) =
    let stop = match_here ts (String.◌∷◌ d s) in
    let go = match_here (any_run ∷ ts) s in stop || (is_dot d && go)

-- `regexp.MatchString`: whether the text contains a match, at any place.
unfoldable pub match_string : List Token → String → Bool
match_string ts String.[] = match_here ts String.[]
match_string ts (String.◌∷◌ d s) = match_here ts (String.◌∷◌ d s) || match_string ts s

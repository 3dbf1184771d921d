-- ===== src/Text/Pieces.antt =====
-- Prefixes, splitting, joining and trimming.
use fakes3pp.Prelude.{
  ℕ, zero, suc, ◌-◌, Char, code, String, Bool, true, false, ◌&&◌, ◌||◌, List, [], ◌∷◌, leb, ◌==◌,
  if◌then◌else◌,
}

-- Go's `+` on strings.
abbrev pub append : String → String → String
append String.[] t = t
append (String.◌∷◌ c s) t = String.◌∷◌ c (append s t)

-- The number of characters.
abbrev pub size : String → ℕ
size String.[] = 0
size (String.◌∷◌ c s) = suc (size s)

-- `strings.HasPrefix(s, prefix)`.
unfoldable pub has_prefix : String → String → Bool
has_prefix s String.[] = true
has_prefix String.[] (String.◌∷◌ d p) = false
has_prefix (String.◌∷◌ c s) (String.◌∷◌ d p) = code c == code d && has_prefix s p

-- `s[n:]`.
abbrev pub drop : ℕ → String → String
drop zero s = s
drop (suc n) String.[] = ""
drop (suc n) (String.◌∷◌ c s) = drop n s

abbrev pub cons_head : Char → List String → List String
cons_head c [] = String.◌∷◌ c "" ∷ []
cons_head c (x ∷ xs) = String.◌∷◌ c x ∷ xs

-- The scan behind `split`: the next `k` characters belong to a separator that was found.
unfoldable pub split_skip : String → ℕ → String → List String
split_skip sep k String.[] = "" ∷ []
split_skip sep (suc k) (String.◌∷◌ c s) = split_skip sep k s
split_skip sep zero (String.◌∷◌ c s) =
    let next = "" ∷ split_skip sep (size sep - 1) s in
    let more = cons_head c (split_skip sep zero s) in
    if has_prefix (String.◌∷◌ c s) sep then next else more

-- `strings.Split(s, sep)`, with a separator that is not empty.
unfoldable pub split : String → String → List String
unfolding split_skip has_prefix
split s sep = split_skip sep zero s

-- `strings.Join(parts, sep)`.
unfoldable pub join : List String → String → String
join [] sep = ""
join (x ∷ []) sep = x
join (x ∷ y ∷ ys) sep = append x (append sep (join (y ∷ ys) sep))

-- `strings.TrimLeft(s, " ")`.
unfoldable pub trim_left : String → String
trim_left String.[] = ""
trim_left (String.◌∷◌ c s) = if code c == b' ' then trim_left s else String.◌∷◌ c s

-- Whether every character of the text is a blank of the given kind.
abbrev all_chars : (ℕ → Bool) → String → Bool
all_chars p String.[] = true
all_chars p (String.◌∷◌ c s) = p (code c) && all_chars p s

abbrev trim_right_of : (ℕ → Bool) → String → String
trim_right_of p String.[] = ""
trim_right_of p (String.◌∷◌ c s) =
    if p (code c) && all_chars p s then "" else String.◌∷◌ c (trim_right_of p s)

abbrev trim_left_of : (ℕ → Bool) → String → String
trim_left_of p String.[] = ""
trim_left_of p (String.◌∷◌ c s) = if p (code c) then trim_left_of p s else String.◌∷◌ c s

-- The ASCII white space of `unicode.IsSpace`.
abbrev pub is_space : ℕ → Bool
is_space n = (leb 9 n && leb n 13) || n == 32

-- `strings.Trim(s, " ")`.
unfoldable pub trim : String → String
trim s = trim_right_of (λ n. n == 32) (trim_left_of (λ n. n == 32) s)

-- `strings.TrimSpace(s)`, for ASCII white space.
unfoldable pub trim_space : String → String
trim_space s = trim_right_of is_space (trim_left_of is_space s)

-- `strings.ReplaceAll(s, x, "")` for the one character whose code is given.
unfoldable pub remove_all : ℕ → String → String
remove_all n String.[] = ""
remove_all n (String.◌∷◌ c s) =
    if code c == n then remove_all n s else String.◌∷◌ c (remove_all n s)

-- The character that stands in `to` where `c` stands in `from`; `c` itself if it does not.
translate : String → String → Char → Char
translate String.[] to c = c
translate (String.◌∷◌ d from) String.[] c = c
translate (String.◌∷◌ d from) (String.◌∷◌ e to) c =
    if code c == code d then e else translate from to c

abbrev pub map_chars : (Char → Char) → String → String
map_chars f String.[] = ""
map_chars f (String.◌∷◌ c s) = String.◌∷◌ (f c) (map_chars f s)

unfoldable pub lower : Char → Char
unfolding translate
lower = translate "ABCDEFGHIJKLMNOPQRSTUVWXYZ" "abcdefghijklmnopqrstuvwxyz"

unfoldable pub upper : Char → Char
unfolding translate
upper = translate "abcdefghijklmnopqrstuvwxyz" "ABCDEFGHIJKLMNOPQRSTUVWXYZ"

-- `strings.ToLower(s)` and `strings.ToUpper(s)`, for ASCII letters.
unfoldable pub to_lower : String → String
unfolding lower
to_lower s = map_chars lower s

unfoldable pub to_upper : String → String
unfolding upper
to_upper s = map_chars upper s

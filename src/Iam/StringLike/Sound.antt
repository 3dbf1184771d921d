-- ===== src/Iam/StringLike/Sound.antt =====
-- `iamStringLike` against the wildcard language that its comment describes.
use fakes3pp.Prelude.{
  ℕ, Char, code, String, ◌≡◌, refl, Bool, true, false, List, [], ◌∷◌, some, ◌==◌, if◌then◌else◌,
  arith, Bool-cases, inl, inr, ◌↔◌, ◌∙◌, ap, ==_iff,
}
use fakes3pp.Text.{append}
use fakes3pp.Iam.StringLike.Regex.{
  is_special, quote_meta, replace_wildcards, Token, literal, any_char, any_run, cons, parse,
  match_here, match_string, is_dot,
}

-- What the characters of a pattern mean.
abbrev pub token : Char → Token
token c = if code c == b'*' then any_run else if code c == b'?' then any_char else literal c

abbrev pub tokens : String → List Token
tokens String.[] = []
tokens (String.◌∷◌ c s) = token c ∷ tokens s

abbrev starts : ℕ → String → Bool
starts n String.[] = false
starts n (String.◌∷◌ c s) = code c == n

special-ne : (m n : ℕ) → is_special m ≡ false → is_special n ≡ true → (m == n) ≡ false
special-ne m n h k = elim (Bool-cases (m == n)) [
  | inl e ↦ absurd (cc (ap is_special ((==_iff m n).0 e)))
  | inr e ↦ e
]

-- A quoted text begins with no special character but the backslash.
quote_meta-starts :
    (n : ℕ) (p : String)
    → is_special n ≡ true
    → (b'\\' == n) ≡ false
    → starts n (quote_meta p) ≡ false
unfolding quote_meta
quote_meta-starts n String.[] h k = refl
quote_meta-starts n (String.◌∷◌ c p) h k = elim (Bool-cases (is_special (code c))) [
  | inl e ↦ rw e k
  | inr e ↦ rw e (special-ne (code c) n e h)
]

-- After the first character of a quoted text the replacement goes on with the rest.
replace-cons :
    (c : Char) (s : String)
    → starts b'*' s ≡ false
    → starts b'?' s ≡ false
    → replace_wildcards (String.◌∷◌ c s) ≡ String.◌∷◌ c (replace_wildcards s)
unfolding replace_wildcards
replace-cons c String.[] h k = refl
replace-cons c (String.◌∷◌ d s) h k = ground arith

-- The expression that `iamStringLike` compiles.
abbrev expression : String → String
expression p = replace_wildcards (quote_meta p)

module _ (c : Char) (p : String) where
  replace-quoted :
      (d : Char) → replace_wildcards (String.◌∷◌ d (quote_meta p)) ≡ String.◌∷◌ d (expression p)
  unfolding is_special
  replace-quoted d =
      replace-cons d (quote_meta p) (quote_meta-starts b'*' p refl refl)
        (quote_meta-starts b'?' p refl refl)

  expression-star :
      (code c == b'*') ≡ true
      → expression (String.◌∷◌ c p) ≡ String.◌∷◌ "." (String.◌∷◌ "*" (expression p))
  unfolding quote_meta replace_wildcards is_special
  expression-star e = ground arith

  expression-question :
      (code c == b'?') ≡ true → expression (String.◌∷◌ c p) ≡ String.◌∷◌ "." (expression p)
  unfolding quote_meta replace_wildcards is_special
  expression-question e = ground arith

  expression-special :
      is_special (code c) ≡ true
      → (code c == b'*') ≡ false
      → (code c == b'?') ≡ false
      → expression (String.◌∷◌ c p) ≡ String.◌∷◌ "\\" (String.◌∷◌ c (expression p))
  unfolding quote_meta
  expression-special e f g = rw e (
      replace-cons "\\" (String.◌∷◌ c (quote_meta p)) f g ∙ ap (String.◌∷◌ "\\") (replace-quoted c))

  expression-plain :
      is_special (code c) ≡ false → expression (String.◌∷◌ c p) ≡ String.◌∷◌ c (expression p)
  unfolding quote_meta
  expression-plain e = rw e (replace-quoted c)

  expression-starts : starts b'*' (expression (String.◌∷◌ c p)) ≡ false
  expression-starts = elim (Bool-cases (code c == b'*')) [
    | inl e ↦ rw (expression-star e) refl
    | inr e ↦ elim (Bool-cases (code c == b'?')) [
      | inl f ↦ rw (expression-question f) refl
      | inr f ↦ elim (Bool-cases (is_special (code c))) [
        | inl g ↦ rw (expression-special g e f) refl
        | inr g ↦ rw (expression-plain g) e
      ]
    ]
  ]

expression-starts_all : (p : String) → starts b'*' (expression p) ≡ false
unfolding quote_meta replace_wildcards
expression-starts_all String.[] = refl
expression-starts_all (String.◌∷◌ c p) = expression-starts c p

parse-dot :
    (s : String) → starts b'*' s ≡ false → parse (String.◌∷◌ "." s) ≡ cons any_char (parse s)
unfolding parse is_special
parse-dot String.[] h = refl
parse-dot (String.◌∷◌ c s) h = ground arith

parse-run : (s : String) → parse (String.◌∷◌ "." (String.◌∷◌ "*" s)) ≡ cons any_run (parse s)
unfolding parse
parse-run s = refl

parse-escaped :
    (c : Char) (s : String)
    → is_special (code c) ≡ true
    → parse (String.◌∷◌ "\\" (String.◌∷◌ c s)) ≡ cons (literal c) (parse s)
unfolding parse
parse-escaped c s h = ground arith

parse-plain :
    (c : Char) (s : String)
    → is_special (code c) ≡ false
    → parse (String.◌∷◌ c s) ≡ cons (literal c) (parse s)
unfolding parse
parse-plain c String.[] h = ground (arith, special-ne (code c) b'.' h (unfold is_special in refl))
parse-plain c (String.◌∷◌ d s) h = ground (
  arith,
  special-ne (code c) b'.' h (unfold is_special in refl),
  special-ne (code c) b'\\' h (unfold is_special in refl),
)

parse_step :
    (c : Char) (p : String)
    → parse (expression p) ≡ some (tokens p)
    → parse (expression (String.◌∷◌ c p)) ≡ some (tokens (String.◌∷◌ c p))
parse_step c p ih = elim (Bool-cases (code c == b'*')) [
  | inl e ↦ rw (expression-star c p e, parse-run, ih, e) refl
  | inr e ↦ elim (Bool-cases (code c == b'?')) [
    | inl f ↦ rw (expression-question c p f, parse-dot _ (expression-starts_all p), ih, e, f) refl
    | inr f ↦ elim (Bool-cases (is_special (code c))) [
      | inl g ↦ rw (expression-special c p g e f, parse-escaped c _ g, ih, e, f) refl
      | inr g ↦ rw (expression-plain c p g, parse-plain c _ g, ih, e, f) refl
    ]
  ]
]

-- What is compiled from a pattern is the pattern, character by character.
pub parse-expression : (p : String) → parse (replace_wildcards (quote_meta p)) ≡ some (tokens p)
unfolding quote_meta replace_wildcards parse
parse-expression String.[] = refl
parse-expression (String.◌∷◌ c p) = parse_step c p (parse-expression p)

-- A text that the whole of a pattern matches: a run stands for any characters but line feeds.
pub data Like : List Token → String → Type 0 where
  done : Like [] ""
  stop : {ts : List Token} {s : String} → Like ts s → Like (any_run ∷ ts) s
  take :
      {ts : List Token} {d : Char} {s : String}
      → is_dot d ≡ true
      → Like (any_run ∷ ts) s
      → Like (any_run ∷ ts) (String.◌∷◌ d s)
  one :
      {ts : List Token} {d : Char} {s : String}
      → is_dot d ≡ true
      → Like ts s
      → Like (any_char ∷ ts) (String.◌∷◌ d s)
  same :
      {ts : List Token} {c d : Char} {s : String}
      → (code c == code d) ≡ true
      → Like ts s
      → Like (literal c ∷ ts) (String.◌∷◌ d s)

-- A beginning of the text matches.
abbrev LikePrefix : List Token → String → Type 0
LikePrefix ts s = (mid : String) × (rest : String) × (s ≡ append mid rest) × Like ts mid

match_here_sound : (ts : List Token) (s : String) → match_here ts s ≡ true → LikePrefix ts s
unfolding match_here
match_here_sound [] s h = ("", s, refl, done)
match_here_sound (literal c ∷ ts) String.[] h = absurd (cc)
match_here_sound (literal c ∷ ts) (String.◌∷◌ d s) h =
    let (mid, rest, e, m) = match_here_sound ts s (ground arith) in
    (String.◌∷◌ d mid, rest, ap (String.◌∷◌ d) e, same (ground arith) m)
match_here_sound (any_char ∷ ts) String.[] h = absurd (cc)
match_here_sound (any_char ∷ ts) (String.◌∷◌ d s) h =
    let (mid, rest, e, m) = match_here_sound ts s (ground arith) in
    (String.◌∷◌ d mid, rest, ap (String.◌∷◌ d) e, one (ground arith) m)
match_here_sound (any_run ∷ ts) String.[] h =
    let (mid, rest, e, m) = match_here_sound ts String.[] h in (mid, rest, e, stop m)
match_here_sound (any_run ∷ ts) (String.◌∷◌ d s) h =
    elim (Bool-cases (match_here ts (String.◌∷◌ d s))) [
      | inl k ↦
          let (mid, rest, e, m) = match_here_sound ts (String.◌∷◌ d s) k in (mid, rest, e, stop m)
      | inr k ↦
          let (mid, rest, e, m) = match_here_sound (any_run ∷ ts) s (ground arith) in
          (String.◌∷◌ d mid, rest, ap (String.◌∷◌ d) e, take (ground arith) m)
    ]

match_here-stop :
    (ts : List Token) (s : String) → match_here ts s ≡ true → match_here (any_run ∷ ts) s ≡ true
unfolding match_here
match_here-stop ts String.[] h = h
match_here-stop ts (String.◌∷◌ d s) h = ground arith

match_here_complete :
    (rest : String) {ts : List Token} {mid : String}
    → Like ts mid
    → match_here ts (append mid rest) ≡ true
unfolding match_here
match_here_complete rest done = refl
match_here_complete rest (stop {ts} {s} m) =
    match_here-stop ts (append s rest) (match_here_complete rest m)
match_here_complete rest (take h m) = ground (arith, match_here_complete rest m)
match_here_complete rest (one h m) = ground (arith, match_here_complete rest m)
match_here_complete rest (same h m) = ground (arith, match_here_complete rest m)

-- A part of the text matches.
abbrev pub LikeInfix : List Token → String → Type 0
LikeInfix ts s =
    (before : String) × (mid : String) × (rest : String) × (s ≡ append before (append mid rest))
    × Like ts mid

match_string_sound : (ts : List Token) (s : String) → match_string ts s ≡ true → LikeInfix ts s
unfolding match_string
match_string_sound ts String.[] h =
    let (mid, rest, e, m) = match_here_sound ts String.[] h in ("", mid, rest, e, m)
match_string_sound ts (String.◌∷◌ d s) h = elim (Bool-cases (match_here ts (String.◌∷◌ d s))) [
  | inl k ↦ let (mid, rest, e, m) = match_here_sound ts (String.◌∷◌ d s) k in ("", mid, rest, e, m)
  | inr k ↦
      let (before, mid, rest, e, m) = match_string_sound ts s (ground arith) in
      (String.◌∷◌ d before, mid, rest, ap (String.◌∷◌ d) e, m)
]

match_string-here :
    (ts : List Token) (s : String) → match_here ts s ≡ true → match_string ts s ≡ true
unfolding match_string
match_string-here ts String.[] h = h
match_string-here ts (String.◌∷◌ d s) h = ground arith

match_string-append :
    (ts : List Token) (before s : String)
    → match_here ts s ≡ true
    → match_string ts (append before s) ≡ true
unfolding match_string
match_string-append ts String.[] s h = match_string-here ts s h
match_string-append ts (String.◌∷◌ d before) s h = ground (arith, match_string-append ts before s h)

pub match_string_iff : (ts : List Token) (s : String) → (match_string ts s ≡ true) ↔ LikeInfix ts s
match_string_iff ts s = (
  match_string_sound ts s,
  λ (before, mid, rest, e, m).
      rw e (match_string-append ts before (append mid rest) (match_here_complete rest m)),
)

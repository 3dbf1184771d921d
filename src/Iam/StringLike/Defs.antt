-- ===== src/Iam/StringLike/Defs.antt =====
-- `iamStringLike`.
use fakes3pp.Prelude.{String, Bool, false, none, some}
use fakes3pp.Iam.StringLike.Regex.{quote_meta, replace_wildcards, parse, match_string}

-- `iamStringLike(patternString, literalString)`: quote the pattern, put the wildcards back, and
-- match. An error of `regexp.MatchString` comes with the value false.
unfoldable pub iam_string_like : String → String → Bool
iam_string_like pattern_string literal =
    elim (parse (replace_wildcards (quote_meta pattern_string))) [
      | none ↦ false
      | some ts ↦ match_string ts literal
    ]

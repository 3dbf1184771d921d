-- ===== src/Iam/StringLike/Tests.antt =====
-- Runs of `iamStringLike`, and its theorems at concrete patterns.
use fakes3pp.Prelude.{◌≡◌, refl, true, false, ◌↔◌}
use fakes3pp.Iam.StringLike.Defs.{iam_string_like}
use fakes3pp.Iam.StringLike.Regex.{
  quote_meta, replace_wildcards, parse, match_here, match_string, is_special,
}
use fakes3pp.Iam.StringLike.Sound.{tokens, LikeInfix}
use fakes3pp.Iam.StringLike.Infix.{iam_string_like_iff}

question_mark_matches : iam_string_like "a?c" "abc" ≡ true
unfolding iam_string_like quote_meta replace_wildcards parse match_here match_string is_special
question_mark_matches = refl

dot_is_literal : iam_string_like "a.c" "abc" ≡ false
unfolding iam_string_like quote_meta replace_wildcards parse match_here match_string is_special
dot_is_literal = refl

iam_string_like_iff_example :
    (iam_string_like "s3:*Object" "s3:GetObject" ≡ true)
    ↔ LikeInfix (tokens "s3:*Object") "s3:GetObject"
iam_string_like_iff_example = iam_string_like_iff "s3:*Object" "s3:GetObject"

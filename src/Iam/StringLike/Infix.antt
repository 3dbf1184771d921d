-- ===== src/Iam/StringLike/Infix.antt =====
-- What `iamStringLike` decides.
use fakes3pp.Prelude.{String, ◌≡◌, true, ◌↔◌, ◌∙◌, ap}
use fakes3pp.Text.{append, append_assoc}
use fakes3pp.Iam.StringLike.Defs.{iam_string_like}
use fakes3pp.Iam.StringLike.Sound.{tokens, parse-expression, LikeInfix, match_string_iff}

-- `iamStringLike` holds exactly if some part of the text matches the pattern, in which `*` stands
-- for a run of any characters and `?` for one, line feeds excepted, and every other character for
-- itself, whatever it means in a regular expression.
pub iam_string_like_iff : (p l : String) → (iam_string_like p l ≡ true) ↔ LikeInfix (tokens p) l
unfolding iam_string_like
iam_string_like_iff p l = rw (parse-expression, iam_string_like) (match_string_iff (tokens p) l)

regroup :
    (before b mid rest after : String)
    → append before (append (append b (append mid rest)) after)
      ≡ append (append before b) (append mid (append rest after))
regroup before b mid rest after = simp append_assoc

-- The match is not anchored: what a pattern accepts it accepts inside any longer text too.
pub iam_string_like-append :
    (p l before after : String)
    → iam_string_like p l ≡ true
    → iam_string_like p (append before (append l after)) ≡ true
iam_string_like-append p l before after h =
    let (b, mid, rest, e, m) = (iam_string_like_iff p l).0 h in
    (iam_string_like_iff p _).1 (
      append before b,
      mid,
      append rest after,
      ap (λ (t : String). append before (append t after)) e ∙ regroup before b mid rest after,
      m,
    )

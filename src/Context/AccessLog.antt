-- ===== src/Context/AccessLog.antt =====
-- What the access log gives back of what was added to it.
use fakes3pp.Prelude.{
  String, ◌≡◌, refl, ap, ◌∙◌, Bool, false, ◌||◌, Bool-cases, inl, inr, some, [], ◌∷◌, ◌++◌, arith,
  str_eq, if◌then◌else◌,
}
use fakes3pp.Map.{lookup, lookup-insert}
use fakes3pp.Context.{
  LogAttrs, RequestCtx, or_empty, add_to, add_access_log_info, first_string,
  get_access_log_string_info,
}

-- Whether a group has an entry of a name.
abbrev pub has_entry : LogAttrs → String → Bool
has_entry [] name = false
has_entry ((key, value) ∷ attrs) name = str_eq key name || has_entry attrs name

first_string-++ :
    (old new : LogAttrs) (name : String)
    → first_string (old ++ new) name
      ≡ (if has_entry old name then first_string old name else first_string new name)
unfolding first_string
first_string-++ [] new name = refl
first_string-++ ((key, value) ∷ old) new name = ground (arith, first_string-++ old new name)

-- The entries of a group.
abbrev pub group : String → RequestCtx → LogAttrs
group name ctx = or_empty (lookup name ctx.access_log_attrs)

string_info-group :
    (g name : String) (ctx : RequestCtx)
    → get_access_log_string_info g name (some ctx) ≡ first_string (group g ctx) name
unfolding get_access_log_string_info first_string
string_info-group g name ctx = ground arith

pub group-add :
    (g h : String) (attrs : LogAttrs) (ctx : RequestCtx)
    → group h (add_to g attrs ctx) ≡ (if str_eq g h then group g ctx ++ attrs else group h ctx)
unfolding add_to
group-add g h attrs ctx =
    ap or_empty (lookup-insert g h (group g ctx ++ attrs) ctx.access_log_attrs) ∙ ground arith

-- What is added to a group of the access log is found by its name unless the group had an entry of
-- that name, which then stays the one that is found; the other groups are not changed.
pub get-add_access_log_info :
    (g h name : String) (attrs : LogAttrs) (ctx : RequestCtx)
    → get_access_log_string_info h name (add_access_log_info g attrs (some ctx)) ≡ (
        if str_eq g h
        then (if has_entry (group g ctx) name
            then get_access_log_string_info g name (some ctx)
            else first_string attrs name)
        else get_access_log_string_info h name (some ctx))
unfolding add_access_log_info
get-add_access_log_info g h name attrs ctx =
    rw
      (
        string_info-group h name (add_to g attrs ctx),
        group-add g h attrs ctx,
        string_info-group g name ctx,
        string_info-group h name ctx,
      )
      (elim (Bool-cases (str_eq g h)) [
        | inl e ↦ rw e (first_string-++ (group g ctx) attrs name)
        | inr e ↦ rw e refl
      ])

-- ===== src/S3/ResponseHeaders.antt =====
-- aws/service/s3/response_header_logger.go: headers of the response that are put into the access log.
use fakes3pp.Prelude.{
  String, ◌≡◌, refl, ap, sym, ◌∙◌, Bool-cases, inl, inr, Option, some, List, [], ◌∷◌, ◌++◌,
  append-nil, append_assoc, eq_iff, str_eq, if◌then◌else◌,
}
use fakes3pp.Request.Http.{Values, header_get}
use fakes3pp.Context.{RequestCtx, LogAttrs, kind_string, add_to, add_access_log_info}
use fakes3pp.Context.AccessLog.{group, group-add}

-- The loop over the names.
unfoldable pub log_headers : List String → Values → Option RequestCtx → Option RequestCtx
log_headers [] h ctx = ctx
log_headers (name ∷ names) h ctx =
    let value = header_get h name in
    log_headers names h (
      if str_eq value ""
      then ctx
      else add_access_log_info "s3" ((name, kind_string value) ∷ []) ctx)

-- `LogResponseHeaders`, by the headers of the response and the context that the next handler leaves.
unfoldable pub log_response_headers : List String → (Values × Option RequestCtx) → Option RequestCtx
log_response_headers headers (h, ctx) = log_headers headers h ctx

-- The attributes of the headers that the response has, in the order of the names.
unfoldable pub present : List String → Values → LogAttrs
present [] h = []
present (name ∷ names) h =
    let rest = present names h in
    if str_eq (header_get h name) "" then rest else (name, kind_string (header_get h name)) ∷ rest

after_one :
    (g name : String) (value : String) (rest : LogAttrs) (ctx : RequestCtx)
    → (if str_eq "s3" g
        then group "s3" (add_to "s3" ((name, kind_string value) ∷ []) ctx) ++ rest
        else group g (add_to "s3" ((name, kind_string value) ∷ []) ctx))
      ≡ (if str_eq "s3" g
          then group "s3" ctx ++ ((name, kind_string value) ∷ rest)
          else group g ctx)
after_one g name value rest ctx = elim (Bool-cases (str_eq "s3" g)) [
  | inl y ↦ rw y (
      ap (λ (x : LogAttrs). x ++ rest) (group-add "s3" "s3" ((name, kind_string value) ∷ []) ctx)
      ∙ append_assoc (group "s3" ctx) ((name, kind_string value) ∷ []) rest)
  | inr y ↦ rw y (group-add "s3" g ((name, kind_string value) ∷ []) ctx ∙ rw y refl)
]

nothing_logged :
    (g : String) (ctx : RequestCtx)
    → group g ctx ≡ (if str_eq "s3" g then group "s3" ctx ++ [] else group g ctx)
nothing_logged g ctx = elim (Bool-cases (str_eq "s3" g)) [
  | inl y ↦ rw y (ap (λ (x : String). group x ctx) (sym ((eq_iff "s3" g).0 y)) ∙ sym (append-nil _))
  | inr y ↦ rw y refl
]

-- Of the configured names, those that the response has are put into the group `s3` of the access log,
-- with their values and in their order; the other groups are not changed.
pub log_response_headers-group :
    (headers : List String) (h : Values) (ctx : RequestCtx) (g : String)
    → (after : RequestCtx) × (log_response_headers headers (h, some ctx) ≡ some after)
      × (group g after
          ≡ (if str_eq "s3" g then group "s3" ctx ++ present headers h else group g ctx))
unfolding log_response_headers log_headers present add_access_log_info
log_response_headers-group [] h ctx g = (ctx, refl, nothing_logged g ctx)
log_response_headers-group (name ∷ names) h ctx g =
    elim (Bool-cases (str_eq (header_get h name) "")) [
      | inl y ↦ rw y (log_response_headers-group names h ctx g)
      | inr y ↦
          let (after, e, q) =
            log_response_headers-group names h
              (add_to "s3" ((name, kind_string (header_get h name)) ∷ []) ctx) g in
          (after, rw y e, rw y (q ∙ after_one g name _ _ ctx))
    ]

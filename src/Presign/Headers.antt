-- ===== src/Presign/Headers.antt =====
-- presign/header-operations.go: the headers that are put aside while a request is signed.
use fakes3pp.Prelude.{
  String, not, ◌&&◌, ◌||◌, Option, some, List, [], ◌∷◌, ◌++◌, map, str_eq, if◌then◌else◌,
}
use fakes3pp.Text.{append, size, drop, has_prefix, split, trim_left}
use fakes3pp.Map.{Map, insert, contains}
use fakes3pp.UserError.{text, user}
use fakes3pp.Outcome.{Result, ok, fail, ◌>>=◌}
use fakes3pp.Request.Http.{
  Values, Request, canonical, header_get, header_del, header_add, query_get, query_has,
}

-- The headers of a request beside those that were put aside.
abbrev pub Aside : Type 0
Aside = Values × Map String

-- One round of the loop of `temporaryRemoveHeaders`.
abbrev pub remove_one : List String → String → Aside → Aside
remove_one headers_to_keep header_name (h, headers) =
    if contains headers_to_keep header_name
    then (h, headers)
    else (header_del h header_name, insert header_name (header_get h header_name) headers)

unfoldable pub remove_loop : Values → List String → Aside → Aside
remove_loop [] headers_to_keep s = s
remove_loop ((header_name, vs) ∷ rest) headers_to_keep s =
    remove_loop rest headers_to_keep (remove_one headers_to_keep header_name s)

-- `temporaryRemoveHeaders`: the headers that stay, and the first value of each one that does not.
unfoldable pub temporary_remove_headers : Values → List String → Aside
unfolding remove_loop
temporary_remove_headers h headers_to_keep = remove_loop h headers_to_keep (h, [])

-- The callback `reAddHeaders`.
unfoldable pub re_add_headers : Map String → Values → Values
re_add_headers [] h = h
re_add_headers ((header_name, header_val) ∷ headers) h =
    re_add_headers headers (header_add h header_name header_val)

abbrev pub always_sign_headers : List String
always_sign_headers = "X-Amz-Content-Sha256" ∷ "X-Amz-Request-Payer" ∷ "Host" ∷ "Authorization" ∷ []

abbrev signed_headers_prefix : String
signed_headers_prefix = "SignedHeaders="

abbrev invalid_structure : String → Result (List String)
invalid_structure why = fail (user "Authorization header has invalid structure" (text why))

-- The query of a presigned request.
unfoldable pub signed_headers_of_query : Values → Result (List String)
signed_headers_of_query q =
    let s = query_get q "X-Amz-SignedHeaders" in
    if query_has q "Expires" && query_has q "Signature" && query_has q "AWSAccessKeyId"
    then ok (canonical "host" ∷ [])
    else if str_eq s "host" || str_eq s "Host"
    then ok (canonical s ∷ [])
    else if str_eq s ""
    then fail (text "no authorization header nor X-Amz-SignedHeaders query value")
    else fail (
        user "Unsupported query value this is an error from the s3 proxy"
          (text (append "unsupported  X-Amz-SignedHeaders value: " s)))

abbrev named : String → List String
named part = map canonical (split (drop (size signed_headers_prefix) part) ";")

abbrev signed_part : String → String → Result (List String)
signed_part ah part =
    if not (has_prefix part signed_headers_prefix)
    then invalid_structure
        (append "signature did not have expected signed headers prefix; got: " ah)
    else ok (named part)

-- The middle one of three parts of the Authorization header.
abbrev pub of_parts : String → List String → Result (List String)
of_parts ah (credential ∷ signed ∷ signature ∷ []) = signed_part ah (trim_left signed)
of_parts ah _ = invalid_structure (append "signature not as expected; got: " ah)

-- `getSignedHeadersFromRequest`.
unfoldable pub get_signed_headers_from_request : Request → Result (List String)
get_signed_headers_from_request req =
    let ah = header_get req.header "Authorization" in
    if str_eq ah "" then signed_headers_of_query req.query else of_parts ah (split ah ",")

abbrev or_from_request : Option (List String) → Request → Result (List String)
or_from_request (some (x ∷ xs)) r = ok (x ∷ xs)
or_from_request _ r = get_signed_headers_from_request r

-- `TemporaryRemoveUntrustedHeaders`, for the signed headers that the request's context holds; that
-- it adds what it finds to the context is left out.
unfoldable pub temporary_remove_untrusted_headers : Option (List String) → Request → Result Aside
temporary_remove_untrusted_headers of_context r = do
  signed_headers ← or_from_request of_context r
  ok (temporary_remove_headers r.header (signed_headers ++ always_sign_headers))

-- ===== src/S3/Action/Path.antt =====
-- The bucket and the object of a path-style request: aws/service/s3/iam.go, with
-- `IsVirtualHostingRequest` of aws/service/s3/server.go.
use fakes3pp.Prelude.{
  String, ◌≡◌, refl, sym, ap, subst, ◌∙◌, Bool, Bool-cases, true, false, not, List, [], ◌∷◌, str_eq,
  eq_iff, if◌then◌else◌, arith, Any, ◌⊎◌, inl, inr, ◌↔◌,
}
use fakes3pp.Text.{
  append, drop, has_prefix, split, join, to_lower, lacks, split-append, split-lacks, join-split,
  split-cons, has_prefix-append,
}
use fakes3pp.UserError.{text}
use fakes3pp.Outcome.{Result, ok, fail, panic, ◌>>=◌, >>=-eq-ok, ok-eq-ok}
use fakes3pp.Request.Http.{Request}

-- `makeS3BucketArn`.
unfoldable pub make_s3_bucket_arn : String → String
make_s3_bucket_arn bucket_name = append "arn:aws:s3:::" bucket_name

-- `makeS3ObjectArn`.
unfoldable pub make_s3_object_arn : String → String → String
make_s3_object_arn bucket_name object_key =
    append (make_s3_bucket_arn bucket_name) (append "/" object_key)

-- The first element of what `strings.Split` returns, which panics where there is none.
abbrev pub first_part : List String → Result String
first_part [] = panic
first_part (x ∷ _) = ok x

abbrev is_among : String → List String → Bool
is_among host [] = false
is_among host (fqdn ∷ fqdns) = if str_eq (to_lower fqdn) host then true else is_among host fqdns

-- `IsVirtualHostingRequest`, for the names of the server.
unfoldable pub is_virtual_hosting_request : List String → Request → Result Bool
is_virtual_hosting_request fqdns req = do
  host ← first_part (split req.host ":")
  ok (not (is_among (to_lower host) fqdns))

abbrev bucket_and_key : List String → Result (String × String)
bucket_and_key [] = panic
bucket_and_key (bucket ∷ rest) = ok (bucket, join rest "/")

-- `getS3ObjectFromRequest`; the request URI in the text of the error is left out.
unfoldable pub get_s3_object_from_request : List String → Request → Result (String × String)
get_s3_object_from_request fqdns req = do
  virtual ← is_virtual_hosting_request fqdns req
  if virtual
      then fail (text "virtual hosting not supported try path-style request")
      else if not (has_prefix req.path "/")
      then fail (text "request uri did not start with '/'")
      else bucket_and_key (split (drop 1 req.path) "/")

-- `getS3BucketFromRequest`.
unfoldable pub get_s3_bucket_from_request : List String → Request → Result String
get_s3_bucket_from_request fqdns req = do
  found ← get_s3_object_from_request fqdns req
  if str_eq found.0 "" then fail (text "bucket name was empty") else ok found.0

-- A name of the server, in any case, is the host before the port.
abbrev pub IsPathStyle : List String → String → Type 0
IsPathStyle fqdns host = Any (λ fqdn. to_lower fqdn ≡ to_lower host) fqdns

is_among_iff :
    (host : String) (fqdns : List String)
    → (is_among (to_lower host) fqdns ≡ true) ↔ IsPathStyle fqdns host
is_among_iff host [] = grind arith
is_among_iff host (fqdn ∷ fqdns) =
    grind (arith, is_among_iff host fqdns, eq_iff (to_lower fqdn) (to_lower host))

bucket_and_key-path :
    (bucket key : String)
    → (lacks b'/' bucket ≡ true)
    → bucket_and_key (split (append bucket (append "/" key)) "/") ≡ ok (bucket, key)
bucket_and_key-path bucket key h =
    ap bucket_and_key (split-append "/" bucket key h)
    ∙ ap (λ (k : String). ok (bucket, k)) (join-split "/" key)

-- The header Host, with or without a port.
abbrev pub IsHost : String → String → Type 0
IsHost full host = (full ≡ host) ⊎ ((port : String) × (full ≡ append host (append ":" port)))

host_part :
    (full host : String)
    → IsHost full host
    → (lacks b':' host ≡ true)
    → first_part (split full ":") ≡ ok host
host_part full host (inl e) h =
    ap (λ (r : String). first_part (split r ":")) e ∙ ap first_part (split-lacks ":" host h)
host_part full host (inr (port, e)) h =
    ap (λ (r : String). first_part (split r ":")) e ∙ ap first_part (split-append ":" host port h)

path_style :
    (fqdns : List String) (req : Request) (host : String)
    → IsHost req.host host
    → (lacks b':' host ≡ true)
    → IsPathStyle fqdns host
    → is_virtual_hosting_request fqdns req ≡ ok false
unfolding is_virtual_hosting_request
path_style fqdns req host e h p =
    ap (λ (r : Result String). r >>= (λ (s : String). ok (not (is_among (to_lower s) fqdns))))
      (host_part req.host host e h)
    ∙ ap (λ (b : Bool). ok (not b)) ((is_among_iff host fqdns).1 p)

-- A path `/bucket/key` on a name of the server, in any case and with or without a port, names the bucket and the key, slashes in the key
-- included, when the bucket holds no slash.
pub get_s3_object_from_request-path :
    (fqdns : List String) (req : Request) (host bucket key : String)
    → IsHost req.host host
    → (lacks b':' host ≡ true)
    → IsPathStyle fqdns host
    → (req.path ≡ append "/" (append bucket (append "/" key)))
    → (lacks b'/' bucket ≡ true)
    → get_s3_object_from_request fqdns req ≡ ok (bucket, key)
unfolding get_s3_object_from_request has_prefix
get_s3_object_from_request-path fqdns req host bucket key e h p f b =
    rw (path_style fqdns req host e h p, f) (bucket_and_key-path bucket key b)

-- The paths that name this bucket and this key.
abbrev pub IsPathOf : String → String → String → Type 0
IsPathOf path bucket key =
    (path ≡ append "/" (append bucket (append "/" key))) ⊎ ((path ≡ append "/" bucket) × (key ≡ ""))

parts-IsPathOf :
    (rest bucket key x : String) (xs : List String)
    → join (x ∷ xs) "/" ≡ rest
    → bucket_and_key (x ∷ xs) ≡ ok (bucket, key)
    → IsPathOf (append "/" rest) bucket key
unfolding join
parts-IsPathOf rest bucket key x [] j h =
    let e = ok-eq-ok (x, "") (bucket, key) h in
    inr (
      ap (append "/") (sym j ∙ ap (λ (q : String × String). q.0) e),
      sym (ap (λ (q : String × String). q.1) e),
    )
parts-IsPathOf rest bucket key x (y ∷ ys) j h =
    let e = ok-eq-ok (x, join (y ∷ ys) "/") (bucket, key) h in
    inl (ap (append "/") (sym j ∙ ap (λ (q : String × String). append q.0 (append "/" q.1)) e))

bucket_and_key-IsPathOf :
    (rest bucket key : String)
    → bucket_and_key (split rest "/") ≡ ok (bucket, key)
    → IsPathOf (append "/" rest) bucket key
bucket_and_key-IsPathOf rest bucket key h =
    let (x, xs, e) = split-cons rest "/" in
    parts-IsPathOf rest bucket key x xs
      (ap (λ (l : List String). join l "/") (sym e) ∙ join-split "/" rest)
      (ap bucket_and_key (sym e) ∙ h)

slash-IsPathOf :
    (path bucket key : String)
    → has_prefix path "/" ≡ true
    → bucket_and_key (split (drop 1 path) "/") ≡ ok (bucket, key)
    → IsPathOf path bucket key
slash-IsPathOf path bucket key p h =
    let (rest, e) = has_prefix-append path "/" p in
    subst (λ (t : String). IsPathOf t bucket key) (sym e)
      (bucket_and_key-IsPathOf rest bucket key
        (ap (λ (t : String). bucket_and_key (split (drop 1 t) "/")) (sym e) ∙ h))

abbrev on_path : Bool → String → Result (String × String)
on_path virtual path =
    if virtual
    then fail (text "virtual hosting not supported try path-style request")
    else if not (has_prefix path "/")
    then fail (text "request uri did not start with '/'")
    else bucket_and_key (split (drop 1 path) "/")

on_path-ok :
    (virtual : Bool) (path bucket key : String)
    → on_path virtual path ≡ ok (bucket, key)
    → (virtual ≡ false) × IsPathOf path bucket key
on_path-ok true path bucket key h = absurd (cc)
on_path-ok false path bucket key h = elim (Bool-cases (has_prefix path "/")) [
  | inl p ↦ (refl, slash-IsPathOf path bucket key p (sym (rw p refl) ∙ h))
  | inr p ↦ absurd (ground arith)
]

-- A request whose bucket and key are read was not for a virtual host, and its path is made of them.
pub get_s3_object_from_request-ok :
    (fqdns : List String) (req : Request) (bucket key : String)
    → get_s3_object_from_request fqdns req ≡ ok (bucket, key)
    → (is_virtual_hosting_request fqdns req ≡ ok false) × IsPathOf req.path bucket key
unfolding get_s3_object_from_request
get_s3_object_from_request-ok fqdns req bucket key h =
    let (virtual, e, g) =
      >>=-eq-ok (is_virtual_hosting_request fqdns req) (λ b. on_path b req.path) h in
    let (v, p) = on_path-ok virtual req.path bucket key g in (e ∙ ap ok v, p)

-- ===== src/S3/Routing.antt =====
-- aws/service/s3/mwregisteroperation.go: the operation of a request, by the routes of the package mux,
-- which takes the first one that matches. That every path starts with a slash, the prefix of all
-- routes, is taken for granted.
use fakes3pp.Prelude.{
  String, ◌≡◌, refl, ap, ◌∙◌, All, ◌⊎◌, inl, inr, Bool, true, false, ◌&&◌, Bool-cases, Option, none,
  some, List, [], ◌∷◌, str_eq, eq_iff, if◌then◌else◌,
}
use fakes3pp.Map.{some-eq-some}
use fakes3pp.Request.Http.{Request}
use fakes3pp.S3.Action.Required.{
  S3Operation, unknown_operation, list_objects_v2, get_object, list_buckets, head_bucket,
  head_object, put_object, create_multipart_upload, complete_multipart_upload,
  abort_multipart_upload, upload_part,
}
use fakes3pp.S3.Authorize.Middleware.{skips_verification}

-- The package mux: whether a path, or templates for values of the query, match a request.
pub record Mux : Type 0 where
  pub matches_path : String → Request → Bool
  pub matches_queries : List (String × String) → Request → Bool

-- A route: `Methods`, `Path` if it is called, and `Queries`.
pub record Route : Type 0 where
  pub method : String
  pub path : Option String
  pub queries : List (String × String)
  pub operation : S3Operation

abbrev route : String → Option String → List (String × String) → S3Operation → Route
route method path queries operation = record {
  method = method;
  path = path;
  queries = queries;
  operation = operation;
}

-- The routes of `RegisterOperation`, in their order.
abbrev pub routes : List Route
routes =
    route "GET" none (("list-type", "2") ∷ []) list_objects_v2
    ∷ route "GET" (some "/") [] list_buckets
    ∷ route "GET" none [] get_object
    ∷ route "HEAD" (some "/") [] head_bucket
    ∷ route "HEAD" none [] head_object
    ∷ route "PUT" none (("partNumber", "{pn:.*}") ∷ ("uploadId", "{ui:.*}") ∷ []) upload_part
    ∷ route "PUT" none [] put_object
    ∷ route "POST" none (("uploads", "") ∷ []) create_multipart_upload
    ∷ route "POST" none (("uploadId", "{id:.*}") ∷ []) complete_multipart_upload
    ∷ route "DELETE" none (("uploadId", "{id:.*}") ∷ []) abort_multipart_upload
    ∷ []

module _ (M : Mux) where
  open M use {matches_path, matches_queries}

  abbrev on_path : Option String → Request → Bool
  on_path none r = true
  on_path (some path) r = matches_path path r

  abbrev on_queries : List (String × String) → Request → Bool
  on_queries [] r = true
  on_queries (q ∷ queries) r = matches_queries (q ∷ queries) r

  abbrev matches : Route → Request → Bool
  matches x r = str_eq r.method x.method && (on_path x.path r && on_queries x.queries r)

  -- The first route that matches.
  unfoldable pub first_match : List Route → Request → Option S3Operation
  first_match [] r = none
  first_match (x ∷ xs) r = if matches x r then some x.operation else first_match xs r

  -- `RegisterOperation`: the operation that is set, if any.
  unfoldable pub register_operation : Request → Option S3Operation
  register_operation r = first_match routes r

  -- Some route with this operation matches.
  abbrev HasRoute : S3Operation → Request → List Route → Type 0
  HasRoute op r [] = ⊥
  HasRoute op r (x ∷ xs) = ((x.operation ≡ op) × (matches x r ≡ true)) ⊎ HasRoute op r xs

  first_match-HasRoute :
      (xs : List Route) (r : Request) (op : S3Operation)
      → first_match xs r ≡ some op
      → HasRoute op r xs
  unfolding first_match
  first_match-HasRoute [] r op e = absurd (cc)
  first_match-HasRoute (x ∷ xs) r op e = elim (Bool-cases (matches x r)) [
    | inl y ↦ inl (some-eq-some x.operation op (rw y at e), y)
    | inr y ↦ inr (first_match-HasRoute xs r op (rw y at e))
  ]

  -- The method of an operation's requests.
  abbrev pub method_of : S3Operation → String
  method_of list_objects_v2 = "GET"
  method_of get_object = "GET"
  method_of list_buckets = "GET"
  method_of head_bucket = "HEAD"
  method_of head_object = "HEAD"
  method_of put_object = "PUT"
  method_of upload_part = "PUT"
  method_of create_multipart_upload = "POST"
  method_of complete_multipart_upload = "POST"
  method_of abort_multipart_upload = "DELETE"
  method_of unknown_operation = ""

  first_true : (a b : Bool) → (a && b) ≡ true → a ≡ true
  first_true true b h = refl
  first_true false b h = absurd (cc)

  HasRoute-method :
      (xs : List Route) (r : Request) (op : S3Operation)
      → All (λ (x : Route). x.method ≡ method_of x.operation) xs
      → HasRoute op r xs
      → r.method ≡ method_of op
  HasRoute-method [] r op a h = absurd h
  HasRoute-method (x ∷ xs) r op (m, a) (inl (o, y)) =
      (eq_iff r.method x.method).0 (first_true _ _ y) ∙ m ∙ ap method_of o
  HasRoute-method (x ∷ xs) r op (m, a) (inr h) = HasRoute-method xs r op a h

  routes_have_methods : All (λ (x : Route). x.method ≡ method_of x.operation) routes
  routes_have_methods =
      (refl, (refl, (refl, (refl, (refl, (refl, (refl, (refl, (refl, (refl, tt))))))))))

  only_reads :
      (op : S3Operation) (method : String)
      → method ≡ method_of op
      → (skips_verification op ≡ false) ⊎ ((method ≡ "GET") ⊎ (method ≡ "HEAD"))
  only_reads get_object method e = inr (inl e)
  only_reads head_object method e = inr (inr e)
  only_reads list_objects_v2 method e = inl refl
  only_reads list_buckets method e = inl refl
  only_reads head_bucket method e = inl refl
  only_reads put_object method e = inl refl
  only_reads upload_part method e = inl refl
  only_reads create_multipart_upload method e = inl refl
  only_reads complete_multipart_upload method e = inl refl
  only_reads abort_multipart_upload method e = inl refl
  only_reads unknown_operation method e = inl refl

  -- A request that is given an operation has the method of that operation's requests: so only requests
  -- that read, by GET or HEAD, have an operation for which the authorization does not verify the token.
  pub register_operation-method :
      (r : Request) (op : S3Operation)
      → register_operation r ≡ some op
      → (r.method ≡ method_of op)
        × ((skips_verification op ≡ false) ⊎ ((r.method ≡ "GET") ⊎ (r.method ≡ "HEAD")))
  unfolding register_operation
  register_operation-method r op e =
      let m =
        HasRoute-method routes r op routes_have_methods (first_match-HasRoute routes r op e) in
      (m, only_reads op r.method m)

-- ===== src/S3/Action/Required.antt =====
-- `newIamActionsFromS3Request` of aws/service/s3/iam.go: what a request has to be granted.
-- The access log entry that the code adds on its way out is not modelled.
use fakes3pp.Prelude.{String, ◌≡◌, refl, sym, true, Option, some, List, [], ◌∷◌}
use fakes3pp.Text.{append, append_assoc}
use fakes3pp.Map.{lookup, lookup-insert_self}
use fakes3pp.UserError.{text}
use fakes3pp.Outcome.{Result, ok, fail, ◌>>=◌, >>=-eq-ok, ok-eq-ok}
use fakes3pp.Iam.Policy.Types.{ConditionValues, IamAction}
use fakes3pp.Iam.Policy.Action.{PolicySessionData, new_iam_action, add_context, add_entries}
use fakes3pp.Request.Http.{Values, Request, query_get}
use fakes3pp.S3.Action.Path.{
  make_s3_bucket_arn, make_s3_object_arn, is_virtual_hosting_request, get_s3_object_from_request,
  IsPathOf, get_s3_object_from_request-ok,
}

-- `S3Operation`.
pub data S3Operation : Type 0 where
  unknown_operation list_objects_v2 get_object list_buckets head_bucket head_object : S3Operation
  put_object create_multipart_upload complete_multipart_upload : S3Operation
  abort_multipart_upload upload_part : S3Operation

module _ (C : ConditionValues) where
  open C use {new_string}

  abbrev object_actions :
      String → List String → Request → Option PolicySessionData → Result (List (IamAction C))
  object_actions action fqdns req session = do
    found ← get_s3_object_from_request fqdns req
    ok (new_iam_action C action (make_s3_object_arn found.0 found.1) session ∷ [])

  -- The action of a listing.
  abbrev listing : String → Request → Option PolicySessionData → IamAction C
  listing bucket req session =
      add_context C (new_iam_action C "s3:ListBucket" (make_s3_bucket_arn bucket) session)
        (("s3:prefix", new_string true (query_get req.query "prefix" ∷ [])) ∷ [])

  abbrev list_actions :
      List String → Request → Option PolicySessionData → Result (List (IamAction C))
  list_actions fqdns req session = do
    found ← get_s3_object_from_request fqdns req
    ok (listing found.0 req session ∷ [])

  -- `newIamActionsFromS3Request`.
  unfoldable pub new_iam_actions_from_s3_request :
      S3Operation → List String → Request → Option PolicySessionData → Result (List (IamAction C))
  new_iam_actions_from_s3_request put_object fqdns req s = object_actions "s3:PutObject" fqdns req s
  new_iam_actions_from_s3_request create_multipart_upload fqdns req s =
      object_actions "s3:PutObject" fqdns req s
  new_iam_actions_from_s3_request complete_multipart_upload fqdns req s =
      object_actions "s3:PutObject" fqdns req s
  new_iam_actions_from_s3_request upload_part fqdns req s =
      object_actions "s3:PutObject" fqdns req s
  new_iam_actions_from_s3_request get_object fqdns req s = object_actions "s3:GetObject" fqdns req s
  new_iam_actions_from_s3_request head_object fqdns req s =
      object_actions "s3:GetObject" fqdns req s
  new_iam_actions_from_s3_request list_objects_v2 fqdns req s = list_actions fqdns req s
  new_iam_actions_from_s3_request abort_multipart_upload fqdns req s =
      object_actions "s3:AbortMultipartUpload" fqdns req s
  new_iam_actions_from_s3_request list_buckets fqdns req s =
      ok (new_iam_action C "s3:ListAllMyBuckets" "*" s ∷ [])
  new_iam_actions_from_s3_request unknown_operation fqdns req s =
      fail (text "cannot get IAM actions due to unsupported api action")
  new_iam_actions_from_s3_request head_bucket fqdns req s =
      fail (text "cannot get IAM actions due to unsupported api action")

  -- The resource and the context of the one action that an operation needs.
  abbrev pub OnObject : String → Request → IamAction C → Type 0
  OnObject action req a =
      (bucket : String) × (key : String) × IsPathOf req.path bucket key
      × (a.action ≡ action)
      × (a.resource ≡ append "arn:aws:s3:::" (append bucket (append "/" key)))

  abbrev pub OnBucket : Request → IamAction C → Type 0
  OnBucket req a =
      (bucket : String) × (key : String) × IsPathOf req.path bucket key
      × (a.action ≡ "s3:ListBucket")
      × (a.resource ≡ append "arn:aws:s3:::" bucket)
      × (lookup "s3:prefix" a.context ≡ some (new_string true (query_get req.query "prefix" ∷ [])))

  abbrev pub Needs : S3Operation → Request → IamAction C → Type 0
  Needs put_object req a = OnObject "s3:PutObject" req a
  Needs create_multipart_upload req a = OnObject "s3:PutObject" req a
  Needs complete_multipart_upload req a = OnObject "s3:PutObject" req a
  Needs upload_part req a = OnObject "s3:PutObject" req a
  Needs get_object req a = OnObject "s3:GetObject" req a
  Needs head_object req a = OnObject "s3:GetObject" req a
  Needs abort_multipart_upload req a = OnObject "s3:AbortMultipartUpload" req a
  Needs list_objects_v2 req a = OnBucket req a
  Needs list_buckets req a = (a.action ≡ "s3:ListAllMyBuckets") × (a.resource ≡ "*")
  Needs unknown_operation req a = ⊥
  Needs head_bucket req a = ⊥

  abbrev pub IsOneOf : (IamAction C → Type 0) → List (IamAction C) → Type 0
  IsOneOf P actions = (a : IamAction C) × (actions ≡ a ∷ []) × P a

  object_actions-OnObject :
      (action : String) (fqdns : List String) (req : Request) (s : Option PolicySessionData)
      (actions : List (IamAction C))
      → object_actions action fqdns req s ≡ ok actions
      → IsOneOf (OnObject action req) actions
  unfolding new_iam_action make_s3_object_arn make_s3_bucket_arn
  object_actions-OnObject action fqdns req s actions h =
      let ((bucket, key), e, g) =
        >>=-eq-ok (get_s3_object_from_request fqdns req)
          (λ found. ok (new_iam_action C action (make_s3_object_arn found.0 found.1) s ∷ [])) h in
      (
        new_iam_action C action (make_s3_object_arn bucket key) s,
        sym (ok-eq-ok _ _ g),
        (
          bucket,
          key,
          (get_s3_object_from_request-ok fqdns req bucket key e).1,
          refl,
          append_assoc "arn:aws:s3:::" bucket (append "/" key),
        ),
      )

  list_actions-OnBucket :
      (fqdns : List String) (req : Request) (s : Option PolicySessionData)
      (actions : List (IamAction C))
      → list_actions fqdns req s ≡ ok actions
      → IsOneOf (OnBucket req) actions
  unfolding new_iam_action make_s3_bucket_arn add_context add_entries
  list_actions-OnBucket fqdns req s actions h =
      let ((bucket, key), e, g) =
        >>=-eq-ok (get_s3_object_from_request fqdns req) (λ found. ok (listing found.0 req s ∷ []))
          h in
      (
        listing bucket req s,
        sym (ok-eq-ok _ _ g),
        (
          bucket,
          key,
          (get_s3_object_from_request-ok fqdns req bucket key e).1,
          refl,
          refl,
          lookup-insert_self "s3:prefix" _ _,
        ),
      )

  -- The actions that the code asks for are one action, on the bucket and the key that the path names
  -- or, to list all buckets, on `*`; the code gives none for an operation that it does not support.
  pub new_iam_actions_from_s3_request-Needs :
      (op : S3Operation) (fqdns : List String) (req : Request) (s : Option PolicySessionData)
      (actions : List (IamAction C))
      → new_iam_actions_from_s3_request op fqdns req s ≡ ok actions
      → IsOneOf (Needs op req) actions
  unfolding new_iam_actions_from_s3_request new_iam_action
  new_iam_actions_from_s3_request-Needs put_object fqdns req s actions h =
      object_actions-OnObject _ fqdns req s actions h
  new_iam_actions_from_s3_request-Needs create_multipart_upload fqdns req s actions h =
      object_actions-OnObject _ fqdns req s actions h
  new_iam_actions_from_s3_request-Needs complete_multipart_upload fqdns req s actions h =
      object_actions-OnObject _ fqdns req s actions h
  new_iam_actions_from_s3_request-Needs upload_part fqdns req s actions h =
      object_actions-OnObject _ fqdns req s actions h
  new_iam_actions_from_s3_request-Needs get_object fqdns req s actions h =
      object_actions-OnObject _ fqdns req s actions h
  new_iam_actions_from_s3_request-Needs head_object fqdns req s actions h =
      object_actions-OnObject _ fqdns req s actions h
  new_iam_actions_from_s3_request-Needs abort_multipart_upload fqdns req s actions h =
      object_actions-OnObject _ fqdns req s actions h
  new_iam_actions_from_s3_request-Needs list_objects_v2 fqdns req s actions h =
      list_actions-OnBucket fqdns req s actions h
  new_iam_actions_from_s3_request-Needs list_buckets fqdns req s actions h =
      (new_iam_action C "s3:ListAllMyBuckets" "*" s, sym (ok-eq-ok _ _ h), (refl, refl))
  new_iam_actions_from_s3_request-Needs unknown_operation fqdns req s actions h = absurd (cc)
  new_iam_actions_from_s3_request-Needs head_bucket fqdns req s actions h = absurd (cc)

  -- What a request has to be granted does not depend on its headers: a source that they name, to copy
  -- from, takes no part in it.
  pub new_iam_actions_from_s3_request-header :
      (op : S3Operation) (fqdns : List String) (req : Request) (s : Option PolicySessionData)
      (h : Values)
      → new_iam_actions_from_s3_request op fqdns (record req { header = h }) s
        ≡ new_iam_actions_from_s3_request op fqdns req s
  unfolding new_iam_actions_from_s3_request get_s3_object_from_request is_virtual_hosting_request
  new_iam_actions_from_s3_request-header put_object fqdns req s h = refl
  new_iam_actions_from_s3_request-header create_multipart_upload fqdns req s h = refl
  new_iam_actions_from_s3_request-header complete_multipart_upload fqdns req s h = refl
  new_iam_actions_from_s3_request-header upload_part fqdns req s h = refl
  new_iam_actions_from_s3_request-header get_object fqdns req s h = refl
  new_iam_actions_from_s3_request-header head_object fqdns req s h = refl
  new_iam_actions_from_s3_request-header list_objects_v2 fqdns req s h = refl
  new_iam_actions_from_s3_request-header abort_multipart_upload fqdns req s h = refl
  new_iam_actions_from_s3_request-header list_buckets fqdns req s h = refl
  new_iam_actions_from_s3_request-header unknown_operation fqdns req s h = refl
  new_iam_actions_from_s3_request-header head_bucket fqdns req s h = refl

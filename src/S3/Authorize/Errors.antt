-- ===== src/S3/Authorize/Errors.antt =====
-- aws/service/s3/s3-errors.go: the errors of S3 and the message that is sent for each.
use fakes3pp.Prelude.{
  ℕ, Char, String, ◌≡◌, refl, ◌⊎◌, inl, inr, Bool, Option, none, some, if◌then◌else◌,
}
use fakes3pp.UserError.{Error, text, wrapped, user, user_only, message, get}
use fakes3pp.UserError.Flat.{redact}

-- `AWSErrorCode` of aws/service, as far as `awsToS3ErrorCode` names them.
pub data AwsErrorCode : Type 0 where
  err_aws_access_denied err_aws_internal_error err_aws_invalid_signature : AwsErrorCode
  err_invalid_access_key_id err_authorization_header_malformed other_code : AwsErrorCode

-- `S3ErrorCode`.
pub data S3ErrorCode : Type 0 where
  err_s3_none err_s3_access_denied err_s3_internal_error err_s3_upstream_error : S3ErrorCode
  err_s3_invalid_access_key_id err_s3_invalid_signature err_s3_invalid_security : S3ErrorCode
  err_s3_invalid_region err_s3_authorization_header_malformed : S3ErrorCode

-- `toS3ErrorCode`, through the map `awsToS3ErrorCode`.
unfoldable pub to_s3_error_code : AwsErrorCode → S3ErrorCode
to_s3_error_code err_aws_access_denied = err_s3_access_denied
to_s3_error_code err_aws_internal_error = err_s3_internal_error
to_s3_error_code err_aws_invalid_signature = err_s3_invalid_signature
to_s3_error_code err_invalid_access_key_id = err_s3_invalid_access_key_id
to_s3_error_code err_authorization_header_malformed = err_s3_authorization_header_malformed
to_s3_error_code other_code = err_s3_internal_error

-- `S3Error`.
pub record S3Error : Type 0 where
  pub code : String
  pub description : String
  pub http_status_code : ℕ

abbrev s3_error : String → String → ℕ → S3Error
s3_error c d n = record { code = c; description = d; http_status_code = n }

-- `s3ErrCodes.ToS3Err`, the map `s3ErrCodes` included.
unfoldable pub to_s3_err : S3ErrorCode → S3Error
to_s3_err err_s3_access_denied = s3_error "AccessDenied" "Access Denied" 403
to_s3_err err_s3_upstream_error =
    s3_error "InternalError"
      "An upstream service required for this operation failed - please try again or contact an administrator."
      500
to_s3_err err_s3_internal_error =
    s3_error "InternalError" "We encountered an internal error, please try again." 500
to_s3_err err_s3_invalid_access_key_id =
    s3_error "InvalidAccessKeyId"
      "The AWS Access Key Id you provided does not exist in our records." 403
to_s3_err err_s3_invalid_signature =
    s3_error "InvalidSignature"
      "The request signature that the server calculated does not match the signature that you provided. Check your AWS secret access key and signing method. For more information, see Signing and authenticating REST requests."
      400
to_s3_err err_s3_invalid_security =
    s3_error "InvalidSecurity" "The provided security credentials are not valid." 403
to_s3_err err_s3_invalid_region = s3_error "InvalidRegion" "The provided region is not valid." 400
to_s3_err err_s3_authorization_header_malformed =
    s3_error "AuthorizationHeaderMalformed"
      "The authorization header that you provided is not valid." 400
to_s3_err err_s3_none =
    s3_error "InternalError" "We encountered an internal error, please try again." 500

-- Go's package `unicode`, as far as it is used.
pub record Unicode : Type 0 where
  pub is_letter : Char → Bool
  pub to_upper : Char → Char

-- `CapitalizeFirstLetter` of utils/string.go.
unfoldable pub capitalize_first_letter : Unicode → String → String
capitalize_first_letter u String.[] = ""
capitalize_first_letter u (String.◌∷◌ c s) =
    if u.is_letter c then String.◌∷◌ (u.to_upper c) s else String.◌∷◌ c s

-- The answer that `writeS3ErrorResponse` sends: the status and the fields of `S3ErrorResponse`.
pub record S3ErrorResponse : Type 0 where
  pub status : ℕ
  pub code : String
  pub response_message : String
  pub request_id : String

abbrev described : Unicode → String → Option Error → String
described u description none = description
described u description (some user_facing) = capitalize_first_letter u (message user_facing)

-- `writeS3ErrorResponse`: what is logged and how it is encoded are left out.
unfoldable pub write_s3_error_response :
    Unicode → String → S3ErrorCode → Option Error → S3ErrorResponse
write_s3_error_response u request_id err_code err =
    let s3_err = to_s3_err err_code in
    record {
      status = s3_err.http_status_code;
      code = s3_err.code;
      response_message = described u s3_err.description (get err);
      request_id = request_id;
    }

-- Nothing in the internal messages of an error reaches the client: the answer is the same whatever
-- they are replaced by.
pub write_s3_error_response-redact :
    (u : Unicode) (request_id : String) (c : S3ErrorCode) (f : String → String) (e : Error)
    → write_s3_error_response u request_id c (some (redact f e))
      ≡ write_s3_error_response u request_id c (some e)
unfolding write_s3_error_response get redact message
write_s3_error_response-redact u i c f (text m) = refl
write_s3_error_response-redact u i c f (wrapped m e) = write_s3_error_response-redact u i c f e
write_s3_error_response-redact u i c f (user m e) = refl
write_s3_error_response-redact u i c f (user_only m) = refl

-- An error code of the shared packages is answered with the S3 error of its name: the status is a
-- client's error, or 500 with the code InternalError.
pub to_s3_err_status :
    (c : S3ErrorCode)
    → ((to_s3_err c).http_status_code ≡ 403)
      ⊎ ((to_s3_err c).http_status_code ≡ 400)
      ⊎ (((to_s3_err c).http_status_code ≡ 500) × ((to_s3_err c).code ≡ "InternalError"))
unfolding to_s3_err
to_s3_err_status err_s3_access_denied = inl refl
to_s3_err_status err_s3_upstream_error = inr (inr (refl, refl))
to_s3_err_status err_s3_internal_error = inr (inr (refl, refl))
to_s3_err_status err_s3_invalid_access_key_id = inl refl
to_s3_err_status err_s3_invalid_signature = inr (inl refl)
to_s3_err_status err_s3_invalid_security = inl refl
to_s3_err_status err_s3_invalid_region = inr (inl refl)
to_s3_err_status err_s3_authorization_header_malformed = inr (inl refl)
to_s3_err_status err_s3_none = inr (inr (refl, refl))

-- ===== src/Sts/Errors.antt =====
-- aws/service/sts/sts-errors.go: the errors of the STS and the answers that are sent for them.
use fakes3pp.Prelude.{ℕ, String, Option, none, some}
use fakes3pp.UserError.{Error, message}

-- `STSErrorCode`.
pub data StsErrorCode : Type 0 where
  err_sts_none err_sts_access_denied err_sts_missing_parameter : StsErrorCode
  err_sts_invalid_parameter_value err_sts_web_identity_expired_token : StsErrorCode
  err_sts_client_grants_expired_token err_sts_invalid_client_grants_token : StsErrorCode
  err_sts_malformed_policy_document err_sts_insecure_connection : StsErrorCode
  err_sts_invalid_client_certificate err_sts_not_initialized err_sts_iam_not_initialized :
      StsErrorCode
  err_sts_upstream_error err_sts_internal_error : StsErrorCode

-- `STSError`.
pub record StsError : Type 0 where
  pub code : String
  pub description : String
  pub http_status_code : ℕ

abbrev sts_error : String → ℕ → String → StsError
sts_error c n d = record { code = c; description = d; http_status_code = n }

-- `stsErrCodes.ToSTSErr`, the map `stsErrCodes` included.
unfoldable pub to_sts_err : StsErrorCode → StsError
to_sts_err err_sts_access_denied =
    sts_error "AccessDenied" 403 "Generating temporary credentials not allowed for this request."
to_sts_err err_sts_missing_parameter =
    sts_error "MissingParameter" 400
      "A required parameter for the specified action is not supplied."
to_sts_err err_sts_invalid_parameter_value =
    sts_error "InvalidParameterValue" 400
      "An invalid or out-of-range value was supplied for the input parameter."
to_sts_err err_sts_web_identity_expired_token =
    sts_error "ExpiredToken" 400
      "The web identity token that was passed is expired or is not valid. Get a new identity token from the identity provider and then retry the request."
to_sts_err err_sts_client_grants_expired_token =
    sts_error "ExpiredToken" 400
      "The client grants that was passed is expired or is not valid. Get a new client grants token from the identity provider and then retry the request."
to_sts_err err_sts_invalid_client_grants_token =
    sts_error "InvalidClientGrantsToken" 400
      "The client grants token that was passed could not be validated by MinIO."
to_sts_err err_sts_malformed_policy_document =
    sts_error "MalformedPolicyDocument" 400
      "The request was rejected because the policy document was malformed."
to_sts_err err_sts_insecure_connection =
    sts_error "InsecureConnection" 400
      "The request was made over a plain HTTP connection. A TLS connection is required."
to_sts_err err_sts_invalid_client_certificate =
    sts_error "InvalidClientCertificate" 400
      "The provided client certificate is invalid. Retry with a different certificate."
to_sts_err err_sts_not_initialized =
    sts_error "STSNotInitialized" 503 "STS API not initialized, please try again."
to_sts_err err_sts_iam_not_initialized =
    sts_error "STSIAMNotInitialized" 503 "STS IAM not initialized, please try again."
to_sts_err err_sts_upstream_error =
    sts_error "InternalError" 500
      "An upstream service required for this operation failed - please try again or contact an administrator."
to_sts_err err_sts_internal_error =
    sts_error "InternalError" 500
      "We encountered an internal error generating credentials, please try again."
to_sts_err err_sts_none =
    sts_error "InternalError" 500
      "We encountered an internal error generating credentials, please try again."

-- The status and the fields of `STSErrorResponse` that are set.
pub record StsErrorResponse : Type 0 where
  pub status : ℕ
  pub code : String
  pub response_message : String
  pub request_id : String

abbrev sent : String → Option Error → String
sent description none = description
sent description (some e) = message e

-- `writeSTSErrorResponse`: what is logged and how it is encoded are left out.
unfoldable pub write_sts_error_response : String → StsErrorCode → Option Error → StsErrorResponse
write_sts_error_response request_id err_code err =
    let sts_err = to_sts_err err_code in
    record {
      status = sts_err.http_status_code;
      code = sts_err.code;
      response_message = sent sts_err.description err;
      request_id = request_id;
    }

-- ===== src/Context/Tests.antt =====
-- The access log at a concrete record.
use fakes3pp.Prelude.{◌≡◌, some, [], ◌∷◌}
use fakes3pp.S3.Samples.{get_k}
use fakes3pp.Context.{
  RequestCtx, kind_string, add_to, new_context_from_http_request, add_access_log_info,
  get_access_log_string_info,
}
use fakes3pp.Context.AccessLog.{get-add_access_log_info}

abbrev logged : RequestCtx
logged = add_to "s3" (("AKID", kind_string "AK") ∷ []) (new_context_from_http_request "id" get_k)

first_entry_stays :
    get_access_log_string_info "s3" "AKID" (
      add_access_log_info "s3"
        (("AKID", kind_string "BK") ∷ ("TargetRegion", kind_string "eu") ∷ [])
        (some logged))
    ≡ "AK"
unfolding get_access_log_string_info add_access_log_info add_to new_context_from_http_request
    fakes3pp.Map.lookup fakes3pp.Map.insert fakes3pp.Context.first_string
first_entry_stays =
    get-add_access_log_info "s3" "s3" "AKID"
      (("AKID", kind_string "BK") ∷ ("TargetRegion", kind_string "eu") ∷ []) logged

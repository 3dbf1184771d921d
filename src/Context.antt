-- ===== src/Context.antt =====
-- requestctx/requestctx.go: what is kept about a request while it is handled. A context that holds no
-- such record is none: what is set there is lost. Warnings that a value is overridden, and the
-- fields that are copied from the request for the access log alone, are left out.
use fakes3pp.Prelude.{
  ℕ, Char, code, String, Bool, true, false, not, ◌&&◌, ◌||◌, Option, none, some, List, [], ◌∷◌,
  ◌++◌, ◌==◌, str_eq, if◌then◌else◌,
}
use fakes3pp.Text.{size, drop, to_upper}
use fakes3pp.Map.{Map, lookup, insert}
use fakes3pp.UserError.{text}
use fakes3pp.Outcome.{Result, ok, fail}
use fakes3pp.Request.Http.{Request, header_get, query_get}
use fakes3pp.S3.Action.Required.{S3Operation}
pub mod AccessLog
mod Tests

-- `AuthType` of requestctx/authtypes/types.go.
pub data AuthType : Type 0 where
  auth_type_unknown auth_type_none auth_type_query_string auth_type_auth_header : AuthType

-- `slog.Value`: a text, or a value of another kind.
pub data Value : Type 0 where
  kind_string : String → Value
  other_kind : Value

-- `LogAttrs`: the name and the value of each attribute.
abbrev pub LogAttrs : Type 0
LogAttrs = List (String × Value)

-- `RequestCtx`. `operation` is none where the field holds no S3 operation; `error` is what its
-- `String()` gives; no signed headers are nil.
pub record RequestCtx : Type 0 where
  pub request_id : String
  pub access_log_attrs : Map LogAttrs
  pub data_keys : Map Value
  pub operation : Option S3Operation
  pub session_token : String
  pub target_region : String
  pub error : String
  pub auth_type : AuthType
  pub signed_headers : Option (List String)

-- A setter, which does nothing without a record.
abbrev pub modify : (RequestCtx → RequestCtx) → Option RequestCtx → Option RequestCtx
modify f none = none
modify f (some ctx) = some (f ctx)

unfoldable pub set_auth_type : AuthType → Option RequestCtx → Option RequestCtx
set_auth_type auth_type = modify (λ ctx. record ctx { auth_type = auth_type })

unfoldable pub set_signed_headers : List String → Option RequestCtx → Option RequestCtx
set_signed_headers signed_headers =
    modify (λ ctx. record ctx { signed_headers = some signed_headers })

unfoldable pub set_target_region : String → Option RequestCtx → Option RequestCtx
set_target_region region = modify (λ ctx. record ctx { target_region = region })

unfoldable pub set_session_token : String → Option RequestCtx → Option RequestCtx
set_session_token token = modify (λ ctx. record ctx { session_token = token })

unfoldable pub set_operation : Option S3Operation → Option RequestCtx → Option RequestCtx
set_operation operation = modify (λ ctx. record ctx { operation = operation })

unfoldable pub set_error_code : String → Option RequestCtx → Option RequestCtx
set_error_code error_code = modify (λ ctx. record ctx { error = error_code })

-- `GetTargetRegion`, `GetSessionToken`, `GetAuthType` and `GetSignedHeaders`.
unfoldable pub get_target_region : Option RequestCtx → Result String
get_target_region none = fail (text "no target region stored in requestctx")
get_target_region (some ctx) = ok ctx.target_region

unfoldable pub get_session_token : Option RequestCtx → Result String
get_session_token none = fail (text "no session token stored in requestctx")
get_session_token (some ctx) = ok ctx.session_token

unfoldable pub get_auth_type : Option RequestCtx → Result AuthType
get_auth_type none = fail (text "no authType stored in requestctx")
get_auth_type (some ctx) = ok ctx.auth_type

unfoldable pub get_signed_headers : Option RequestCtx → Result (Option (List String))
get_signed_headers none = fail (text "no signedHeaders stored in requestctx")
get_signed_headers (some ctx) = ok ctx.signed_headers

abbrev pub or_empty : Option LogAttrs → LogAttrs
or_empty none = []
or_empty (some attrs) = attrs

-- The method `AddAccessLogInfo`, and the function of that name.
unfoldable pub add_to : String → LogAttrs → RequestCtx → RequestCtx
add_to group_name attrs ctx = record ctx {
  access_log_attrs =
      insert group_name (or_empty (lookup group_name ctx.access_log_attrs) ++ attrs)
        ctx.access_log_attrs;
}

unfoldable pub add_access_log_info : String → LogAttrs → Option RequestCtx → Option RequestCtx
add_access_log_info group_name attrs = modify (add_to group_name attrs)

abbrev pub string_of : Value → String
string_of (kind_string s) = s
string_of other_kind = ""

-- The loop over the attributes of a group.
unfoldable pub first_string : LogAttrs → String → String
first_string [] entry_name = ""
first_string ((key, value) ∷ attrs) entry_name =
    if str_eq key entry_name then string_of value else first_string attrs entry_name

-- `GetAccessLogStringInfo`.
unfoldable pub get_access_log_string_info : String → String → Option RequestCtx → String
get_access_log_string_info group_name entry_name none = ""
get_access_log_string_info group_name entry_name (some ctx) =
    elim (lookup group_name ctx.access_log_attrs) [
      | none ↦ ""
      | some attrs ↦ first_string attrs entry_name
    ]

-- `SetDataKey` and `GetStringData`.
unfoldable pub set_data_key : String → Value → RequestCtx → RequestCtx
set_data_key key value ctx = record ctx { data_keys = insert key value ctx.data_keys }

abbrev only_string : Value → Result String
only_string (kind_string s) = ok s
only_string other_kind = fail (text "invalid type for key")

unfoldable pub get_string_data : String → RequestCtx → Result String
get_string_data key ctx = elim (lookup key ctx.data_keys) [
  | none ↦ fail (text "no such key")
  | some v ↦ only_string v
]

-- Whether a character stands at the head.
abbrev starts : ℕ → String → Bool
starts c String.[] = false
starts c (String.◌∷◌ d s) = code d == c

-- `hasUUID4Format`, on texts of one byte a character.
unfoldable pub has_uuid4_format : String → Bool
has_uuid4_format s =
    if not (size s == 36)
    then false
    else not (
        not (starts b'-' (drop 8 s))
        || (not (starts b'-' (drop 13 s)) || not (starts b'-' (drop 23 s))))

-- `getRequestIdFromHttpRequest`, where `random` is what `uuid.New().String()` gives.
unfoldable pub get_request_id_from_http_request : String → Request → String
get_request_id_from_http_request random req =
    let of_header = header_get req.header "X-Request-ID" in
    let of_query = query_get req.query "X-Request-ID" in
    if not (str_eq of_header "") && has_uuid4_format of_header
    then to_upper of_header
    else if not (str_eq of_query "") && has_uuid4_format of_query
    then to_upper of_query
    else random

-- `NewContextFromHttpRequestWithStartTime`.
unfoldable pub new_context_from_http_request : String → Request → RequestCtx
new_context_from_http_request random req = record {
  request_id = get_request_id_from_http_request random req;
  access_log_attrs = [];
  data_keys = [];
  operation = none;
  session_token = "";
  target_region = "";
  error = "-";
  auth_type = auth_type_unknown;
  signed_headers = none;
}

-- `GetRequestID`.
unfoldable pub get_request_id : Option RequestCtx → String
get_request_id none = ""
get_request_id (some ctx) = ctx.request_id

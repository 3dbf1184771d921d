-- ===== src/S3/Backend/Credentials.antt =====
-- `getCredentials` of aws/service/s3/backendconfig.go: a credentials file, or inline credentials.
use fakes3pp.Prelude.{
  String, ◌≡◌, Bool, false, not, Option, none, some, arith, str_eq, if◌then◌else◌,
}
use fakes3pp.Text.{append, has_prefix}
use fakes3pp.Map.{Map, lookup}
use fakes3pp.UserError.{Error, text, message}
use fakes3pp.Outcome.{Result, ok, fail, ◌>>=◌, >>=-eq-ok, map_error}

-- The fields of `aws.Credentials` that the source sets.
pub record AwsCredentials : Type 0 where
  pub access_key_id : String
  pub secret_access_key : String
  pub session_token : String
  pub can_expire : Bool

-- The values of the maps of type `map[string]any` that the source tells apart.
pub data Inner : Type 0 where
  str : String → Inner
  not_str : Inner

pub data Any : Type 0 where
  str : String → Any
  dict : Map Inner → Any
  neither : Any

-- `awsBackendCredentialFile`.
pub record CredentialFile : Type 0 where
  pub access_key : String
  pub secret_key : String
  pub session_token : String

-- What lies outside: the file system, the YAML package, `path.Join`, and `%v` for a value.
pub record Platform : Type 0 where
  pub read_file : String → Result String
  pub unmarshal : String → Result CredentialFile
  pub join : String → String → String
  pub show : Option Any → String

-- `lookupString`.
unfoldable pub lookup_string : Map Inner → String → String
lookup_string m key = elim (lookup key m) [
  | none ↦ ""
  | some v ↦ elim v [ Inner.str s ↦ s | Inner.not_str ↦ "" ]
]

-- `path.IsAbs`.
abbrev is_abs : String → Bool
is_abs p = has_prefix p "/"

-- The checks of a credentials file.
unfoldable pub checked_file : CredentialFile → Result AwsCredentials
checked_file c =
    if str_eq c.access_key ""
    then fail (text "invalid credentials file, missing access key")
    else if str_eq c.secret_key ""
    then fail (text "invalid credentials file, missing secret key")
    else ok (record {
      access_key_id = c.access_key;
      secret_access_key = c.secret_key;
      session_token = c.session_token;
      can_expire = not (str_eq c.session_token "");
    })

-- The checks of inline credentials.
unfoldable pub checked_inline : Map Inner → Result AwsCredentials
unfolding lookup_string
checked_inline m =
    let access_key = lookup_string m "aws_access_key_id" in
    let secret_key = lookup_string m "aws_secret_access_key" in
    if str_eq access_key ""
    then fail (text "Must have a non empty access key")
    else if str_eq secret_key ""
    then fail (text "Must have a non empty secret key")
    else ok (record {
      access_key_id = access_key;
      secret_access_key = secret_key;
      session_token = lookup_string m "aws_session_token";
      can_expire = false;
    })

abbrev about : String → String → String → Error → Error
about before path sep e = text (append before (append path (append sep (message e))))

module _ (P : Platform) where
  -- The credentials file is read and decoded.
  unfoldable pub load_file : String → Result CredentialFile
  load_file file_path = do
    buf ←
        map_error (about "could not read credentials file " file_path "; ") (P.read_file file_path)
    map_error (about "error unmarshalling file " file_path "; ") (P.unmarshal buf)

  -- A path that is not absolute is relative to the configuration.
  abbrev located : String → String → String
  located relativepath p = if not (is_abs p) then P.join relativepath p else p

  -- The branch for a credentials file.
  unfoldable pub from_file : String → Any → Result AwsCredentials
  unfolding load_file checked_file
  from_file relativepath (str p) = load_file (located relativepath p) >>= checked_file
  from_file relativepath v =
      fail (
        text
          (append "When providing a credential file it must be a string, got " (P.show (some v))))

  -- The branch for inline credentials. Its message prints the file entry, which is not there.
  unfoldable pub from_inline : Any → Result AwsCredentials
  unfolding checked_inline
  from_inline (dict m) = checked_inline m
  from_inline v =
      fail
        (text (append "When providing inline credentials a map must be provided. " (P.show none)))

  -- The branches of `getCredentials` on the entries "file" and "inline".
  unfoldable pub choose : Option Any → Option Any → String → Result AwsCredentials
  unfolding from_file from_inline
  choose (some v) inline relativepath = from_file relativepath v
  choose none (some v) relativepath = from_inline v
  choose none none relativepath = fail (text "unable to find a valid type of credentials")

  -- `getCredentials`.
  unfoldable pub get_credentials : Map Any → String → Result AwsCredentials
  unfolding choose
  get_credentials credentials relativepath =
      choose (lookup "file" credentials) (lookup "inline" credentials) relativepath

-- Both keys are there.
pub record HasKeys (c : AwsCredentials) : Type 0 where
  pub access_key : (str_eq c.access_key_id "") ≡ false
  pub secret_key : (str_eq c.secret_access_key "") ≡ false

checked_file-HasKeys : (f : CredentialFile) (c : AwsCredentials) → checked_file f ≡ ok c → HasKeys c
unfolding checked_file
checked_file-HasKeys f c h = ground arith

checked_inline-HasKeys : (m : Map Inner) (c : AwsCredentials) → checked_inline m ≡ ok c → HasKeys c
unfolding checked_inline
checked_inline-HasKeys m c h = ground arith

module _ (P : Platform) where
  from_file-HasKeys :
      (r : String) (v : Any) (c : AwsCredentials) → from_file P r v ≡ ok c → HasKeys c
  unfolding from_file
  from_file-HasKeys r (str p) c h =
      let (f, _, k) = >>=-eq-ok (load_file P (located P r p)) checked_file h in
      checked_file-HasKeys f c k
  from_file-HasKeys r (dict m) c h = absurd (cc)
  from_file-HasKeys r neither c h = absurd (cc)

  from_inline-HasKeys : (v : Any) (c : AwsCredentials) → from_inline P v ≡ ok c → HasKeys c
  unfolding from_inline
  from_inline-HasKeys (str p) c h = absurd (cc)
  from_inline-HasKeys (dict m) c h = checked_inline-HasKeys m c h
  from_inline-HasKeys neither c h = absurd (cc)

  choose-HasKeys :
      (file inline : Option Any) (r : String) (c : AwsCredentials)
      → choose P file inline r ≡ ok c
      → HasKeys c
  unfolding choose
  choose-HasKeys (some v) inline r c h = from_file-HasKeys r v c h
  choose-HasKeys none (some v) r c h = from_inline-HasKeys v c h
  choose-HasKeys none none r c h = absurd (cc)

  -- Credentials that `getCredentials` returns have both keys, whatever the configuration and the
  -- files hold.
  pub get_credentials-HasKeys :
      (credentials : Map Any) (relativepath : String) (c : AwsCredentials)
      → get_credentials P credentials relativepath ≡ ok c
      → HasKeys c
  unfolding get_credentials
  get_credentials-HasKeys credentials r c h = choose-HasKeys _ _ r c h

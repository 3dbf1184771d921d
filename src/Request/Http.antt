-- ===== src/Request/Http.antt =====
-- The parts of Go's `http.Request` that the source reads and changes.
use fakes3pp.Prelude.{
  ℕ, code, String, Bool, true, false, Option, none, some, List, [], ◌∷◌, ◌++◌, ◌==◌, if◌then◌else◌,
}
use fakes3pp.Text.{lower, upper}
use fakes3pp.Map.{Map, lookup, insert, delete}

-- `http.Header` and `url.Values`: the values of each key, the first one first.
abbrev pub Values : Type 0
Values = Map (List String)

abbrev canonical_from : Bool → String → String
canonical_from start String.[] = ""
canonical_from start (String.◌∷◌ c s) =
    String.◌∷◌ (if start then upper c else lower c) (canonical_from (code c == b'-') s)

-- `textproto.CanonicalMIMEHeaderKey`, for a valid header name.
unfoldable pub canonical : String → String
unfolding upper lower
canonical name = canonical_from true name

abbrev pub first : Option (List String) → String
first (some (v ∷ vs)) = v
first _ = ""

-- `url.Values.Get`, `Has` and `Del`.
unfoldable pub query_get : Values → String → String
query_get q key = first (lookup key q)

unfoldable pub query_has : Values → String → Bool
query_has q key = elim (lookup key q) [ none ↦ false | some vs ↦ true ]

unfoldable pub query_del : Values → String → Values
query_del q key = delete key q

abbrev or_none : Option (List String) → List String
or_none none = []
or_none (some vs) = vs

-- `http.Header.Get`, `Del`, `Set` and `Add`.
unfoldable pub header_get : Values → String → String
header_get h name = first (lookup (canonical name) h)

unfoldable pub header_del : Values → String → Values
header_del h name = delete (canonical name) h

unfoldable pub header_set : Values → String → String → Values
header_set h name value = insert (canonical name) (value ∷ []) h

unfoldable pub header_add : Values → String → String → Values
header_add h name value =
    insert (canonical name) (or_none (lookup (canonical name) h) ++ value ∷ []) h

-- `http.Header.Values`.
unfoldable pub header_values : Values → String → List String
header_values h name = or_none (lookup (canonical name) h)

-- The request: `scheme`, `url_host` and `path` are those of its URL, `URL.Query()` stands for the
-- query, and `content_length` is none where the source has -1.
pub record Request : Type 0 where
  pub method : String
  pub scheme : String
  pub url_host : String
  pub content_length : Option ℕ
  pub host : String
  pub path : String
  pub query : Values
  pub header : Values

-- ===== src/S3/Urls.antt =====
-- A concrete package for URLs.
use fakes3pp.Prelude.{refl, [], ap, sym}
use fakes3pp.Outcome.{ok, ok-eq-ok}
use fakes3pp.Request.Http.{Values}
use fakes3pp.Presign.Library.{Url}
use fakes3pp.S3.Retarget.{Urls}

-- URLs of one host: the path is the text that was parsed.
abbrev pub plain_urls : Urls
plain_urls = record {
  Url = Url;
  RawQuery = Values;
  parse = λ s. ok (record { scheme = "https"; host = "s3.example"; path = s; query = [] });
  raw_query = λ u. u.query;
  with_raw_query = λ u q. record u { query = q };
  parts = λ u. u;
  parts-with_raw_query = λ u v. refl;
  parse-path = λ base path u h e. (
    record { scheme = "https"; host = "s3.example"; path = base; query = [] },
    refl,
    ap (λ (x : Url). x.scheme) (sym (ok-eq-ok _ u e)),
    ap (λ (x : Url). x.host) (sym (ok-eq-ok _ u e)),
  );
}

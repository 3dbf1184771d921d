-- ===== src/Lib.antt =====
-- fakes3pp: a proxy for S3 with its own STS. A client exchanges an OIDC token for temporary
-- credentials (aws/service/sts); its S3 requests are authenticated, authorized against the policy
-- of its role (aws/service/iam, aws/service/s3/mwauthorizes3.go), turned towards a backend with
-- that backend's own credentials (aws/service/s3/backendconfig.go, handler-builder.go) and
-- forwarded.
--
-- Iam/StringLike: `iamStringLike` of aws/service/iam/policy-evaluation.go. `Regex` writes out
-- `regexp.QuoteMeta`, the replacer, and the matching of the expressions that they make, unanchored
-- as `MatchString` is; `Sound` and `Infix` give the wildcard language.
-- Iam/Policy: the rest of policy-evaluation.go (`Types`, `Evaluation`) and policy-iam-action.go
-- (`Action`); the proofs stand in `Decision`, `Order` and `Context`. The values of conditions
-- belong to the package aws-iam-policy: they are the parameter `ConditionValues`. A Go map is a
-- list of entries, whose order stands for the order of an iteration.
-- Iam/Manager: policy-retrieval.go. `Cache` is `PolicyManager` over a retriever, `Retriever` the
-- names of the files, `Watch` the callbacks and the watcher as steps of a system of files, watches
-- and events; `Coherence`, `Changes`, `Moves`, `Handling` and `Delivery` carry the invariant over
-- the steps, `Race` splits one step in two. Templates and base32 are parameters; that decoding
-- undoes encoding is a field of `Base32`.
-- S3/Backend: backendconfig.go, in `Endpoint`, `Credentials` and `Config`. `getBackendConfig`
-- calls itself with the default backend: the model takes fuel, and two rounds are enough.
-- S3/Action: iam.go. S3/Authorize: mwauthorizes3.go (`Middleware`), s3-errors.go (`Errors`) and
-- aws/credentials/jwt.go (`Claims`); the JWT package, the policy decoder and the interface
-- `PolicyRetriever` are fields of `Services`. S3/RequesterPays: requesterpays.go. S3/Retarget:
-- `reTargetRequest`, with `net/url` as the parameter `Urls`; S3/Proxy: the rest of
-- handler-builder.go and cors_static.go, with the proofs in S3/Forwarded. S3/Routing:
-- mwregisteroperation.go, with the matching of the package mux as a parameter. S3/ResponseHeaders:
-- response_header_logger.go. S3/Pipeline: the chain of all of these that aws/service/s3/server.go
-- makes, from the authentication to the request that is sent.
-- Context: requestctx/requestctx.go, the record that a request's context holds.
-- Credentials: aws/credentials. `SecretKey` writes out base64 and how a secret key is derived,
-- `Issue` the credentials that the STS makes; `Derived` and `Valid` hold the proofs.
-- Sts: aws/service/sts. `Duration` and `Errors` are `calculateFinalDurationSeconds` and
-- sts-errors.go, `Server` is the rest of the handlers of server.go, `Oidc` is oidc/oidc-config.go;
-- `Issued` says for what credentials are issued, `Accepted` that the proxy takes them.
-- Presign: presign/header-operations.go (`Headers`), hmacv1query.go (`HmacV1`), s3v4.go (`V4`),
-- s3v4query.go and factory.go (`Url`); the proofs stand in `Signed`, `Genuine`, `RoundTrip` and
-- `Signing`. What the AWS SDK and Go's library do is a field of `Library`. Times are nanoseconds
-- since 1970, or seconds where the code has whole seconds; an int64 of nanoseconds is its residue
-- modulo 2^64.
-- Middleware: middleware/healthcheck.go (`Healthcheck`) and authentication.go (`Signature` for its
-- parts, `Authentication` for the handlers, with the proofs in `Authenticated` and `Presigned`).
-- Each function that can answer with an error gives a verdict, which keeps the request and its
-- context.
-- Cli: cmd/config.go, in `EnvVars` (the table of settings) and `Config`; the package viper is the
-- parameter `Viper`. `Started` holds what is proved of them.
-- Server: server/tls_reloader.go (`TlsReloader`), with what fsnotify and the file system do as
-- actions beside the watch loop; `Rotation` holds the proofs.
-- Request: requestutils, and the parts of `http.Request`.
-- UserError: usererror/usererror.go. Text and Map: the functions of `strings` and the maps that
-- these parts use. Outcome: results that are a value, an error or a panic of the Go run time.
--
-- Texts are lists of characters: strings that are no valid UTF-8 are not modelled. Log lines, the
-- printing of the access log and the draining of request bodies are left out. Not modelled:
-- listening and shutdown of the servers, flags and .env files, and metrics, which are calls of
-- Go's library and of other packages.
pub mod Prelude
pub mod Text
pub mod Map
pub mod UserError
pub mod Outcome
pub mod Context
pub mod Credentials
pub mod Iam
pub mod Request
pub mod S3
pub mod Sts
pub mod Presign
pub mod Middleware
pub mod Cli
pub mod Server

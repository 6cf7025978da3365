-- ===== src/Lib.antt =====
-- The proxy of this repository stands between S3 clients and an Apache Ozone S3 gateway. A client
-- exchanges an OIDC token for temporary credentials (internal/sts), which the proxy mints and keeps
-- (internal/store), and signs its requests with them. The proxy authenticates every request on one
-- of four lanes (internal/server): a bearer token, an AWS Signature V4 header, a presigned URL, or
-- nothing, which only a permissive configuration lets through. It then sends the request upstream
-- with the user in the place of the access key (internal/forward).
--
-- Base, Text and Go hold what the components share: numbers, lists and results; texts as lists of
-- bytes; and what the source uses of Go's standard library (net/url escapes and queries, net/http
-- headers, strconv, encoding/hex, time). Platform holds what is a parameter: SHA-256, HMAC, the
-- parsers of URIs and media types, and the compiler of patterns.
--   SigV4 ....... internal/sigv4: Auth (ParseAuthorization), Canonical (canonicalRequest and its
--                 parts), Verify, Presign (ParsePresigned, VerifyPresigned), Sign
--   Forward ..... internal/forward: ApplySynthetic, ApplyResign, RewriteAccessKeyID,
--                 StripPresignedQuery
--   Store ....... internal/store: the interface with its laws, Mint, the in-process Memory, and
--                 Valkey, over a record of what is called of the client library and of the cipher
--   Config ...... internal/config: applyEnv, applyDefaults, validate
--   Oidc ........ internal/oidc: Validate, lookupKey, resolveJWKS, over a record of what is called
--                 of the JWT library and of the key cache
--   Sts ......... internal/sts: ServeHTTP, and the lifetime of what it grants; Response (xml.go)
--   Server ...... internal/server: the dispatch, the lanes, applyIdentity and the revocation, with
--                 the codes of internal/s3err; Strict, Exactly, Attribution, Lanes and Admits prove
--                 of it; Admits/Granted joins it to Sts, Store and SigV4; Runs has the requests,
--                 revocations and losses one after another; Accounts is about the metrics;
--                 Upstream has the reverse proxy (NewReverseProxy) and the S3 error documents;
--                 Admin has the readiness and the gauges of the store
--   DeviceLogin . internal/devicelogin: Discover, Start and Refresh; Poll, with the relation of its
--                 rounds; TokenFile (WriteTokenFile); Login (cmd/ozone-login: the loop around them)
--   Portal ...... cmd/credential-portal: serveHome and sessionName; Exchange and Shown join it to Sts
--   Startup ..... cmd/proxy: newStore and the start of main, with config.Load, oidc.New and
--                 server.New
--   StubIssuer .. examples/compose/stub-issuer: the token handler and signJWT; Accepted joins it to
--                 Oidc
--   Examples .... runs at concrete inputs
--
-- State is passed explicitly: an operation of a store or of a validator takes its state and returns
-- the next. A mutex makes each operation one step. Errors are values, without their messages. Times
-- are nanoseconds since the year 0, and durations are 64-bit integers of nanoseconds, whose
-- conversion from seconds wraps around and whose difference saturates, as in Go. The clock and the
-- random bytes of a call are arguments; one token validation reads the clock once. The device login
-- and the Valkey store call the network, the clock and the disk: what they call is a record of
-- functions on a world, and every call passes the world on. Of a write of the token file all states
-- are kept that another process can see.
--
-- Three loops run on fuel, since their end is up to a server: the rounds of the poll, of which two
-- more than the seconds of a device code that expires are enough; the calls of SCAN, of which the
-- length of the chain of cursors is enough; and the refreshes of ozone-login, which go on until the
-- program is stopped. The local cache of the Valkey client and the expiry of records on the server
-- are left to the client: its laws are those of a client whose cache has seen every invalidation.
--
-- A Put of a store that answers an error is taken to have left the store as it was. An exchange
-- counts its one event behind its result, where the source counts it in each branch.
--
-- Not modelled: instants before the year 0 and after the year 9999; white space and case mapping
-- beyond ASCII; error messages and log lines; the encoder of XML, the YAML decoder and
-- net/http/httputil, which are parameters; the timeouts of the transport; the metrics registry; the
-- sweeper's ticker; the options of the Valkey store; flags, signals, listeners, messages and the
-- page template of the commands (cmd); the discovery documents of the stub issuer; the load test
-- (examples) and the licence generator (hack).
pub mod Base
pub mod Text
pub mod Go
pub mod Platform
pub mod SigV4
pub mod Forward
pub mod Store
pub mod Config
pub mod Oidc
pub mod Sts
pub mod Server
pub mod DeviceLogin
pub mod Portal
pub mod Startup
pub mod StubIssuer
pub mod Examples

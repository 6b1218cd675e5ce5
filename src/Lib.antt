-- ===== src/Lib.antt =====
-- Verification of the core of a relying party library for OAuth 2.0 and OpenID Connect, in Go.
--
-- A client sends a browser to a provider and saves the correlation of the flow (nonce, PKCE verifier,
-- issuer, client) under a random state. The browser comes back to the callback with a code. The
-- callback consumes the state, checks the response, exchanges the code at the token endpoint and
-- validates the ID token. The parts and their files:
--
--   Base            Shared names, and its children: Tests (Boolean tests on numbers), Lists, Strings
--                   (package strings, a Go string as the list of its bytes), Maps (a Go map as an
--                   association list), Errors (a value or an error), Int (with the wrap of an
--                   int64), Base64 (encoding/base64).
--   Http            What the code reads and writes of net/http, and times: nanoseconds since Go's
--                   zero time, without the earlier times and without the end of the range.
--   Store           rp/store/store.go: the data of the stores, and the interface that the callback
--                   takes.
--   Store/Memory    rp/store/memory/store.go. One function for each operation; a clock reading is an
--                   argument. State has the operations on whole states, Values those on
--                   caller-owned values. LoadState and
--                   LoadValue let go of the mutex, so each is a `read` and a `finish`; every other
--                   operation is one step. Edit has the calls and the histories of calls, Implements
--                   the interface of Store.
--   Store/Cookie    rp/store/cookie/store.go and options.go: Payload has the data in the cookie,
--                   Session the session that holds it, Operations and Values the operations. A
--                   request is the session that gorilla/sessions attaches to it; saving a session and
--                   encoding/json are the parameter `Sessions`.
--   Metadata        metadata/provider.go and metadata/authorization_server.go, and in Validate the
--                   checks of metadata/validate.go and validateurl/https.go; url.Parse is the
--                   parameter `parse`.
--   Metadata/Discovery
--                   metadata/discovery.go, discovery_refresh.go, cache.go, http_fetch.go and
--                   well_known.go of metadata, with httputil and cache/store.go. A client is its
--                   cache and the refreshes that it has started; Steps has the calls and the ends of
--                   refreshes in any order. A call is one step. The answer of a server to a URL and an
--                   ETag is an argument.
--   Jwks            jwks/remote_keyset.go, jwks/cache.go and jwks/http_fetch.go: a key set with what its
--                   cache holds. `forced` is the last part of Key; the refreshes in the background are
--                   recorded and not run. The document of a server, decoded, is an argument.
--   Rp              rp/rp.go, rp/errors.go: the configuration, the profiles and the errors.
--   Rp/Jose         go-jose and the hash functions, as a record of operations. Its one law is what
--                   jwt.ParseSigned documents: the algorithm of a parsed token is in the given list.
--   Rp/IdToken      rp/idtoken.go: validate_claims is validateIDTokenClaimsAs; Verify has
--                   validateIDTokenAs from decryption to the claims, Hashes the response ID token.
--   Rp/Jarm         rp/jarm.go.
--   Rp/AuthMethod   rp/auth_method.go and the selection of rp/client_config.go.
--   Rp/Endpoints    rp/endpoints.go.
--   Rp/Options, Rp/Defaults, Rp/Merge and Rp/Construct
--                   rp/options.go and rp/rp.go: the options, the defaults and demands of the
--                   profiles, merging of metadata, and New. What the metadata client answers is a
--                   parameter; Construct/Secure puts Metadata/Discovery there.
--   Rp/RequestObject, Rp/UrlOptions and Rp/AuthRequest
--                   rp/request_object.go, rp/grant_management_request.go, rp/options.go,
--                   rp/authrequest.go and rp/par.go: authorizationURL. `prepare` is its part between
--                   the random bytes and the store; signing and the exchange of a pushed request are
--                   parameters.
--   Rp/Redirects    The redirect policy of rp/http.go. The requests of one call are a data type, as
--                   net/http documents that CheckRedirect decides on each.
--   Rp/CallbackParams, Rp/Flow and Rp/Callback
--                   rp/callback_params.go and rp/callback.go. handle_callback is handleCallback over
--                   any correlation store; `consumed`, `with_correlation`, `complete` and `identify`
--                   are its parts in their order. The record Network has its clock readings, the key
--                   sets and the outcomes of discovery, of the token endpoint and of UserInfo.
--   Rp/Grant        executeTokenGrant of rp/token_exchange.go over a token endpoint with states, the
--                   refresh of rp/refresh_token.go and the RefreshTokenSource of
--                   rp/refresh_rotation.go.
--   Rp/Pkce         rp/pkce.go; SHA-256 is a parameter.
--   Rp/DpopNonce    rp/dpop_nonce_store.go; `get` is a `get_read` and a `get_finish`.
--   Rp/Dpop         rp/dpop.go: doRequestWithDPoPRetry over a server with states.
--
-- Fuel: the second loop of the sweep, `evict`, gets as many rounds as there are entries. Each round
-- deletes one, so these are enough.
--
-- Not modelled: tracing and logging, which have no effect on the results; the text of error messages,
-- where errors are told apart by the sentinel that errors.Is finds; the contents of tokens and their
-- signatures; HTTP bodies and JSON; the case of letters outside ASCII; TLS wiring; the remaining
-- components: client assertions, DPoP proofs, WebFinger, introspection, UserInfo,
-- registration and grant management.
pub mod Base
pub mod Http
pub mod Jwks
pub mod Store
pub mod Metadata
pub mod Rp

-- ===== src/Rp/IdToken/Verify.antt =====
-- rp/idtoken.go: decryption, signature and policy of an ID token. The token format and the signatures
-- are go-jose's, behind `Jose`; the key sets are those of packages metadata and jwks, behind the
-- interface `keySource`.
use lanyard.Base.{
  ℕ, ◌+◌, Bool, not, ◌&&◌, ◌||◌, Option, none, some, List, [], ◌∷◌, Text, codes, ◌==◌, equal_fold,
  count, trim_space, eqb, any, is_empty, Except, ok, err, ◌>>=◌, ◌>>◌, fail_if, or_fail,
  if◌then◌else◌,
}
use lanyard.Http.{Time}
use lanyard.Rp.{
  PrivateKey, Rp, is_fapi, IdTokenProblem, no_decryption_key, not_decrypted, not_parsed, no_headers,
  alg_not_advertised, unsecured, no_key_set, key_not_found, bad_signature, missing_kid,
}
use lanyard.Rp.Jose.{Jose, Header, Jwk, Claims}
use lanyard.Rp.IdToken.{FlowIdentity, validate_claims}

-- `keySource`, by what its two methods return during one validation.
pub record KeySource : Type 0 where
  pub key : Text → Option Jwk
  pub keys : Option (List Jwk)

-- The key sets that a validation can load: RemoteKeySetFromJWKSURI by the provider's URI,
-- RemoteKeySet by issuer, and NewRemoteKeySet with an empty cache.
pub record KeySets : Type 0 where
  pub by_uri : Text → Option KeySource
  pub by_issuer : Text → Option KeySource
  pub uncached : Text → Option KeySource

abbrev pub fapi_algs : List Text
fapi_algs = codes "PS256" ∷ codes "ES256" ∷ []

abbrev pub none_alg : Text
none_alg = codes "none"

abbrev pub supported_algs : List Text
supported_algs =
    codes "RS256"
    ∷ codes "RS384"
    ∷ codes "RS512"
    ∷ codes "PS256"
    ∷ codes "PS384"
    ∷ codes "PS512"
    ∷ codes "ES256"
    ∷ codes "ES384"
    ∷ codes "ES512"
    ∷ none_alg
    ∷ []

abbrev pub own_identity : Rp → FlowIdentity
own_identity r = record { issuer = r.issuer; client_id = r.client_id; client_secret = [] }

-- `key.Use != "" && key.Use != "sig"` skips the key.
abbrev pub for_signing : Jwk → Bool
for_signing k = k.use_ == [] || k.use_ == codes "sig"

-- `len(list) > 0 && !slices.ContainsFunc(list, EqualFold to alg)`
unfoldable pub outside : List Text → Text → Bool
outside allowed alg = not (is_empty allowed) && not (any (λ a. equal_fold a alg) allowed)

-- What the key decodes of the token, unless it is skipped or does not verify it.
unfoldable pub usable : {A : Type 0} → (Text → Option A) → Jwk → Option A
usable verify k = if for_signing k then verify k.material else none

abbrev pub count_match : {A : Type 0} → Option A → ℕ → ℕ
count_match none n = n
count_match (some c) n = n + 1

abbrev pub last_match : {A : Type 0} → Option A → Option A → Option A
last_match none o = o
last_match (some c) o = some c

-- The loop of verifyIDTokenWithoutKID (and of parseJARMResponse) over the keys: how many verify the
-- token, and what the last of them decoded.
unfoldable pub scan : {A : Type 0} → (Text → Option A) → List Jwk → ℕ → Option A → ℕ × Option A
scan verify [] matched last = (matched, last)
scan verify (k ∷ ks) matched last =
    let candidate = usable verify k in
    scan verify ks (count_match candidate matched) (last_match candidate last)

abbrev pub first_header : {A : Type 0} → List Header → A → (Header → A) → A
first_header [] a f = a
first_header (h ∷ hs) a f = f h

-- What Decrypt gets: the private key by its name, or nil.
abbrev key_name : Option PrivateKey → Option Text
key_name none = none
key_name (some p) = some p.key

module _ (j : Jose) where
  open j use {Token, parse_signed, headers, id_claims, unsafe_claims, decrypt, hash}

  -- `decryptIDTokenIfNeeded`
  unfoldable pub decrypt_if_needed : Rp → Text → Except IdTokenProblem Text
  decrypt_if_needed r raw = if not (eqb (count raw b'.') 4) then ok raw else elim r.client_key [
    | none ↦ err no_decryption_key
    | some k ↦ or_fail (decrypt (key_name k.private_key) raw) not_decrypted
  ]

  unfoldable pub verify_without_kid : Token → KeySource → Except IdTokenProblem Claims
  verify_without_kid t set = elim set.keys [
    | none ↦ err no_key_set
    | some ks ↦
        let (matched, last) = scan (id_claims t) ks 0 none in
        if not (eqb matched 1) then err missing_kid else or_fail last missing_kid
  ]

  unfoldable pub verify_signed : Token → Header → KeySource → Except IdTokenProblem Claims
  verify_signed t h set =
      if h.key_id == [] then verify_without_kid t set else elim (set.key h.key_id) [
        | none ↦ err key_not_found
        | some k ↦ or_fail (id_claims t k.material) bad_signature
      ]

  -- The first try, and the second with an uncached key set where a URI is given.
  unfoldable pub verify_or_retry :
      Token → Header → KeySource → Option KeySource → Except IdTokenProblem Claims
  verify_or_retry t h set fresh = elim (verify_signed t h set) [
    | ok c ↦ ok c
    | err e ↦ elim fresh [ none ↦ err e | some again ↦ verify_signed t h again ]
  ]

  unfoldable pub provider_keys : Rp → KeySets → Option KeySource
  provider_keys r sets =
      let uri = trim_space r.provider.jwks_uri in
      if uri == [] then sets.by_issuer r.issuer else sets.by_uri uri

  -- The part of `validateIDTokenAs` for a token with a signature.
  unfoldable pub validate_signed :
      Rp
      → Time
      → KeySets
      → Token
      → Header
      → Text
      → Text
      → FlowIdentity
      → Except IdTokenProblem Claims
  validate_signed r now sets t h nonce jwks_url id = do
    set ← or_fail (provider_keys r sets) no_key_set
    claims ← verify_or_retry t h set (if jwks_url == [] then none else sets.uncached jwks_url)
    validate_claims r now claims nonce id
    ok claims

  -- The part for one with `alg` none.
  unfoldable pub validate_unsecured : Rp → Time → Token → Text → Except IdTokenProblem Claims
  validate_unsecured r now t nonce = do
    fail_if (is_fapi r.profile) unsecured
    fail_if (not r.allow_unsecured_id_tokens) unsecured
    claims ← or_fail (unsafe_claims t) not_parsed
    validate_claims r now claims nonce (own_identity r)
    ok claims

  unfoldable pub validate_parsed :
      Rp
      → Time
      → KeySets
      → Token
      → Header
      → Text
      → Text
      → List Text
      → FlowIdentity
      → Except IdTokenProblem Claims
  validate_parsed r now sets t h nonce jwks_url provider_algs id =
      if outside provider_algs h.algorithm
      then err alg_not_advertised
      else if h.algorithm == none_alg
      then validate_unsecured r now t nonce
      else validate_signed r now sets t h nonce jwks_url id

  -- `validateIDTokenAs`
  unfoldable pub validate_id_token :
      Rp
      → Time
      → KeySets
      → Text
      → Text
      → Text
      → List Text
      → FlowIdentity
      → Except IdTokenProblem Claims
  validate_id_token r now sets raw nonce jwks_url provider_algs id = do
    plain ← decrypt_if_needed r raw
    t ←
        or_fail (parse_signed plain (if is_fapi r.profile then fapi_algs else supported_algs))
          not_parsed
    first_header (headers t) (err no_headers)
        (λ h. validate_parsed r now sets t h nonce jwks_url provider_algs id)

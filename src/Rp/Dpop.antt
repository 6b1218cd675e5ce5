-- ===== src/Rp/Dpop.antt =====
-- rp/dpop.go: the retry of a request on a new DPoP nonce, and the nonces of the client.
pub mod Retry
use lanyard.Base.{
  ℕ, Bool, true, false, not, ◌&&◌, ◌||◌, Option, none, some, [], ◌∷◌, ◌++◌, Text, codes, ◌==◌,
  contains, eqb, Except, ok, err, if◌then◌else◌,
}
use lanyard.Http.{Time}
use lanyard.Rp.{Rp}
use lanyard.Rp.Grant.{is_dpop}
use lanyard.Rp.DpopNonce.{NonceStore, get, put}

-- What the code reads of a *http.Response.
pub record Reply : Type 0 where
  pub status : ℕ
  pub www_authenticate : Text
  pub dpop_nonce : Text
  pub preview : Text

-- The errors of `doRequestWithDPoPRetry`: the request is not built, not signed, or fails.
pub data RequestError : Type 0 where
  not_built not_signed not_sent : RequestError

-- The quotation marks of the challenge are byte 34.
abbrev pub nonce_challenge : Text
nonce_challenge = codes "error=" ++ 34 ∷ codes "use_dpop_nonce" ++ 34 ∷ []

-- `extractDPoPNonce`
abbrev pub nonce_of : Reply → Option Text
nonce_of reply = if reply.dpop_nonce == [] then none else some reply.dpop_nonce

-- `isUseDPoPNonce`
unfoldable pub is_use_dpop_nonce : Reply → Bool
is_use_dpop_nonce reply =
    (eqb reply.status 400 || eqb reply.status 401)
    && (contains reply.www_authenticate nonce_challenge || not (reply.dpop_nonce == []))

-- `shouldUseDPoPWithAuthMethod`, which does not look at the method.
unfoldable pub should_use_dpop : Rp → Bool
should_use_dpop r = is_dpop r.sender_constrain && elim r.client_key [ none ↦ false | some k ↦ true ]

-- `storeNonce` of a response, at an endpoint whose key is normalized already.
unfoldable pub store_nonce : NonceStore → Time → Text → Reply → NonceStore
store_nonce s now endpoint reply = elim (nonce_of reply) [
  | none ↦ s
  | some n ↦ put s now endpoint n
]

-- A server and the network before it, of states `W`: `send` sends the request with a proof over a
-- nonce, or without a proof, and yields the response or fails, also where its body does not decode;
-- `builds` is whether the request can be built, and `signs` whether a proof over a nonce can.
pub record Server : Type 1 where
  pub W : Type 0
  pub builds : W → Bool
  pub signs : W → Text → Bool
  pub send : W → Option Text → W × Except RequestError Reply

module _ (server : Server) where
  open server use {W, builds, signs, send}

  -- One request, signed over a nonce where DPoP is used.
  unfoldable pub attempt : W → Bool → Text → W × Except RequestError Reply
  attempt w use_dpop nonce =
      if not (builds w)
      then (w, err not_built)
      else if use_dpop
      then if signs w nonce then send w (some nonce) else (w, err not_signed)
      else send w none

  -- The retry, with the nonce of the first response.
  unfoldable pub retry :
      W → NonceStore → Time → Text → Reply → W × NonceStore × Except RequestError Reply
  retry w s now endpoint reply =
      if is_use_dpop_nonce reply
      then elim (nonce_of reply) [
        | none ↦ (w, s, ok reply)
        | some nonce ↦
            let (w', second) = attempt w true nonce in
            elim second [
              | err e ↦ (w', s, err e)
              | ok reply' ↦ (w', store_nonce s now endpoint reply', ok reply')
            ]
      ]
      else (w, s, ok reply)

  -- `doRequestWithDPoPRetry`, with the times at which it stores the two responses' nonces.
  unfoldable pub do_request :
      W → NonceStore → Time → Time → Text → Bool → Text → W × NonceStore × Except RequestError Reply
  do_request w s now later endpoint use_dpop cached =
      let (w', answer) = attempt w use_dpop cached in
      elim answer [
        | err e ↦ (w', s, err e)
        | ok reply ↦
            if use_dpop
            then retry w' (store_nonce s now endpoint reply) later endpoint reply
            else (w', s, ok reply)
      ]

  -- The request of a grant: the nonce that is cached for the endpoint, and the retry.
  unfoldable pub request :
      W → NonceStore → Time → Time → Time → Text → Bool → W × NonceStore × Except RequestError Reply
  request w s start now later endpoint use_dpop =
      let (s', cached) = get s start endpoint in
      do_request w s' now later endpoint use_dpop (elim cached [ none ↦ [] | some n ↦ n ])

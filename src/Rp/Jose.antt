-- ===== src/Rp/Jose.antt =====
-- What package rp uses of go-jose and of the hash functions of the standard library, which are no part
-- of the repository: the parameters of the model, with the documented behaviour that it relies on.
use lanyard.Base.{◌≡◌, true, Option, some, List, ◌∷◌, Text, any, ◌==◌, ℕ}
use lanyard.Base.Int.{ℤ}

-- jose.Header
pub record Header : Type 0 where
  pub algorithm : Text
  pub key_id : Text

-- jose.JSONWebKey, the key material by name
pub record Jwk : Type 0 where
  pub key_id : Text
  pub use_ : Text
  pub material : Text

-- `idTokenClaims`, and the members that JARM responses add to them (`jarmClaims`)
pub record Claims : Type 0 where
  pub issuer : Text
  pub subject : Text
  pub aud : List Text
  pub exp : Option ℤ
  pub iat : Option ℤ
  pub nonce : Text
  pub azp : Text
  pub c_hash : Text
  pub s_hash : Text
  pub cnf : Text
  pub verified_claims : Text

-- `jarmClaims`
pub record JarmClaims : Type 0 where
  pub iss : Text
  pub aud : List Text
  pub exp : Option ℤ
  pub iat : Option ℤ
  pub code : Text
  pub state : Text
  pub error : Text
  pub error_description : Text

pub data HashAlg : Type 0 where
  sha256 sha384 sha512 : HashAlg

pub record Jose : Type 1 where
  -- *jwt.JSONWebToken
  pub Token : Type 0
  -- jwt.ParseSigned with the accepted algorithms
  pub parse_signed : Text → List Text → Option Token
  pub headers : Token → List Header
  -- (*JSONWebToken).Claims: verifies the signature by the key, then decodes
  pub id_claims : Token → Text → Option Claims
  pub jarm_claims : Token → Text → Option JarmClaims
  -- UnsafeClaimsWithoutVerification
  pub unsafe_claims : Token → Option Claims
  -- ParseEncrypted and Decrypt by the private key, which may be nil
  pub decrypt : Option Text → Text → Option Text
  pub hash : HashAlg → Text → List ℕ
  -- "The signature algorithms list must contain the algorithm of the token."
  pub parse_signed_alg :
      (raw : Text) (algs : List Text) (t : Token) (h : Header) (hs : List Header)
      → parse_signed raw algs ≡ some t
      → headers t ≡ h ∷ hs
      → any (λ a. a == h.algorithm) algs ≡ true

-- ===== src/Store.antt =====
-- rp/store/store.go: the data that the state stores keep.
pub mod Memory
pub mod Cookie
use lanyard.Base.{◌≡◌, none, some, Except, ok, ℕ, Bool, Option, List, Text}
use lanyard.Base.Maps.{Dict}
use lanyard.Http.{Time, Request}

pub record CallbackCorrelation : Type 0 where
  pub nonce : Text
  pub code_verifier : Text
  pub created_at : Time
  pub expiry : Time
  pub issuer : Text
  pub client_id : Text
  pub client_secret : Text
  pub request_uri : Text
  pub used_par : Bool
  pub resources : List Text
  pub user_info_token_transport : Text

-- A []byte, `none` where it is nil.
abbrev pub Bytes : Type 0
Bytes = Option (List ℕ)

pub record StateScope : Type 0 where
  pub correlation : CallbackCorrelation
  pub values : Dict Bytes

-- The errors of a store's operations, by their cause.
pub data StoreError : Type 0 where
  empty_state empty_name binding_failed : StoreError

-- The part of the interface CorrelationStore that a callback uses. That a correlation is handed out once
-- is not among its promises: the memory store keeps to it, the cookie store does not.
pub record CorrelationStore : Type 1 where
  pub S : Type 0
  pub consume :
      S → Time → Option Request → Text → S × Except StoreError (Option CallbackCorrelation)

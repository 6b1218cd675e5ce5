-- ===== src/Rp/Tests/Clients.antt =====
-- Runs of the client authentication, the token grants, PKCE and the DPoP nonces on small inputs.
use Prim.Native.Nat.{zero, suc}
use lanyard.Base.{
  ℕ, ◌≡◌, refl, ◌≢◌, ◌⊎◌, false, none, some, List, [], ◌∷◌, Text, codes, ◌==◌, length, Except, ok,
  err, if◌then◌else◌, arith, trim_space, trim_left, trim_right, to_lower,
}
use lanyard.Base.Maps.{lookup}
use lanyard.Rp.{Rp}
use lanyard.Rp.AuthMethod.{
  basic, select_auth_method, resolve, normalize, normalize_from, preferred, method_supported,
  method_exact_match, validate_resolved,
}
use lanyard.Rp.AuthMethod.Credentials.{Usable, select_auth_method-Usable}
use lanyard.Rp.Callback.{Token}
use lanyard.Rp.Grant.{
  GrantResult, GrantError, TokenServer, RefreshServer, RefreshError, Source, execute_token_grant,
  retry_basic, accept, should_fallback_to_basic, set_auth_method_state, refresh, refresh_token,
}
use lanyard.Rp.Grant.Outcome.{Acceptable, TakenAtOnce, TakenOnRetry, execute_token_grant-ok}
use lanyard.Rp.Grant.Refresh.{Rotates, refresh_lem}
use lanyard.Rp.Endpoints.{token_endpoint, uses_mtls}
use lanyard.Rp.Pkce.{validate_code_verifier, generate_code_verifier, code_challenge_s256}
use lanyard.Rp.Pkce.Verifier.{generate_code_verifier_lem}
use lanyard.Rp.DpopNonce.{NonceStore, get, put, get_read, get_finish, get_loses_put}
use lanyard.Rp.Tests.{client}

abbrev advertised : List Text
advertised = codes " Client_Secret_Basic" ∷ []

select_auth_method-Usable_example : Usable client basic
unfolding select_auth_method resolve normalize normalize_from preferred method_supported
    method_exact_match validate_resolved trim_space trim_left trim_right to_lower ◌==◌
select_auth_method-Usable_example = select_auth_method-Usable client advertised basic false refl

abbrev fixed : Rp
fixed = record client { auth_method = basic }

abbrev public_client : Rp
public_client = record client { client_secret = [] }

abbrev token : Token
token = record {
  access_token = codes "at";
  token_type = codes "Bearer";
  id_token = [];
  refresh_token = codes "next";
  grant_id = [];
}

abbrev answer : Text → Except GrantError GrantResult
answer method =
    ok (record { token = token; status = if method == basic then 200 else 401; preview = [] })

-- A server that refuses client_secret_post, and counts the requests.
abbrev server : TokenServer
server = record { W = ℕ; run = λ n method. (suc n, answer method); oauth_error = λ text. none }

abbrev settled : Rp
settled = set_auth_method_state client basic false

grants : execute_token_grant server 0 client ≡ (2, settled, ok token)
unfolding execute_token_grant retry_basic accept should_fallback_to_basic set_auth_method_state
    trim_space trim_left trim_right ◌==◌
grants = refl

execute_token_grant-ok_example :
    Acceptable client token
    × (TakenAtOnce server 0 2 client settled token ⊎ TakenOnRetry server 0 2 client settled token)
execute_token_grant-ok_example = execute_token_grant-ok server 0 2 client settled token grants

abbrev refresher : RefreshServer
refresher = record {
  W = ℕ;
  send = λ n held method. (suc n, answer method);
  oauth_error = λ text. none;
}

abbrev source : Source refresher
source = record { w = 0; rp = client; current = codes "first" }

abbrev rotated : Source refresher
rotated = record { w = 2; rp = settled; current = codes "next" }

refresh_lem_example :
    (codes "next" ≢ [])
    × (rotated.w ≡ (refresh_token refresher source.w source.rp false (codes "first")).0)
    × (rotated.rp ≡ (refresh_token refresher source.w source.rp false (codes "first")).1)
    × (((e : RefreshError) × ((refresh_token refresher source.w source.rp false (codes "first")).2
            ≡ err e)
          × (◌≡◌ {A = Except RefreshError Token} (ok token) (err e))
          × (codes "next" ≡ codes "first"))
        ⊎ ((t : Token) × ((refresh_token refresher source.w source.rp false (codes "first")).2
              ≡ ok t)
            × (◌≡◌ {A = Except RefreshError Token}
                (ok token)
                (ok (record t { refresh_token = codes "next" })))
            × Rotates (codes "first") t.refresh_token (codes "next")))
unfolding refresh refresh_token token_endpoint uses_mtls execute_token_grant retry_basic accept
    should_fallback_to_basic set_auth_method_state trim_space trim_left trim_right ◌==◌
refresh_lem_example = refresh_lem refresher source rotated false (ok token) refl (λ e. cc)

abbrev bytes : ℕ → ℕ → List ℕ
bytes b zero = []
bytes b (suc n) = b ∷ bytes b n

generate_code_verifier_lem_example :
    (verifier challenge : Text) × (generate_code_verifier (some (bytes 255 32)) ≡ ok verifier)
    × (length verifier ≡ 43)
    × (validate_code_verifier verifier ≡ ok tt)
    × (code_challenge_s256 (λ t. bytes 7 32) verifier ≡ ok challenge)
    × (length challenge ≡ 43)
generate_code_verifier_lem_example =
    generate_code_verifier_lem (λ t. bytes 7 32) (bytes 255 32) refl refl

abbrev nonces : NonceStore
nonces = record { ttl = 300; m = (codes "a", record { nonce = codes "x"; created_at = 10 }) ∷ [] }

get_loses_put_example :
    ((get (put nonces 450 (codes "a") (codes "y")) 500 (codes "a")).1 ≡ some (codes "y"))
    × ((get
          (get_finish
            (put nonces 450 (codes "a") (codes "y"))
            (codes "a")
            (get_read nonces 400 (codes "a"))).0
          500
          (codes "a")).1
        ≡ none)
unfolding get_read lookup ◌==◌
get_loses_put_example =
    get_loses_put nonces nonces 400 450 500 (codes "a") (codes "y") refl (omega arith) (omega arith)

-- ===== src/Rp/Tests/Callbacks.antt =====
-- Runs of rp/callback.go on small inputs.
use lanyard.Base.{
  ◌≡◌, refl, ◌≢◌, ◌⊎◌, none, some, [], ◌∷◌, Text, codes, contains, has_prefix, count, equal_fold,
  to_lower, trim_space, trim_left, trim_right, ok, err, true, false, ◌==◌,
}
use lanyard.Base.Maps.{lookup, erase}
use lanyard.Http.{Request}
use lanyard.Store.{CallbackCorrelation}
use lanyard.Store.Memory.{Store, zero_correlation, consume_correlation, is_expired}
use lanyard.Store.Memory.Implements.{memory_store}
use lanyard.Rp.{Rp, invalid_state}
use lanyard.Rp.IdToken.{validate_claims, unix}
use lanyard.Base.Int.{int64, ◌+ℤ◌}
use lanyard.Rp.IdToken.Verify.{
  validate_id_token, decrypt_if_needed, validate_parsed, outside, validate_signed, provider_keys,
  verify_or_retry, verify_signed, verify_without_kid, scan, usable, validate_unsecured,
}
use lanyard.Rp.AuthMethod.{
  apply_supported, select_auth_method, resolve, normalize, normalize_from, preferred,
  method_supported, method_exact_match, validate_resolved,
}
use lanyard.Rp.Jarm.{is_jarm_response, requires_jarm_response}
use lanyard.Rp.Endpoints.{token_endpoint, user_info_endpoint, uses_mtls}
use lanyard.Rp.Callback.{
  CallbackResult, Network, Response, Token, extract_params, parse_response, handle_callback,
  response_issuer, expected_issuer, provider_for_callback, identity, uses_openid, params_of, param,
  consumed, with_correlation, check_response, negotiate, complete, identify, result_of, user_info,
}
use lanyard.Rp.Callback.Complete.{Identified}
use lanyard.Metadata.{Provider}
use lanyard.Rp.Callback.Replay.{replay_refused}
use lanyard.Rp.Callback.Issuer.{callback_issuer}
use lanyard.Rp.Callback.Identity.{callback_subject}
use lanyard.Rp.Tests.{client, jose, key_sets, now}

abbrev correlation : CallbackCorrelation
correlation = record zero_correlation {
  nonce = codes "n";
  created_at = 100;
  code_verifier = codes "v";
}

abbrev store : Store
store = record {
  ttl = 1000;
  items =
      (codes "s", record { correlation = correlation; values = []; created_at = 100; binding = [] })
      ∷ [];
}

abbrev token : Token
token = record {
  access_token = codes "at";
  token_type = codes "Bearer";
  id_token = codes "a.b.c";
  refresh_token = [];
  grant_id = [];
}

abbrev network : Network
network = record {
  jarm_time = now;
  store_time = 200;
  response_time = now;
  age_time = now;
  token_time = now;
  key_sets = key_sets;
  discover = λ issuer. none;
  exchange = λ r endpoint code verifier resources id. ok token;
  fetch_user_info = λ r endpoint access subject transport id. err invalid_state;
  parse_verified = λ raw. raw;
}

abbrev request : Text → Request
request code = record {
  method = codes "GET";
  content_type = [];
  cookies = [];
  form = [];
  query = (codes "state", codes "s") ∷ (codes "code", code) ∷ (codes "iss", codes "op") ∷ [];
}

abbrev response : Text → Response
response code = record { code = code; state = codes "s"; iss = codes "op" }

abbrev spent : Store
spent = record { ttl = 1000; items = [] }

-- The negotiation picks client_secret_basic, the only method of the provider.
abbrev settled : Rp
settled = record client {
  resolved_auth_method = codes "client_secret_basic";
  allow_method_fallback = false;
}

abbrev result : CallbackResult
result = record {
  subject = codes "alice";
  access_token = codes "at";
  user_info = none;
  cnf = [];
  grant_id = [];
  token = token;
  issuer = codes "op";
  verified_claims = [];
}

succeeds :
    handle_callback jose memory_store store client network (some (request (codes "c")))
    ≡ (spent, settled, ok result)
unfolding handle_callback parse_response requires_jarm_response contains is_jarm_response
    extract_params params_of param lookup has_prefix consumed consume_correlation is_expired erase
    with_correlation check_response response_issuer expected_issuer provider_for_callback negotiate
    apply_supported select_auth_method resolve normalize normalize_from preferred method_supported
    method_exact_match validate_resolved complete identify identity result_of user_info uses_openid
    token_endpoint user_info_endpoint uses_mtls validate_id_token decrypt_if_needed count
    validate_parsed outside equal_fold to_lower validate_signed provider_keys trim_space trim_left
    trim_right verify_or_retry verify_signed verify_without_kid scan usable validate_unsecured
    validate_claims unix int64 ◌+ℤ◌ ◌==◌
succeeds = refl

parses :
    parse_response jose settled network (extract_params (request (codes "d")))
    ≡ ok (response (codes "d"))
unfolding parse_response requires_jarm_response contains is_jarm_response extract_params params_of
    param lookup has_prefix to_lower trim_space trim_left trim_right ◌==◌
parses = refl

parses_first :
    parse_response jose client network (extract_params (request (codes "c")))
    ≡ ok (response (codes "c"))
unfolding parse_response requires_jarm_response contains is_jarm_response extract_params params_of
    param lookup has_prefix to_lower trim_space trim_left trim_right ◌==◌
parses_first = refl

asks_openid : uses_openid settled ≡ true
unfolding uses_openid equal_fold to_lower trim_space trim_left trim_right ◌==◌
asks_openid = refl

replay_refused_example :
    handle_callback jose memory_store spent settled network (some (request (codes "d")))
    ≡ (spent, settled, err invalid_state)
replay_refused_example =
    replay_refused jose store spent client settled network network (request (codes "c"))
      (request (codes "d")) result (response (codes "c")) (response (codes "d")) succeeds
      parses_first parses refl (λ e. cc)

callback_issuer_example :
    (resp : Response) × (saved : CallbackCorrelation) × (iss : Text) × (parse_response jose client
        network
        (extract_params (request (codes "c")))
      ≡ ok resp)
    × (consume_correlation store 200 (some (request (codes "c"))) resp.state
        ≡ (spent, ok (some saved)))
    × (response_issuer jose client network (extract_params (request (codes "c"))) resp saved
        ≡ ok iss)
    × (result.issuer ≡ expected_issuer client saved)
    × ((is_jarm_response (extract_params (request (codes "c"))).response ≡ false)
        ⊎ (iss ≡ result.issuer))
    × ((client.validate_response_issuer ≡ false) ⊎ ((iss ≢ []) × (iss ≡ result.issuer)))
callback_issuer_example =
    callback_issuer jose memory_store store spent client settled network (request (codes "c"))
      result succeeds

callback_subject_example :
    (resp : Response) × (saved : CallbackCorrelation) × (p : Provider) × (token' : Token)
    × (parse_response jose client network (extract_params (request (codes "c"))) ≡ ok resp)
    × (consume_correlation store 200 (some (request (codes "c"))) resp.state
        ≡ (spent, ok (some saved)))
    × (provider_for_callback client network (expected_issuer client saved) ≡ (settled, ok p))
    × (network.exchange settled
          (token_endpoint settled p)
          resp.code
          saved.code_verifier
          saved.resources
          (identity settled saved (expected_issuer client saved))
        ≡ ok token')
    × Identified jose settled network p saved
        (identity settled saved (expected_issuer client saved))
        token'
        result
callback_subject_example =
    callback_subject jose memory_store store spent client settled network (request (codes "c"))
      result succeeds asks_openid

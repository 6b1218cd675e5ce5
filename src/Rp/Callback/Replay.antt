-- ===== src/Rp/Callback/Replay.antt =====
-- rp/callback.go: a state is good for one callback.
use mathlib.Core.Path.{subst}
use lanyard.Base.{◌≡◌, sym, ap, ◌∙◌, Text, ◌≢◌, false, some, none, [], ok, err, eq_iff, ◌==◌, arith}
use lanyard.Http.{Request}
use lanyard.Store.{CorrelationStore}
use lanyard.Store.Memory.{Store, consume_correlation}
use lanyard.Store.Memory.Callbacks.{consume_once}
use lanyard.Store.Memory.Implements.{memory_store}
use lanyard.Rp.{Rp, invalid_state}
use lanyard.Rp.Jose.{Jose}
use lanyard.Rp.Callback.{
  CallbackResult, Network, Response, extract_params, parse_response, consumed, handle_callback,
}
use lanyard.Rp.Callback.Steps.{handle_callback-Steps}

not_empty : (t : Text) → t ≢ [] → (t == []) ≡ false
not_empty t h = ground (arith, eq_iff t [])

module _ (j : Jose) (store : CorrelationStore) (s : store.S) (r : Rp) (net : Network)
    (req : Request) (resp : Response) where
  reaches :
      parse_response j r net (extract_params req) ≡ ok resp
      → (resp.state == []) ≡ false
      → (resp.code == []) ≡ false
      → handle_callback j store s r net (some req)
        ≡ consumed j store s r net req (extract_params req) resp
  unfolding handle_callback
  reaches parsed state code = rw (parsed, handle_callback) (rw (state, code))

  consumed_gone :
      store.consume s net.store_time (some req) resp.state ≡ (s, ok none)
      → consumed j store s r net req (extract_params req) resp ≡ (s, r, err invalid_state)
  unfolding consumed
  consumed_gone gone = rw (ap (λ p. p.1) gone, consumed) (ground arith)

-- Over the memory store. After a callback has succeeded, any callback fails with ErrInvalidState and
-- changes nothing, if its response can be parsed, has the same state and a code that is not empty:
-- whatever that code is, whatever its browser and its time, and whatever the network answers.
pub replay_refused :
    (j : Jose) (s s' : Store) (r r' : Rp) (net net' : Network) (req req' : Request)
    (result : CallbackResult) (resp resp' : Response)
    → handle_callback j memory_store s r net (some req) ≡ (s', r', ok result)
    → parse_response j r net (extract_params req) ≡ ok resp
    → parse_response j r' net' (extract_params req') ≡ ok resp'
    → resp'.state ≡ resp.state
    → resp'.code ≢ []
    → handle_callback j memory_store s' r' net' (some req') ≡ (s', r', err invalid_state)
replay_refused j s s' r r' net net' req req' result resp resp' h parsed parsed' same code =
    let st = handle_callback-Steps j memory_store s s' r r' net req result h in
    let one : ok st.resp ≡ ok resp = sym st.parsed ∙ parsed in
    let state : st.resp.state ≡ resp'.state = ground arith in
    let gone =
      consume_once s s' net.store_time net'.store_time (some req) (some req') st.resp.state st.saved
        st.taken in
    let gone' : consume_correlation s' net'.store_time (some req') resp'.state ≡ (s', ok none) =
      subst (λ x. consume_correlation s' net'.store_time (some req') x ≡ (s', ok none)) state
        gone in
    let has_state : (resp'.state == []) ≡ false =
      not_empty resp'.state (λ e. st.has_state (state ∙ e)) in
    reaches j memory_store s' r' net' req' resp' parsed' has_state (not_empty resp'.code code)
    ∙ consumed_gone j memory_store s' r' net' req' resp' gone'

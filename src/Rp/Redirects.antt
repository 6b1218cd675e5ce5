-- ===== src/Rp/Redirects.antt =====
-- rp/http.go: which redirects of a request with credentials are followed.
use lanyard.Base.{
  ◌≤◌, ◌<◌, ◌≡◌, refl, ◌∙◌, false, not, ◌&&◌, List, [], ◌∷◌, Text, codes, ◌==◌, eq_iff, leb, length,
  arith, Except, ok, ◌>>◌, fail_if, fail_if-ok,
}
use lanyard.Metadata.Validate.{Url}

pub data RedirectError : Type 0 where
  too_many insecure_scheme other_origin refused : RedirectError

-- The CheckRedirect of `doSensitiveRequest`, with the policy of the given client: `via` are the
-- requests before it, of which `previous` is the last.
unfoldable pub check_redirect :
    (Url → List Url → Except RedirectError (Unit {0}))
    → Url
    → Url
    → List Url
    → Except RedirectError (Unit {0})
check_redirect consumer next previous via = do
  fail_if (leb 10 (length (previous ∷ via))) too_many
  fail_if (previous.scheme == codes "https" && not (next.scheme == codes "https")) insecure_scheme
  fail_if (not (next.host == previous.host)) other_origin
  consumer next (previous ∷ via)

-- The requests that http.Client makes for one call, the last one first: it follows a redirect only
-- where CheckRedirect lets it.
pub data Requests (consumer : Url → List Url → Except RedirectError (Unit {0}))
    : List Url → Type 0 where
  first : (u : Url) → Requests consumer (u ∷ [])
  follows :
      (next previous : Url) (via : List Url)
      → Requests consumer (previous ∷ via)
      → check_redirect consumer next previous via ≡ ok tt
      → Requests consumer (next ∷ previous ∷ via)

-- The request that the call was made with, of a list that is not empty.
abbrev pub original : Url → List Url → Url
original u [] = u
original u (v ∷ us) = original v us

abbrev pub AllHost : Text → List Url → Type 0
AllHost host [] = Unit
AllHost host (u ∷ us) = (u.host ≡ host) × AllHost host us

abbrev pub AllTls : List Url → Type 0
AllTls [] = Unit
AllTls (u ∷ us) = (u.scheme ≡ codes "https") × AllTls us

-- What CheckRedirect asks of the next request.
check_redirect-ok :
    (consumer : Url → List Url → Except RedirectError (Unit {0})) (next previous : Url)
    (via : List Url)
    → check_redirect consumer next previous via ≡ ok tt
    → (length (previous ∷ via) < 10)
      × ((previous.scheme == codes "https" && not (next.scheme == codes "https")) ≡ false)
      × (next.host ≡ previous.host)
unfolding check_redirect
check_redirect-ok consumer next previous via h =
    let (a, h1) = fail_if-ok (leb 10 (length (previous ∷ via))) too_many _ h in
    let (b, h2) =
      fail_if-ok (previous.scheme == codes "https" && not (next.scheme == codes "https"))
        insecure_scheme _ h1 in
    let (c, h3) = fail_if-ok (not (next.host == previous.host)) other_origin _ h2 in
    (ground arith, b, ground (arith, eq_iff next.host previous.host))

keeps_tls :
    (s t : Text)
    → (s == codes "https" && not (t == codes "https")) ≡ false
    → s ≡ codes "https"
    → t ≡ codes "https"
keeps_tls s t h e = ground (arith, eq_iff s (codes "https"), eq_iff t (codes "https"))

-- Whatever the servers answer and the client's own policy allows, one call makes at most ten requests,
-- all to the host of the first.
pub redirects_stay :
    (consumer : Url → List Url → Except RedirectError (Unit {0})) (u : Url) (us : List Url)
    → Requests consumer (u ∷ us)
    → (length (u ∷ us) ≤ 10) × AllHost (original u us).host (u ∷ us)
redirects_stay consumer _ _ (first u) = (omega arith, (refl, tt))
redirects_stay consumer _ _ (follows next previous via r c) =
    let (few, sec, host) = check_redirect-ok consumer next previous via c in
    let (some_more, there) = redirects_stay consumer previous via r in
    (omega arith, (host ∙ there.0, there))

-- A call over TLS stays on TLS.
pub redirects_tls :
    (consumer : Url → List Url → Except RedirectError (Unit {0})) (u : Url) (us : List Url)
    → Requests consumer (u ∷ us)
    → (original u us).scheme ≡ codes "https"
    → AllTls (u ∷ us)
redirects_tls consumer _ _ (first u) h = (h, tt)
redirects_tls consumer _ _ (follows next previous via r c) h =
    let (few, sec, host) = check_redirect-ok consumer next previous via c in
    let there = redirects_tls consumer previous via r h in
    (keeps_tls previous.scheme next.scheme sec there.0, there)

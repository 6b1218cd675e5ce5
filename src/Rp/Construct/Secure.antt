-- ===== src/Rp/Construct/Secure.antt =====
-- rp/rp.go with metadata/discovery.go: the endpoints of the provider that New settles on.
use lanyard.Base.{Bool, not, ◌&&◌, Option, none, some, Text, Except, ok, err}
use lanyard.Http.{Time}
use lanyard.Metadata.{Provider, AuthorizationServer}
use lanyard.Metadata.Discovery.{Urls, Client, Response, discover_provider}
use lanyard.Rp.{Rp}
use lanyard.Rp.Defaults.{is_complete}

-- A document of which only a part is configured, which discovery completes.
abbrev pub is_partial : Rp → Bool
is_partial r = r.configured_provider_set && not (is_complete r.configured_provider)

abbrev answered : {E A : Type 0} → Except E A → Option A
answered (ok a) = some a
answered (err e) = none

module _ (urls : Urls) (is_object : Text → Bool) (c : Client) (now fetched : Time)
    (server : Text → Text → Option (Response Provider))
    (discover_server : Text → Option AuthorizationServer) where
  -- `DiscoverProvider` of the metadata client.
  abbrev pub discovery : Text → Option Provider
  discovery issuer = answered (discover_provider urls c now fetched issuer server).1

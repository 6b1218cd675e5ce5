-- ===== src/Metadata/Discovery/Revalidate.antt =====
-- metadata/discovery.go: a stale document is served while it is refreshed, and then replaced.
use lanyard.Base.{◌++◌, Text}
use lanyard.Base.Maps.{insert}
use lanyard.Metadata.Discovery.{CacheEntry, Client, Job, Urls, provider_options}

module _ (urls : Urls) where
  abbrev pub job_of : Text → CacheEntry → Job
  job_of issuer e = record {
    issuer = issuer;
    key = (provider_options urls).prefix ++ issuer;
    existing = e;
  }

  abbrev stored : Client → Text → CacheEntry → Client
  stored c issuer new = record c {
    cache = insert ((provider_options urls).prefix ++ issuer) new c.cache;
  }

-- ===== src/Rp/Merge/Safe.antt =====
-- rp/rp.go: merging keeps the endpoints secure.
use lanyard.Base.{◌≡◌, true, refl, Option, Text, List, [], ◌∷◌, all, arith}
use lanyard.Metadata.{Provider}
use lanyard.Metadata.Validate.{Url, endpoints}
use lanyard.Metadata.Validate.Endpoints.{safe}
use lanyard.Rp.Merge.{
  MergeMode, fill_missing, override_present, merge_text, merge_provider, merge_aliases,
}

module _ (parse : Text → Option Url) where
  safe-merge_text :
      (mode : MergeMode) (field dst src : Text)
      → safe parse (field, dst) ≡ true
      → safe parse (field, src) ≡ true
      → safe parse (field, merge_text mode dst src) ≡ true
  safe-merge_text fill_missing field dst src h k = ground arith
  safe-merge_text override_present field dst src h k = ground arith

  uncons :
      (e : Text × Text) (es : List (Text × Text))
      → all (safe parse) (e ∷ es) ≡ true
      → (safe parse e ≡ true) × (all (safe parse) es ≡ true)
  uncons e es h = ground arith

  merge_endpoints : MergeMode → List (Text × Text) → List (Text × Text) → List (Text × Text)
  merge_endpoints mode ((field, dst) ∷ ds) ((_, src) ∷ ss) =
      (field, merge_text mode dst src) ∷ merge_endpoints mode ds ss
  merge_endpoints mode [] _ = []
  merge_endpoints mode (_ ∷ _) [] = []

  all-safe-merge_endpoints :
      (mode : MergeMode) (ds ss : List (Text × Text))
      → all (safe parse) ds ≡ true
      → all (safe parse) ss ≡ true
      → all (safe parse) (merge_endpoints mode ds ss) ≡ true
  unfolding merge_endpoints
  all-safe-merge_endpoints mode ((field, dst) ∷ ds) ((name, src) ∷ ss) h k =
      let (dst_safe, ds_safe) = uncons (field, dst) ds h in
      let (src_safe, ss_safe) = uncons (name, src) ss k in
      let here = safe-merge_text mode field dst src dst_safe src_safe in
      let there = all-safe-merge_endpoints mode ds ss ds_safe ss_safe in ground arith
  all-safe-merge_endpoints mode [] _ h k = refl
  all-safe-merge_endpoints mode (_ ∷ _) [] h k = refl

  -- Where every endpoint of both documents is absent or secure, so is every endpoint of the merged one.
  pub safe-merge_provider :
      (mode : MergeMode) (dst src : Provider)
      → all (safe parse) (endpoints dst) ≡ true
      → all (safe parse) (endpoints src) ≡ true
      → all (safe parse) (endpoints (merge_provider mode dst src)) ≡ true
  unfolding merge_provider merge_aliases merge_endpoints
  safe-merge_provider mode dst src h k =
      all-safe-merge_endpoints mode (endpoints dst) (endpoints src) h k

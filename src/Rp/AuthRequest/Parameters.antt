-- ===== src/Rp/AuthRequest/Parameters.antt =====
-- rp/par.go: the parameters of an authorization request are its own.
use mathlib.Core.Path.{subst}
use lanyard.Base.{
  ◌≡◌, refl, ap, sym, ◌∙◌, inl, inr, Bool, true, false, not, Option, none, some, List, [], ◌∷◌,
  ◌++◌, Text, codes, ◌==◌, eq_iff, trim_space, Bool-cases, if◌then◌else◌,
}
use lanyard.Base.Maps.{lookup, insert, lookup-insert, lookup-insert_self}
use lanyard.Rp.{Rp}
use lanyard.Rp.RequestObject.{
  Values, values_of, get, set, add, set_if, add_each, add_all, apply_grant, Asked,
  GrantManagementRequest,
}
use lanyard.Rp.AuthRequest.{authorization_parameters, early_parameters}

-- The first value under a key.
abbrev First : Text → Text → Values → Type 0
First k x vs = (rest : List Text) × (values_of k vs ≡ x ∷ rest)

First-get : (k x : Text) (vs : Values) → First k x vs → get k vs ≡ x
First-get k x vs (rest, q) = rw q refl

abbrev or_none : Option (List Text) → List Text
or_none o = elim o [ none ↦ [] | some v ↦ v ]

values_of-insert_self :
    (k : Text) (new : List Text) (vs : Values) → values_of k (insert k new vs) ≡ new
values_of-insert_self k new vs = ap or_none (lookup-insert_self k new vs)

values_of-insert_other :
    (j k : Text) (new : List Text) (vs : Values)
    → (j == k) ≡ false
    → values_of k (insert j new vs) ≡ values_of k vs
values_of-insert_other j k new vs other =
    ap or_none (lookup-insert j k new vs ∙ ap (λ b. if b then some new else lookup k vs) other)

pub first-set : (k x : Text) (vs : Values) → get k (set k x vs) ≡ x
first-set k x vs = First-get k x (set k x vs) ([], values_of-insert_self k (x ∷ []) vs)

insert-First :
    (j k x : Text) (new : List Text) (vs : Values)
    → (j == k) ≡ false
    → First k x vs
    → First k x (insert j new vs)
insert-First j k x new vs other (rest, q) = (rest, values_of-insert_other j k new vs other ∙ q)

-- `Add` appends, so a first value stays.
add_self-First : (k x v : Text) (vs : Values) → First k x vs → First k x (add k v vs)
add_self-First k x v vs (rest, q) =
    (rest ++ v ∷ [], values_of-insert_self k _ vs ∙ ap (λ l. l ++ v ∷ []) q)

add-First : (j k x v : Text) (vs : Values) → First k x vs → First k x (add j v vs)
add-First j k x v vs f = elim (Bool-cases (j == k)) [
  | inl same ↦
      subst (λ i. First k x (add i v vs)) (sym ((eq_iff j k).0 same)) (add_self-First k x v vs f)
  | inr other ↦ insert-First j k x (values_of j vs ++ v ∷ []) vs other f
]

add_each-First :
    (j k x : Text) (vs : List Text) (m : Values) → First k x m → First k x (add_each j vs m)
unfolding add_each
add_each-First j k x [] m f = f
add_each-First j k x (v ∷ vs) m f = add_each-First j k x vs (add j v m) (add-First j k x v m f)

add_all-First : (k x : Text) (extra m : Values) → First k x m → First k x (add_all extra m)
unfolding add_all
add_all-First k x [] m f = f
add_all-First k x ((j, vs) ∷ extra) m f =
    add_all-First k x extra (add_each j vs m) (add_each-First j k x vs m f)

set_if-First :
    (b : Bool) (j k x v : Text) (m : Values)
    → (j == k) ≡ false
    → First k x m
    → First k x (set_if b j v m)
set_if-First true j k x v m other f = insert-First j k x (v ∷ []) m other f
set_if-First false j k x v m other f = f

apply_grant-First :
    (g : Option GrantManagementRequest) (k x : Text) (m : Values)
    → (codes "grant_id" == k) ≡ false
    → (codes "grant_management_action" == k) ≡ false
    → First k x m
    → First k x (apply_grant g m)
unfolding apply_grant
apply_grant-First none k x m a b f = f
apply_grant-First (some g) k x m a b f =
    set_if-First _ (codes "grant_id") k x g.grant_id _ a
      (set_if-First _ (codes "grant_management_action") k x g.action m b f)

-- The parameters that a callback or the provider rely on.
pub record Sent (r : Rp) (state nonce challenge : Text) (vs : Values) : Type 0 where
  pub own_state : get (codes "state") vs ≡ state
  pub own_nonce : get (codes "nonce") vs ≡ nonce
  pub own_challenge : get (codes "code_challenge") vs ≡ challenge
  pub own_method : get (codes "code_challenge_method") vs ≡ codes "S256"
  pub own_client : get (codes "client_id") vs ≡ r.client_id
  pub own_redirect : get (codes "redirect_uri") vs ≡ r.redirect_uri

-- Keys that are added after `code_challenge_method`.
record Early (k : Text) : Type 0 where
  no_mode : (codes "response_mode" == k) ≡ false
  no_details : (codes "authorization_details" == k) ≡ false
  no_id : (codes "grant_id" == k) ≡ false
  no_action : (codes "grant_management_action" == k) ≡ false
  no_claims : (codes "claims" == k) ≡ false

late-First :
    (r : Rp) (a : Asked) (k x : Text) (m : Values)
    → Early k
    → First k x m
    → First k x (
        add_all a.parameters (
          set_if (not (trim_space a.claims == [])) (codes "claims") a.claims (
            apply_grant a.grant (
              add_each (codes "resource") a.resources (
                set_if
                  (not (trim_space a.authorization_details == []))
                  (codes "authorization_details")
                  a.authorization_details
                  (set_if
                    (not (trim_space r.response_mode == []))
                    (codes "response_mode")
                    r.response_mode
                    m))))))
late-First r a k x m e f = add_all-First k x a.parameters _ (
    set_if-First _ (codes "claims") k x a.claims _ e.no_claims (
      apply_grant-First a.grant k x _ e.no_id e.no_action (
        add_each-First (codes "resource") k x a.resources _ (
          set_if-First _ (codes "authorization_details") k x a.authorization_details _ e.no_details
            (set_if-First _ (codes "response_mode") k x r.response_mode m e.no_mode f)))))

-- Extra parameters, resources and claims are added behind the request's own: whatever they are named,
-- the first state, nonce, challenge, challenge method, client and redirect URI are those of the request.
pub authorization_parameters-Sent :
    (r : Rp) (a : Asked) → Sent r a.state a.nonce a.challenge (authorization_parameters r a)
unfolding authorization_parameters ◌==◌ lookup insert
authorization_parameters-Sent r a = record {
  own_state =
      own (codes "state") a.state
        (record {
          no_mode = refl;
          no_details = refl;
          no_id = refl;
          no_action = refl;
          no_claims = refl;
        })
        ([], refl);
  own_nonce =
      own (codes "nonce") a.nonce
        (record {
          no_mode = refl;
          no_details = refl;
          no_id = refl;
          no_action = refl;
          no_claims = refl;
        })
        ([], refl);
  own_challenge =
      own (codes "code_challenge") a.challenge
        (record {
          no_mode = refl;
          no_details = refl;
          no_id = refl;
          no_action = refl;
          no_claims = refl;
        })
        ([], refl);
  own_method =
      own (codes "code_challenge_method") (codes "S256")
        (record {
          no_mode = refl;
          no_details = refl;
          no_id = refl;
          no_action = refl;
          no_claims = refl;
        })
        ([], refl);
  own_client =
      own (codes "client_id") r.client_id
        (record {
          no_mode = refl;
          no_details = refl;
          no_id = refl;
          no_action = refl;
          no_claims = refl;
        })
        ([], refl);
  own_redirect =
      own (codes "redirect_uri") r.redirect_uri
        (record {
          no_mode = refl;
          no_details = refl;
          no_id = refl;
          no_action = refl;
          no_claims = refl;
        })
        ([], refl);
}
  where
    own :
        (k x : Text)
        → Early k
        → First k x (early_parameters r a)
        → get k (authorization_parameters r a) ≡ x
    own k x e f =
        First-get k x (authorization_parameters r a) (late-First r a k x (early_parameters r a) e f)

-- ===== src/Market/Effects/Access.antt =====
-- What opens and closes access: challenges are used once, and nothing that has expired is usable
-- (`consumeChallenge`, `listResourceQuotes`, `accessGrant`, `transitionAccessGrant` and
-- `createResourceReceipt` of src/server/production/memory-store.ts).
use machina_sol.Prelude.{
  List, [], ◌∷◌, ◌⊎◌, String, ◌≡◌, refl, ap, ◌∙◌, subst, inl, inr, Bool, true, false, not, ◌&&◌,
  ◌||◌, Option, none, some, arith, is_some, ◌==◌, eq_iff, Option-cases, if_cases, option_cases,
  text_le, some_inj,
}
use machina_sol.Dict.{Dict, get, put}
use machina_sol.Dict.Laws.{get-put, get-put_self, get-update_where}
use machina_sol.Store.Types.{
  WalletChallengeRecord, PersistentResourceRequest, PersistentResourceQuote, PersistentAccessGrant,
  ResourceRequestState, ResourceQuoteState, AccessGrantState,
}
use machina_sol.Store.State.{Env, ProductionStore, is_expired, is_offered, is_live_grant}
use machina_sol.Number.{Number}
use machina_sol.Store.Auth.{is_active_challenge, active_challenge, consume_challenge}
use machina_sol.Store.Quotes.{expire_offers, list_resource_quotes}
use machina_sol.Store.Grants.{
  access_grant, may_become, same_grant_state, is_active_grant, is_accepted_request, follow_grant,
  advance_request, put_grant_state, transition_access_grant, has_live_receipt, is_granted_request,
  release_request,
}

-- An attempt to consume a challenge, by whomever and whenever.
pub record Attempt : Type 0 where
  pub id : String
  pub wallet : String
  pub now : String

-- The store after attempts, one after the other.
unfoldable pub tried : List Attempt → ProductionStore → ProductionStore
tried [] s = s
tried (a ∷ attempts) s = tried attempts (consume_challenge s a.id a.wallet a.now).0

-- No challenge with the id can be consumed: there is none, or it was consumed.
unfoldable pub is_spent : String → Dict WalletChallengeRecord → Bool
is_spent id m = elim (get id m) [ none ↦ true | some c ↦ is_some c.consumed_at ]

is_spent-put :
    (id k : String) (c : WalletChallengeRecord) (m : Dict WalletChallengeRecord)
    → is_spent id m ≡ true
    → (is_some c.consumed_at ≡ true) ⊎ ((k == id) ≡ false)
    → is_spent id (put k c m) ≡ true
unfolding is_spent
is_spent-put id k c m h why = ground (arith, get-put id k c m)

consume-spent :
    (s : ProductionStore) (id other wallet now : String)
    → is_spent id s.challenges ≡ true
    → is_spent id (consume_challenge s other wallet now).0.challenges ≡ true
unfolding consume_challenge
consume-spent s id other wallet now h =
    option_cases P (get other s.challenges) _ _ (λ _. h)
      λ found e.
        if_cases P
          (not (found.wallet_address == wallet)
            || (is_some found.consumed_at || text_le found.expires_at now))
          _ _ (λ _. h)
          (λ _.
            is_spent-put id other (record found { consumed_at = some now }) s.challenges h
              (inl refl))
  where
    P : ProductionStore × Option WalletChallengeRecord → Type 0
    P t = is_spent id t.0.challenges ≡ true

tried-spent :
    (id : String) (attempts : List Attempt) (s : ProductionStore)
    → is_spent id s.challenges ≡ true
    → is_spent id (tried attempts s).challenges ≡ true
unfolding tried
tried-spent id [] s h = h
tried-spent id (a ∷ attempts) s h =
    tried-spent id attempts (consume_challenge s a.id a.wallet a.now).0
      (consume-spent s id a.id a.wallet a.now h)

spent-refused :
    (s : ProductionStore) (id wallet now : String)
    → is_spent id s.challenges ≡ true
    → (consume_challenge s id wallet now).1 ≡ none
unfolding consume_challenge is_spent
spent-refused s id wallet now h = ground arith

-- A consumption that succeeds leaves the challenge spent.
pub consumed-spent :
    (s : ProductionStore) (id wallet now : String) (c : WalletChallengeRecord)
    → (consume_challenge s id wallet now).1 ≡ some c
    → is_spent id (consume_challenge s id wallet now).0.challenges ≡ true
unfolding consume_challenge is_spent
consumed-spent s id wallet now c =
    option_cases P (get id s.challenges) _ _ (λ _ h. absurd (ground arith))
      λ found e.
        if_cases P
          (not (found.wallet_address == wallet)
            || (is_some found.consumed_at || text_le found.expires_at now))
          _ _ (λ _ h. absurd (ground arith))
          (λ _ _.
            ground (arith, get-put_self id (record found { consumed_at = some now }) s.challenges))
  where
    P : ProductionStore × Option WalletChallengeRecord → Type 0
    P t = t.1 ≡ some c → is_spent id t.0.challenges ≡ true

-- A wallet challenge is consumed at most once: after a success every later attempt answers none,
-- whatever the wallet and the time, and whatever other attempts come in between, on this challenge
-- and on others.
pub consume_challenge-once :
    (s : ProductionStore) (id wallet now : String) (c : WalletChallengeRecord)
    (attempts : List Attempt) (other later : String)
    → (consume_challenge s id wallet now).1 ≡ some c
    → (consume_challenge (tried attempts (consume_challenge s id wallet now).0) id other later).1
      ≡ none
consume_challenge-once s id wallet now c attempts other later h =
    spent-refused (tried attempts (consume_challenge s id wallet now).0) id other later (
      tried-spent id attempts (consume_challenge s id wallet now).0
        (consumed-spent s id wallet now c h))

-- The read before the signature check and the consumption after it agree: whoever sees an active
-- challenge consumes it, and whoever sees none cannot.
pub consume_challenge-active :
    (s : ProductionStore) (id wallet now : String)
    → is_some (consume_challenge s id wallet now).1 ≡ is_some (active_challenge s id wallet now)
unfolding consume_challenge active_challenge is_active_challenge
consume_challenge-active s id wallet now = elim (Option-cases (get id s.challenges)) [
  | inl absent ↦ ground arith
  | inr (c, found) ↦ unfold text_le in ground arith
]

-- A grant that a party reads is never live past its date.
pub access_grant-fresh :
    (env : Env) (s : ProductionStore) (user request_id now : String) (g : PersistentAccessGrant)
    → (access_grant env s user request_id now).1 ≡ some g
    → is_live_grant g.state ≡ true
    → is_expired g.expires_at now ≡ false
unfolding access_grant
access_grant-fresh env s user request_id now g h live = ground arith

no_stale_offer :
    (k request_id now : String) (m : Dict PersistentResourceQuote) (q : PersistentResourceQuote)
    → get k (expire_offers request_id none now m) ≡ some q
    → q.resource_request_id ≡ request_id
    → is_offered q.state ≡ true
    → is_expired q.expires_at now ≡ false
unfolding expire_offers
no_stale_offer k request_id now m q f for offered = elim (Option-cases (get k m)) [
  | inl absent ↦ absurd (
      ground (
        arith,
        get-update_where k
            (λ _ q.
              q.resource_request_id == request_id
              && ((true) && (is_offered q.state && is_expired q.expires_at now)))
            (λ q. record q { state = ResourceQuoteState.expired; updated_at = now }) m,
      ))
  | inr (v, found) ↦ ground (
    arith,
    eq_iff v.resource_request_id request_id,
    get-update_where k
        (λ _ q.
          q.resource_request_id == request_id
          && ((true) && (is_offered q.state && is_expired q.expires_at now)))
        (λ q. record q { state = ResourceQuoteState.expired; updated_at = now }) m,
  )
]

-- The listing of a request's quotes leaves no offer for it that is past its date.
pub list_resource_quotes-fresh :
    (env : Env) (s : ProductionStore) (user request_id : String) (limit : Option Number)
    (now : String) (request : PersistentResourceRequest) (k : String) (q : PersistentResourceQuote)
    → get request_id s.requests ≡ some request
    → request.owner_user_id ≡ user
    → get k (list_resource_quotes env s user request_id limit now).0.quotes ≡ some q
    → q.resource_request_id ≡ request_id
    → is_offered q.state ≡ true
    → is_expired q.expires_at now ≡ false
unfolding list_resource_quotes
list_resource_quotes-fresh env s user request_id limit now request k q e owner f for offered =
    ground (arith, eq_iff request.owner_user_id user, no_stale_offer k request_id now s.quotes q)

-- What a provider's change of a grant means.
pub record IsGrantChange (s t : ProductionStore) (user grant_id : String)
    (from to : AccessGrantState) (now : String) (grant : PersistentAccessGrant) : Type 0 where
  pub was :
      (g : PersistentAccessGrant) × (get grant_id s.grants ≡ some g)
      × (g.provider_owner_user_id ≡ user)
      × (g.state ≡ from)
      × (may_become from to ≡ true)
  pub becomes : grant.state ≡ to
  pub stored : get grant_id t.grants ≡ some grant
  -- No access becomes active past its date.
  pub active_is_fresh : to ≡ AccessGrantState.active → is_expired grant.expires_at now ≡ false

same_grant_state-eq : (a b : AccessGrantState) → same_grant_state a b ≡ true → a ≡ b
same_grant_state-eq a b h = ground arith

-- Changing a request leaves the grants.
advance_request-grants :
    (test : ResourceRequestState → Bool) (to : ResourceRequestState) (request_id now : String)
    (s : ProductionStore)
    → (advance_request test to request_id now s).grants ≡ s.grants
unfolding advance_request
advance_request-grants test to request_id now s =
    option_cases (λ (t : ProductionStore). t.grants ≡ s.grants) (get request_id s.requests) _ _
      (λ _. refl)
      λ r _.
        if_cases (λ (t : ProductionStore). t.grants ≡ s.grants) (test r.state) _ _ (λ _. refl)
          (λ _. refl)

follow_grant-grants :
    (to : AccessGrantState) (request_id now : String) (s : ProductionStore)
    → (follow_grant to request_id now s).grants ≡ s.grants
unfolding follow_grant release_request
follow_grant-grants AccessGrantState.pending request_id now s = refl
follow_grant-grants AccessGrantState.active request_id now s =
    advance_request-grants is_accepted_request ResourceRequestState.granted request_id now s
follow_grant-grants AccessGrantState.revoked request_id now s =
    if_cases (λ (t : ProductionStore). t.grants ≡ s.grants) (has_live_receipt s request_id) _ _
      (λ _. refl)
      (λ _.
        advance_request-grants is_granted_request ResourceRequestState.accepted request_id now s)
follow_grant-grants AccessGrantState.expired request_id now s =
    if_cases (λ (t : ProductionStore). t.grants ≡ s.grants) (has_live_receipt s request_id) _ _
      (λ _. refl)
      (λ _.
        advance_request-grants is_granted_request ResourceRequestState.accepted request_id now s)

grant_reply :
    {s t : ProductionStore} {user grant_id : String} {from to : AccessGrantState} {now : String}
    {u v : PersistentAccessGrant}
    → some u ≡ some v
    → IsGrantChange s t user grant_id from to now u
    → IsGrantChange s t user grant_id from to now v
grant_reply {s = s} {t = t} {user = user} {grant_id = grant_id} {from = from} {to = to} {now = now}
      e =
    subst (IsGrantChange s t user grant_id from to now) (some_inj e)

-- A grant that a change answers was its provider's, made one of the allowed moves, is stored, and
-- is not past its date if it is active.
pub transition_access_grant-IsGrantChange :
    (s : ProductionStore) (user grant_id : String) (from to : AccessGrantState) (now : String)
    (grant : PersistentAccessGrant)
    → (transition_access_grant s user grant_id from to now).1 ≡ some grant
    → IsGrantChange s
        (transition_access_grant s user grant_id from to now).0
        user
        grant_id
        from
        to
        now
        grant
unfolding transition_access_grant put_grant_state
transition_access_grant-IsGrantChange s user grant_id from to now grant =
    option_cases P (get grant_id s.grants) _ _ (λ _ h. absurd (ground arith))
      λ g e.
        if_cases P
          (not (g.provider_owner_user_id == user)
            || (not (same_grant_state g.state from) || not (may_become from to)))
          _ _ (λ _ h. absurd (ground arith))
          λ allowed.
            if_cases P (is_active_grant to && is_expired g.expires_at now) _ _
              (λ _ h. absurd (ground arith))
              (λ fresh h. grant_reply h record {
                was = (
                  g,
                  e,
                  ground (arith, eq_iff g.provider_owner_user_id user),
                  ground (arith, same_grant_state-eq g.state from),
                  ground arith,
                );
                becomes = refl;
                stored =
                    ap (get grant_id) (follow_grant-grants to g.resource_request_id now _)
                    ∙ get-put_self grant_id _ s.grants;
                active_is_fresh = λ active. ground arith;
              })
  where
    P : ProductionStore × Option PersistentAccessGrant → Type 0
    P t = t.1 ≡ some grant → IsGrantChange s t.0 user grant_id from to now grant

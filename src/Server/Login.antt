-- ===== src/Server/Login.antt =====
-- What a login and a session rest on (src/server/production/auth.ts).
use machina_sol.Prelude.{
  ℕ, suc, String, Bool, true, Option, none, some, List, [], ◌∷◌, ◌++◌, find, is_some, text_lt, ◌≡◌,
  refl, ap, ◌∙◌, subst, inl, inr, find-eq-some, arith, eq_iff, Option-cases, if_cases, some_inj,
}
use machina_sol.Texts.{trim_text}
use machina_sol.Dict.{get, values}
use machina_sol.Dict.Laws.{get-put_self}
use machina_sol.Store.Types.{WalletChallengeRecord, AuthSessionRecord}
use machina_sol.Store.State.{ProductionStore}
use machina_sol.Store.Auth.{
  active_challenge, consume_challenge, create_authenticated_session, session_by_token_hash,
}
use machina_sol.Market.Effects.Access.{is_spent, consumed-spent}
use machina_sol.Server.World.{State, Outside, done, ◌>>=◌, require, now, read, ensure, pure}
use machina_sol.Server.Http.{Request}
use machina_sol.Server.Auth.{
  Login, verify, verify_solana_message_signature, authenticate, csrf_valid, session_token_of,
}
use machina_sol.Server.Ensures.{
  Predicate, AnswersIn, Ensures, KeptByOthers, Ensures-bind, Ensures-ensure, Ensures-uuid,
  Ensures-opaque_token, Ensures-limit, Ensures-require, Ensures-read, Ensures-change, Ensures-pure,
  Ensures-from,
}

-- The wallet signed the message of a challenge that was active for it, in a store that has `J`.
pub record IsSigned (o : Outside) (J : Predicate) (id wallet signature at : String) : Type 0 where
  pub challenge : WalletChallengeRecord
  pub found : (s : ProductionStore) × J s × (active_challenge s id wallet at ≡ some challenge)
  pub signed : verify_solana_message_signature o wallet signature challenge.message ≡ true

-- The store that a login leaves: the challenge is spent, and the session is stored.
abbrev pub IsLoggedIn : String → String → AuthSessionRecord → Predicate
IsLoggedIn id wallet session s =
    (is_spent id s.challenges ≡ true)
    × (get session.id s.sessions ≡ some session)
    × (session.wallet_address ≡ wallet)

abbrev Spent : String → Predicate
Spent id s = is_spent id s.challenges ≡ true

-- The consumption, which may fail.
abbrev Consumed : String → Option WalletChallengeRecord → Predicate
Consumed id c s = is_some c ≡ true → Spent id s

consume-Consumed :
    (id wallet at : String) (s : ProductionStore)
    → Consumed id (consume_challenge s id wallet at).1 (consume_challenge s id wallet at).0
consume-Consumed id wallet at s h = elim (Option-cases (consume_challenge s id wallet at).1) [
  | inl absent ↦ absurd (ground arith)
  | inr (c, taken) ↦ consumed-spent s id wallet at c taken
]

saved-IsLoggedIn :
    (id wallet : String) (proposed : AuthSessionRecord) (s : ProductionStore)
    → Spent id s
    → IsLoggedIn id wallet
        (create_authenticated_session s proposed wallet).1
        (create_authenticated_session s proposed wallet).0
unfolding create_authenticated_session
saved-IsLoggedIn id wallet proposed s spent = (spent, get-put_self proposed.id _ s.sessions, refl)

verify_lem :
    (o : Outside) (J : Predicate) (id wallet signature : String) (req : Request) (at : ℕ)
    → KeptByOthers o J
    → KeptByOthers o (Spent (trim_text id))
    → Ensures J
        (verify o id wallet signature req at)
        (λ login.
          IsSigned o J (trim_text id) (trim_text wallet) (trim_text signature) (o.dates.iso at))
        (λ login. IsLoggedIn (trim_text id) (trim_text wallet) login.session)
unfolding verify
verify_lem o J id wallet signature req at kept spent_kept =
    Ensures-bind _ _ (Ensures-limit o _ _ _) λ _ _. Ensures-bind _ _ (Ensures-limit o _ _ _) λ _ _.
      Ensures-bind _ _ (Ensures-limit o _ _ _) λ _ _. Ensures-bind _ _ (Ensures-ensure _ _ _) λ _ _.
        Ensures-bind _ _ (Ensures-read o _ kept) λ active (s, here, read').
          Ensures-bind _ _ (Ensures-require active _ _) λ c found.
            Ensures-bind _ _ (Ensures-ensure _ _ _) λ _ signed.
              Ensures-bind _ _
                (Ensures-change o _ (Consumed (trim_text id)) kept
                  (λ s _. consume-Consumed (trim_text id) (trim_text wallet) (o.dates.iso at) s))
                λ consumed _. Ensures-bind _ _ (Ensures-require consumed _ _) λ c' taken.
                  Ensures-from _ _ _ (λ s spent. spent (ap is_some taken))
                    (Ensures-bind _ _ (Ensures-opaque_token o _) λ _ _.
                      Ensures-bind _ _ (Ensures-opaque_token o _) λ _ _.
                        Ensures-bind _ _ (Ensures-uuid o) λ _ _.
                          Ensures-bind _ _ (Ensures-uuid o) λ _ _.
                            Ensures-bind _ _
                              (Ensures-change o _ (IsLoggedIn (trim_text id) (trim_text wallet))
                                spent_kept (saved-IsLoggedIn (trim_text id) (trim_text wallet) _))
                              λ saved _.
                                Ensures-pure _ _ _
                                  (record {
                                    challenge = c;
                                    found = (s, here, read' ∙ found);
                                    signed = signed;
                                  })
                                  (λ s h. h))

-- A login that succeeds is signed: the wallet signed the message of a challenge that was active for
-- it. `J` tells in which store: whatever holds of the store at the start and is kept by the other
-- requests holds of the store where the challenge was active. Then, if other requests leave a spent
-- challenge spent, the challenge is spent in the store that the login leaves, and the session of the
-- wallet is stored there.
pub verify-IsSigned :
    (o : Outside) (J : Predicate) (id wallet signature : String) (req : Request) (at : ℕ)
    (st : State) (login : Login)
    → KeptByOthers o J
    → KeptByOthers o (λ s. is_spent (trim_text id) s.challenges ≡ true)
    → J st.shared.store
    → (verify o id wallet signature req at st).1 ≡ done login
    → IsSigned o J (trim_text id) (trim_text wallet) (trim_text signature) (o.dates.iso at)
      × IsLoggedIn
          (trim_text id)
          (trim_text wallet)
          login.session
          (verify o id wallet signature req at st).0.shared.store
verify-IsSigned o J id wallet signature req at st login kept spent_kept start e =
    subst
      (λ r.
        AnswersIn
          (λ login.
            IsSigned o J (trim_text id) (trim_text wallet) (trim_text signature) (o.dates.iso at))
          (λ login. IsLoggedIn (trim_text id) (trim_text wallet) login.session)
          ((verify o id wallet signature req at st).0, r))
      e ((verify_lem o J id wallet signature req at kept spent_kept).at st start)

-- What is in a list stands somewhere in it.
abbrev pub IsIn {ℓ} : {A : Type ℓ} → A → List A → Type ℓ
IsIn {A = A} x xs = (before after : List A) × (xs ≡ before ++ (x ∷ after))

IsIn-later : {A : Type 0} (x y : A) (xs : List A) → IsIn x xs → IsIn x (y ∷ xs)
IsIn-later x y xs (before, after, e) = (y ∷ before, after, ap (λ zs. y ∷ zs) e)

find-IsIn : {A : Type 0} (p : A → Bool) (xs : List A) (x : A) → find p xs ≡ some x → IsIn x xs
unfolding find
find-IsIn p [] x = λ h. absurd (ground arith)
find-IsIn p (y ∷ xs) x =
    if_cases (λ o. o ≡ some x → IsIn x (y ∷ xs)) (p y) _ _
      (λ _ h. ([], xs, ap (λ z. z ∷ xs) (some_inj h)))
      (λ _ h. IsIn-later x y xs (find-IsIn p xs x h))

-- What a session that is let in has been checked for, at the clock and in the store of the request.
pub record IsLive (o : Outside) (req : Request) (require_csrf : Bool) (st : State)
    (session : AuthSessionRecord) : Type 0 where
  pub token : String
  pub sent : session_token_of req ≡ some token
  pub hashed : session.token_hash ≡ o.sha256 token
  -- The session stands in the store as the other requests left it.
  pub stored : IsIn session (values (o.others (suc st.moment) st.shared).store.sessions)
  pub standing : session.revoked_at ≡ none
  -- The clock, read before the store, is not at the end of the session.
  pub lasting : text_lt (o.dates.iso (o.clock st.moment)) session.expires_at ≡ true
  pub csrf : require_csrf ≡ true → csrf_valid o session req ≡ true

live_session :
    (s : ProductionStore) (hash now : String) (session : AuthSessionRecord)
    → session_by_token_hash s hash now ≡ some session
    → IsIn session (values s.sessions)
      × (session.token_hash ≡ hash)
      × (session.revoked_at ≡ none)
      × (text_lt now session.expires_at ≡ true)
unfolding session_by_token_hash
live_session s hash now session e =
    let test = find-eq-some _ (values s.sessions) session e in
    (
      find-IsIn _ (values s.sessions) session e,
      (eq_iff session.token_hash hash).0 (ground arith),
      ground arith,
      ground arith,
    )

-- A session that is let in is live: it belongs to the token that the request sent, stands in the store
-- as it is when the request reads it, is neither revoked nor, at the time that the clock then shows,
-- expired, and the CSRF token fits it where one is asked for.
pub authenticate-IsLive :
    (o : Outside) (req : Request) (require_csrf : Bool) (st : State) (session : AuthSessionRecord)
    → (authenticate o req require_csrf st).1 ≡ done session
    → IsLive o req require_csrf st session
unfolding authenticate ◌>>=◌ require now read ensure pure
authenticate-IsLive o req require_csrf st session h = elim (Option-cases (session_token_of req)) [
  | inl absent ↦ absurd (ground arith)
  | inr (token, sent) ↦
      let iso = o.dates.iso (o.clock st.moment) in
      let s = (o.others (suc st.moment) st.shared).store in
      elim (Option-cases (session_by_token_hash s (o.sha256 token) iso)) [
        | inl unknown ↦ absurd (ground arith)
        | inr (found, known) ↦
            let same : found ≡ session = ground arith in
            let (stored, hashed, standing, lasting) =
              live_session s (o.sha256 token) iso session (known ∙ ap some same) in
            record {
              token = token;
              sent = sent;
              hashed = hashed;
              stored = stored;
              standing = standing;
              lasting = lasting;
              csrf = λ asked. ground arith;
            }
      ]
]

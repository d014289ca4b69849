-- ===== src/Store/Auth.antt =====
-- Wallet challenges and authenticated sessions of the store.
use mathlib.Core.Option
use machina_sol.Prelude.{
  String, Bool, not, ◌&&◌, ◌||◌, Option, none, some, find, is_some, text_lt, text_le, ◌==◌,
  if◌then◌else◌,
}
use machina_sol.Dict.{get, put, values, delete_where}
use machina_sol.Store.Types.{WalletChallengeRecord, AuthSessionRecord}
use machina_sol.Store.State.{ProductionStore}

unfoldable pub create_challenge : ProductionStore → WalletChallengeRecord → String → ProductionStore
create_challenge s record' now = record s {
  challenges =
      put record'.id record'
        (delete_where (λ _ c. text_le c.expires_at now || is_some c.consumed_at) s.challenges);
}

-- The test that both reads of a challenge share.
unfoldable pub is_active_challenge : WalletChallengeRecord → String → String → Bool
is_active_challenge found wallet_address now =
    found.wallet_address == wallet_address
    && (not (is_some found.consumed_at) && text_lt now found.expires_at)

unfoldable pub active_challenge :
    ProductionStore → String → String → String → Option WalletChallengeRecord
unfolding is_active_challenge
active_challenge s id wallet_address now = elim (get id s.challenges) [
  | none ↦ none
  | some found ↦ if is_active_challenge found wallet_address now then some found else none
]

unfoldable pub consume_challenge :
    ProductionStore → String → String → String → ProductionStore × Option WalletChallengeRecord
consume_challenge s id wallet_address now = elim (get id s.challenges) [
  | none ↦ (s, none)
  | some found ↦
      if not (found.wallet_address == wallet_address)
        || (is_some found.consumed_at || text_le found.expires_at now)
      then (s, none)
      else (
        record s { challenges = put id (record found { consumed_at = some now }) s.challenges },
        some (record found { consumed_at = some now }),
      )
]

unfoldable pub create_authenticated_session :
    ProductionStore → AuthSessionRecord → String → ProductionStore × AuthSessionRecord
create_authenticated_session s proposed wallet_address =
    let user_id : String = Option.get_or (get wallet_address s.wallet_users) proposed.user_id in
    let session = record proposed { user_id = user_id; wallet_address = wallet_address } in
    (
      record s {
        wallet_users = put wallet_address user_id s.wallet_users;
        sessions = put session.id session s.sessions;
      },
      session,
    )

unfoldable pub session_by_token_hash : ProductionStore → String → String → Option AuthSessionRecord
session_by_token_hash s token_hash now =
    find
      (λ c. c.token_hash == token_hash && (not (is_some c.revoked_at) && text_lt now c.expires_at))
      (values s.sessions)

unfoldable pub revoke_session : ProductionStore → String → String → ProductionStore
revoke_session s id now = elim (get id s.sessions) [
  | none ↦ s
  | some found ↦
      if is_some found.revoked_at
      then s
      else record s { sessions = put id (record found { revoked_at = some now }) s.sessions }
]

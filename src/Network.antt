-- ===== src/Network.antt =====
-- The identity of a Solana network (src/server/production/network.ts).
pub mod Laws
use machina_sol.Prelude.{
  ◌⊎◌, inl, inr, ◌≡◌, refl, sym, ap, ◌∙◌, String, Bool, true, false, not, nat_eq, Option, none,
  some, [], ◌∷◌, length, codes, if◌then◌else◌, arith,
}
use machina_sol.Chars.{Chars, trim, chars_eq}
use machina_sol.Chars.Laws.{chars_eq-eq}
use machina_sol.Json.{Json}
use machina_sol.Transactions.Flow.{Answer, answered, thrown, RpcTransport}

pub data SolanaCluster : Type 0 where
  mainnet_beta devnet testnet custom : SolanaCluster

-- KNOWN_SOLANA_GENESIS_HASHES; a custom network has none.
unfoldable pub known_genesis_hash : SolanaCluster → Option Chars
known_genesis_hash mainnet_beta = some (codes "5eykt4UsFv8P8NJdTREpY1vzqKqZKvdpKuc147dw2N9d")
known_genesis_hash devnet = some (codes "EtWTRABZaYq6iMfeYKouRu166VU2xqa1wcaWoxPkrZBG")
known_genesis_hash testnet = some (codes "4uhcVJyU9pJkvQyS88uRDiswHXSCkY3zQawwpjk2NsNY")
known_genesis_hash custom = none

pub data SolanaNetworkErrorCode : Type 0 where
  network_configuration_invalid cluster_genesis_mismatch : SolanaNetworkErrorCode
  genesis_lookup_unavailable invalid_genesis_response network_mismatch : SolanaNetworkErrorCode

pub record SolanaNetworkExpectation : Type 0 where
  pub cluster : SolanaCluster
  pub expected_genesis_hash : Chars

-- A value, or the error with its flag `retryable`.
pub data Verdict (A : Type 0) : Type 0 where
  accepted : A → Verdict A
  refused : SolanaNetworkErrorCode → (retryable : Bool) → Verdict A

-- A configured hash that is not empty.
abbrev pub present : Option Chars → Option Chars
present none = none
present (some []) = none
present (some (c ∷ cs)) = some (c ∷ cs)

pub resolve_known : SolanaCluster → Chars → Option Chars → Verdict SolanaNetworkExpectation
resolve_known label canonical none =
    accepted (record { cluster = label; expected_genesis_hash = canonical })
resolve_known label canonical (some configured) =
    if chars_eq configured canonical
    then accepted (record { cluster = label; expected_genesis_hash = canonical })
    else refused cluster_genesis_mismatch false

pub resolve_custom : Option Chars → Verdict SolanaNetworkExpectation
resolve_custom none = refused network_configuration_invalid false
resolve_custom (some configured) =
    accepted (record { cluster = custom; expected_genesis_hash = configured })

pub resolve_trimmed : SolanaCluster → Option Chars → Verdict SolanaNetworkExpectation
unfolding resolve_known resolve_custom
resolve_trimmed label configured = elim (known_genesis_hash label) [
  | none ↦ resolve_custom configured
  | some canonical ↦ resolve_known label canonical configured
]

-- The cluster is `custom` where the caller names none.
unfoldable pub resolve_solana_network_expectation :
    Option SolanaCluster → Option Chars → Verdict SolanaNetworkExpectation
unfolding resolve_trimmed
resolve_solana_network_expectation cluster configured =
    let trimmed : Option Chars = elim configured [ none ↦ none | some hash ↦ some (trim hash) ] in
    let label : SolanaCluster = elim cluster [ none ↦ custom | some c ↦ c ] in
    resolve_trimmed label (present trimmed)

pub data ExpectationOrHash : Type 0 where
  expectation : SolanaNetworkExpectation → ExpectationOrHash
  hash : Chars → ExpectationOrHash

pub record VerifiedSolanaNetwork : Type 0 where
  pub cluster : SolanaCluster
  pub expected_genesis_hash : Chars
  pub actual_genesis_hash : Chars

pub resolved : ExpectationOrHash → Verdict SolanaNetworkExpectation
resolved (hash text) = resolve_solana_network_expectation (some custom) (some text)
resolved (expectation e) =
    resolve_solana_network_expectation (some e.cluster) (some e.expected_genesis_hash)

pub against : SolanaNetworkExpectation → Chars → Verdict VerifiedSolanaNetwork
against e actual =
    if nat_eq (length (trim actual)) 0
    then refused invalid_genesis_response false
    else if not (chars_eq actual e.expected_genesis_hash)
    then refused network_mismatch false
    else accepted (record {
      cluster = e.cluster;
      expected_genesis_hash = e.expected_genesis_hash;
      actual_genesis_hash = actual;
    })

unfoldable pub verdict_on : SolanaNetworkExpectation → Answer → Verdict VerifiedSolanaNetwork
unfolding against
verdict_on e (thrown text) = refused genesis_lookup_unavailable true
verdict_on e (answered (Json.string actual)) = against e (codes actual)
verdict_on e (answered _) = refused invalid_genesis_response false

pub verify_resolved :
    RpcTransport → Verdict SolanaNetworkExpectation → Verdict VerifiedSolanaNetwork
verify_resolved t (refused code retryable) = refused code retryable
verify_resolved t (accepted e) = verdict_on e (t.answer [] "getGenesisHash")

-- The date of the verification is left out.
unfoldable pub verify_solana_network :
    RpcTransport → ExpectationOrHash → Verdict VerifiedSolanaNetwork
unfolding resolved verify_resolved
verify_solana_network t e = verify_resolved t (resolved e)

-- ===== src/Network/Laws.antt =====
-- What a verified network is (`verifySolanaNetwork` of src/server/production/network.ts).
use machina_sol.Prelude.{
  ◌⊎◌, inl, inr, ◌≡◌, refl, sym, ap, ◌∙◌, String, some, [], ◌∷◌, codes, arith,
}
use machina_sol.Chars.{Chars, trim}
use machina_sol.Chars.Laws.{chars_eq-eq}
use machina_sol.Json.{Json}
use machina_sol.Transactions.Flow.{Answer, answered, thrown, RpcTransport}
use machina_sol.Network.{
  SolanaCluster, mainnet_beta, devnet, testnet, custom, known_genesis_hash,
  SolanaNetworkExpectation, Verdict, accepted, refused, present, resolve_known, resolve_custom,
  resolve_trimmed, resolve_solana_network_expectation, ExpectationOrHash, expectation, hash,
  VerifiedSolanaNetwork, resolved, against, verdict_on, verify_resolved, verify_solana_network,
}

-- The cluster and the hash that are asked for.
abbrev pub cluster_wanted : ExpectationOrHash → SolanaCluster
cluster_wanted (expectation e) = e.cluster
cluster_wanted (hash text) = custom

abbrev pub hash_wanted : ExpectationOrHash → Chars
hash_wanted (expectation e) = e.expected_genesis_hash
hash_wanted (hash text) = text

-- What the node answered is what is asked for.
pub record IsIdentified (t : RpcTransport) (x : ExpectationOrHash) (v : VerifiedSolanaNetwork)
    : Type 0 where
  pub of_cluster : v.cluster ≡ cluster_wanted x
  -- The hash that is asked for, without white space around it; a known cluster may be asked for
  -- without one.
  pub wanted :
      (v.expected_genesis_hash ≡ trim (hash_wanted x))
      ⊎ ((trim (hash_wanted x) ≡ [])
          × (known_genesis_hash (cluster_wanted x) ≡ some v.expected_genesis_hash))
  pub answer :
      (text : String) × (t.answer [] "getGenesisHash" ≡ answered (Json.string text))
      × (codes text ≡ v.actual_genesis_hash)
  pub same : v.actual_genesis_hash ≡ v.expected_genesis_hash
  -- A known cluster has its canonical hash.
  pub canonical : (c : Chars) → known_genesis_hash v.cluster ≡ some c → v.expected_genesis_hash ≡ c

-- The expectation that a cluster and a hash make.
record IsResolved (label : SolanaCluster) (text : Chars) (e : SolanaNetworkExpectation)
    : Type 0 where
  of_label : e.cluster ≡ label
  from_text :
      (e.expected_genesis_hash ≡ text)
      ⊎ ((text ≡ []) × (known_genesis_hash label ≡ some e.expected_genesis_hash))
  canonical : (c : Chars) → known_genesis_hash label ≡ some c → e.expected_genesis_hash ≡ c

IsResolved-known :
    (label : SolanaCluster) (canonical text : Chars) (e : SolanaNetworkExpectation)
    → known_genesis_hash label ≡ some canonical
    → resolve_known label canonical (present (some text)) ≡ accepted e
    → IsResolved label text e
unfolding resolve_known
IsResolved-known label canonical [] e k h = record {
  of_label = ground arith;
  from_text = inr (refl, ground arith);
  canonical = λ c f. ground arith;
}
IsResolved-known label canonical (c ∷ cs) e k h = record {
  of_label = ground arith;
  from_text = inl (ground (arith, chars_eq-eq (c ∷ cs) canonical));
  canonical = λ d f. ground arith;
}

IsResolved-custom :
    (text : Chars) (e : SolanaNetworkExpectation)
    → resolve_custom (present (some text)) ≡ accepted e
    → IsResolved custom text e
unfolding resolve_custom known_genesis_hash
IsResolved-custom [] e h = absurd (ground arith)
IsResolved-custom (c ∷ cs) e h = record {
  of_label = ground arith;
  from_text = inl (ground arith);
  canonical = λ d f. absurd (ground arith);
}

resolve_trimmed-IsResolved :
    (label : SolanaCluster) (text : Chars) (e : SolanaNetworkExpectation)
    → resolve_trimmed label (present (some text)) ≡ accepted e
    → IsResolved label text e
unfolding resolve_trimmed known_genesis_hash
resolve_trimmed-IsResolved mainnet_beta text e h = IsResolved-known mainnet_beta _ text e refl h
resolve_trimmed-IsResolved devnet text e h = IsResolved-known devnet _ text e refl h
resolve_trimmed-IsResolved testnet text e h = IsResolved-known testnet _ text e refl h
resolve_trimmed-IsResolved custom text e h = IsResolved-custom text e h

against-same :
    (e : SolanaNetworkExpectation) (actual : Chars) (v : VerifiedSolanaNetwork)
    → against e actual ≡ accepted v
    → (v.cluster ≡ e.cluster)
      × (v.expected_genesis_hash ≡ e.expected_genesis_hash)
      × (v.actual_genesis_hash ≡ actual)
      × (actual ≡ e.expected_genesis_hash)
unfolding against
against-same e actual v h = (
  ground arith,
  ground arith,
  ground arith,
  chars_eq-eq actual e.expected_genesis_hash (ground arith),
)

identified :
    (t : RpcTransport) (x : ExpectationOrHash) (e : SolanaNetworkExpectation) (answer : Answer)
    (v : VerifiedSolanaNetwork)
    → t.answer [] "getGenesisHash" ≡ answer
    → verdict_on e answer ≡ accepted v
    → IsResolved (cluster_wanted x) (trim (hash_wanted x)) e
    → IsIdentified t x v
unfolding verdict_on
identified t x e (thrown text) v a h k = absurd (ground arith)
identified t x e (answered (Json.string text)) v a h k =
    let (p, q, r, s) = against-same e (codes text) v h in
    record {
      of_cluster = p ∙ k.of_label;
      wanted = elim k.from_text [
        | inl same ↦ inl (q ∙ same)
        | inr (none_asked, known) ↦ inr (none_asked, known ∙ ap some (sym q))
      ];
      answer = (text, a, sym r);
      same = r ∙ s ∙ sym q;
      canonical = λ c f. q ∙ k.canonical c (ap known_genesis_hash (sym (p ∙ k.of_label)) ∙ f);
    }
identified t x e (answered Json.undefined) v a h k = absurd (ground arith)
identified t x e (answered Json.null) v a h k = absurd (ground arith)
identified t x e (answered (Json.boolean b)) v a h k = absurd (ground arith)
identified t x e (answered (Json.number n)) v a h k = absurd (ground arith)
identified t x e (answered (Json.array xs)) v a h k = absurd (ground arith)
identified t x e (answered (Json.object fs)) v a h k = absurd (ground arith)

resolved-IsResolved :
    (x : ExpectationOrHash) (e : SolanaNetworkExpectation)
    → resolved x ≡ accepted e
    → IsResolved (cluster_wanted x) (trim (hash_wanted x)) e
unfolding resolved resolve_solana_network_expectation
resolved-IsResolved (hash text) e h = resolve_trimmed-IsResolved custom (trim text) e h
resolved-IsResolved (expectation x) e h =
    resolve_trimmed-IsResolved x.cluster (trim x.expected_genesis_hash) e h

verified :
    (t : RpcTransport) (x : ExpectationOrHash) (r : Verdict SolanaNetworkExpectation)
    (v : VerifiedSolanaNetwork)
    → verify_resolved t r ≡ accepted v
    → resolved x ≡ r
    → IsIdentified t x v
unfolding verify_resolved
verified t x (accepted e) v h k =
    identified t x e (t.answer [] "getGenesisHash") v refl h (resolved-IsResolved x e k)
verified t x (refused code retryable) v h k = absurd (ground arith)

-- A network is verified only when it is of the cluster that is asked for and the node itself answers
-- the genesis hash that is asked for, without white space around it; for a known cluster, which may
-- be asked for without a hash, it is the canonical one.
pub verify_solana_network-IsIdentified :
    (t : RpcTransport) (x : ExpectationOrHash) (v : VerifiedSolanaNetwork)
    → verify_solana_network t x ≡ accepted v
    → IsIdentified t x v
unfolding verify_solana_network
verify_solana_network-IsIdentified t x v h = verified t x (resolved x) v h refl

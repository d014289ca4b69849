-- ===== src/RateLimit.antt =====
-- The rate limiter (src/server/production/rate-limit.ts): a fixed window for each key.
pub mod Window
use machina_sol.Prelude.{
  length-append, ℕ, ◌+◌, ◌-◌, ◌≤◌, ◌<◌, ◌≡◌, refl, String, Bool, true, false, not, none, some, List,
  [], ◌∷◌, ◌++◌, leb, ltb, length, if◌then◌else◌, arith, inl, inr, ◌⊎◌, Bool-cases, if_cases,
  option_cases,
}
use machina_sol.Dict.{Dict, get, put}
use machina_sol.Dict.Laws.{get-put_self}

pub record Bucket : Type 0 where
  pub count : ℕ
  pub reset_at : ℕ

pub record RequestRateLimiter : Type 0 where
  pub limit : ℕ
  pub window_ms : ℕ
  pub max_keys : ℕ
  pub buckets : Dict Bucket

-- The loop of `prune`, on the buckets not visited yet: expired ones go, until there is room. The
-- second part tells that the function returned inside the loop.
unfoldable pub prune_loop : ℕ → ℕ → (kept rest : Dict Bucket) → Dict Bucket × Bool
prune_loop max_keys now kept [] = (kept, false)
prune_loop max_keys now kept ((key, bucket) ∷ rest) =
    let kept' = if leb bucket.reset_at now then kept else kept ++ ((key, bucket) ∷ []) in
    let later = prune_loop max_keys now kept' rest in
    if ltb (length kept' + length rest) max_keys then (kept' ++ rest, true) else later

drop_oldest : Dict Bucket → Dict Bucket
drop_oldest [] = []
drop_oldest (oldest ∷ rest) = rest

unfoldable pub prune : ℕ → ℕ → Dict Bucket → Dict Bucket
unfolding prune_loop drop_oldest
prune max_keys now buckets =
    let (left, room) = prune_loop max_keys now [] buckets in if room then left else drop_oldest left

pub fresh_window : RequestRateLimiter → String → ℕ → RequestRateLimiter
unfolding prune
fresh_window r key now =
    let buckets =
      if leb r.max_keys (length r.buckets) then prune r.max_keys now r.buckets else r.buckets in
    record r { buckets = put key (record { count = 1; reset_at = now + r.window_ms }) buckets }

-- The answer is `false` where the code throws status 429; the count is raised first.
unfoldable pub assert : RequestRateLimiter → String → ℕ → RequestRateLimiter × Bool
unfolding fresh_window
assert r key now = elim (get key r.buckets) [
  | none ↦ (fresh_window r key now, true)
  | some current ↦ if leb current.reset_at now then (fresh_window r key now, true) else (
    record r { buckets = put key (record current { count = current.count + 1 }) r.buckets },
    not (ltb r.limit (current.count + 1)),
  )
]

-- What the loop leaves: less than the room, if it found room, and never more than there was.
prune_loop-bounds :
    (max_keys now : ℕ) (kept rest : Dict Bucket)
    → (((prune_loop max_keys now kept rest).1 ≡ true)
        × (length (prune_loop max_keys now kept rest).0 < max_keys))
      ⊎ (((prune_loop max_keys now kept rest).1 ≡ false)
          × (length (prune_loop max_keys now kept rest).0 ≤ length kept + length rest))
unfolding prune_loop
prune_loop-bounds max_keys now kept [] = inr (refl, omega arith)
prune_loop-bounds max_keys now kept ((key, bucket) ∷ rest) =
    elim (Bool-cases (leb bucket.reset_at now)) [
      | inl old ↦ ground (arith, prune_loop-bounds max_keys now kept rest, length-append kept rest)
      | inr new ↦ ground (
        arith,
        prune_loop-bounds max_keys now (kept ++ ((key, bucket) ∷ [])) rest,
        length-append kept ((key, bucket) ∷ []),
        length-append (kept ++ ((key, bucket) ∷ [])) rest,
      )
    ]

length-drop_oldest : (m : Dict Bucket) → length (drop_oldest m) ≡ length m - 1
unfolding drop_oldest
length-drop_oldest [] = refl
length-drop_oldest (x ∷ m) = omega arith

prune-bound :
    (max_keys now : ℕ) (buckets : Dict Bucket)
    → 1 ≤ max_keys
    → length buckets ≤ max_keys
    → length (prune max_keys now buckets) < max_keys
unfolding prune
prune-bound max_keys now buckets some_keys h = elim (prune_loop-bounds max_keys now [] buckets) [
  | inl (room, small) ↦ ground (arith, length-drop_oldest (prune_loop max_keys now [] buckets).0)
  | inr (no_room, small) ↦ ground (arith, length-drop_oldest (prune_loop max_keys now [] buckets).0)
]

pub length-put : {V : Type 0} (k : String) (v : V) (m : Dict V) → length (put k v m) ≤ length m + 1
unfolding put
length-put k v [] = omega arith
length-put k v ((i, w) ∷ m) = ground (arith, length-put k v m)

length-put_known :
    {V : Type 0} (k : String) (v w : V) (m : Dict V)
    → get k m ≡ some w
    → length (put k v m) ≡ length m
unfolding put get
length-put_known k v w [] e = absurd (ground arith)
length-put_known k v w ((i, u) ∷ m) e = ground (arith, length-put_known k v w m)

fresh_window-bound :
    (r : RequestRateLimiter) (key : String) (now : ℕ)
    → 1 ≤ r.max_keys
    → length r.buckets ≤ r.max_keys
    → length (fresh_window r key now).buckets ≤ r.max_keys
unfolding fresh_window
fresh_window-bound r key now some_keys h = elim (Bool-cases (leb r.max_keys (length r.buckets))) [
  | inl full ↦ ground (
    arith,
    prune-bound r.max_keys now r.buckets,
    length-put key (record { count = 1; reset_at = now + r.window_ms })
        (prune r.max_keys now r.buckets),
  )
  | inr room ↦
      ground (arith, length-put key (record { count = 1; reset_at = now + r.window_ms }) r.buckets)
]

-- The limiter never holds more keys than it may, whatever keys ask and when.
pub assert-bound :
    (r : RequestRateLimiter) (key : String) (now : ℕ)
    → 1 ≤ r.max_keys
    → length r.buckets ≤ r.max_keys
    → length (assert r key now).0.buckets ≤ r.max_keys
unfolding assert
assert-bound r key now some_keys h =
    option_cases P (get key r.buckets) _ _ (λ _. fresh_window-bound r key now some_keys h)
      λ bucket e.
        if_cases P (leb bucket.reset_at now) _ _ (λ _. fresh_window-bound r key now some_keys h)
          (λ _. omega (
            arith,
            h,
            length-put_known key (record bucket { count = bucket.count + 1 }) bucket r.buckets e,
          ))
  where
    P : RequestRateLimiter × Bool → Type 0
    P t = length t.0.buckets ≤ r.max_keys

-- ===== src/RateLimit/Window.antt =====
-- How many requests of a key pass in one window of the rate limiter
-- (src/server/production/rate-limit.ts), while others ask.
use machina_sol.Prelude.{
  ℕ, ◌+◌, ◌-◌, ◌≤◌, ◌<◌, ◌≡◌, String, true, false, not, ◌&&◌, none, some, List, [], ◌∷◌, ltb,
  length, if◌then◌else◌, arith, inl, inr, Bool-cases, Option-cases, ◌==◌, eq_iff, eq_refl, ap, ◌∙◌,
}
use machina_sol.Dict.{get, put}
use machina_sol.Dict.Laws.{get-put, get-put_self}
use machina_sol.RateLimit.{Bucket, RequestRateLimiter, fresh_window, assert, length-put}

-- Requests of any keys, each with its time, and how many of those for `key` pass.
unfoldable pub passed : String → List (String × ℕ) → RequestRateLimiter → ℕ
passed key [] r = 0
passed key ((k, now) ∷ asked) r =
    let rest = passed key asked (assert r k now).0 in
    if k == key && (assert r k now).1 then 1 + rest else rest

-- All requests for the key lie before `at`.
abbrev pub AllBefore : String → ℕ → List (String × ℕ) → Type 0
AllBefore key at [] = Unit {0}
AllBefore key at ((k, now) ∷ asked) = ((k == key) ≡ true → now < at) × AllBefore key at asked

abbrev counted : Bucket → Bucket
counted bucket = record bucket { count = bucket.count + 1 }

-- A request inside the window of its key.
assert-counted :
    (r : RequestRateLimiter) (key : String) (bucket : Bucket) (now : ℕ)
    → get key r.buckets ≡ some bucket
    → now < bucket.reset_at
    → assert r key now ≡ (
      record r { buckets = put key (counted bucket) r.buckets },
      not (ltb r.limit (bucket.count + 1)),
    )
unfolding assert
assert-counted r key bucket now e early = ground arith

-- A request for another key leaves the bucket of `key`, while there is room for one more.
assert-other :
    (r : RequestRateLimiter) (k key : String) (now : ℕ)
    → (k == key) ≡ false
    → length r.buckets < r.max_keys
    → get key (assert r k now).0.buckets ≡ get key r.buckets
unfolding assert fresh_window
assert-other r k key now other room = elim (Option-cases (get k r.buckets)) [
  | inl unseen ↦
      ground (arith, get-put key k (record { count = 1; reset_at = now + r.window_ms }) r.buckets)
  | inr (bucket, seen) ↦ ground (
    arith,
    get-put key k (record { count = 1; reset_at = now + r.window_ms }) r.buckets,
    get-put key k (counted bucket) r.buckets,
  )
]

assert-length :
    (r : RequestRateLimiter) (k : String) (now : ℕ)
    → length r.buckets < r.max_keys
    → length (assert r k now).0.buckets ≤ length r.buckets + 1
unfolding assert fresh_window
assert-length r k now room = elim (Option-cases (get k r.buckets)) [
  | inl unseen ↦
      ground (arith, length-put k (record { count = 1; reset_at = now + r.window_ms }) r.buckets)
  | inr (bucket, seen) ↦ ground (
    arith,
    length-put k (record { count = 1; reset_at = now + r.window_ms }) r.buckets,
    length-put k (counted bucket) r.buckets,
  )
]

assert-settings :
    (r : RequestRateLimiter) (k : String) (now : ℕ)
    → ((assert r k now).0.limit ≡ r.limit) × ((assert r k now).0.max_keys ≡ r.max_keys)
unfolding assert fresh_window
assert-settings r k now = (ground arith, ground arith)

passed-window :
    (key : String) (asked : List (String × ℕ)) (r : RequestRateLimiter) (bucket : Bucket)
    → get key r.buckets ≡ some bucket
    → AllBefore key bucket.reset_at asked
    → length r.buckets + length asked ≤ r.max_keys
    → passed key asked r ≤ r.limit - bucket.count
unfolding passed
passed-window key [] r bucket e h room = omega arith
passed-window key ((k, now) ∷ asked) r bucket e (early, h) room =
    let next = (assert r k now).0 in
    let few : length next.buckets + length asked ≤ next.max_keys =
      omega (arith, assert-length r k now (omega arith), (assert-settings r k now).1) in
    elim (Bool-cases (k == key)) [
      | inl same ↦
          let now_counted : assert r k now ≡ (
            record r { buckets = put k (counted bucket) r.buckets },
            not (ltb r.limit (bucket.count + 1)),
          ) =
            assert-counted r k bucket now (ap (λ j. get j r.buckets) ((eq_iff k key).0 same) ∙ e)
              (early same) in
          let stored : get key next.buckets ≡ some (counted bucket) =
            ap (λ p. get key p.0.buckets) now_counted
            ∙ ground (arith, get-put key k (counted bucket) r.buckets) in
          ground (
            arith,
            passed-window key asked next (counted bucket) stored h few,
            (assert-settings r k now).0,
            ap (λ p. p.1) now_counted,
          )
      | inr other ↦
          let stored : get key next.buckets ≡ some bucket =
            assert-other r k key now other (omega arith) ∙ e in
          ground
            (arith, passed-window key asked next bucket stored h few, (assert-settings r k now).0)
    ]

assert-fresh :
    (r : RequestRateLimiter) (key : String) (now : ℕ)
    → get key r.buckets ≡ none
    → length r.buckets < r.max_keys
    → ((assert r key now).1 ≡ true)
      × (get key (assert r key now).0.buckets
          ≡ some (record { count = 1; reset_at = now + r.window_ms }))
unfolding assert fresh_window
assert-fresh r key now unseen room = (
  ground arith,
  ground (arith, get-put_self key (record { count = 1; reset_at = now + r.window_ms }) r.buckets),
)

-- A key that is not known passes at most `limit` times in the window that its first request opens,
-- that request included, whatever requests for other keys come in between, when the limit is at least
-- one and the limiter has room for as many keys as there are requests, so that it never removes one.
pub passed-limit :
    (r : RequestRateLimiter) (key : String) (now : ℕ) (asked : List (String × ℕ))
    → 1 ≤ r.limit
    → get key r.buckets ≡ none
    → AllBefore key (now + r.window_ms) asked
    → length r.buckets + length ((key, now) ∷ asked) ≤ r.max_keys
    → passed key ((key, now) ∷ asked) r ≤ r.limit
unfolding passed
passed-limit r key now asked some_limit unseen h room =
    let next = (assert r key now).0 in
    let few : length next.buckets + length asked ≤ next.max_keys =
      omega (arith, assert-length r key now (omega arith), (assert-settings r key now).1) in
    let (passes, stored) = assert-fresh r key now unseen (omega arith) in
    ground (
      arith,
      eq_refl key,
      passed-window key asked next (record { count = 1; reset_at = now + r.window_ms }) stored h
          few,
      (assert-settings r key now).0,
    )

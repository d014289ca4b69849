-- ===== src/Hub/Laws.antt =====
-- The bounds of the hub, and who receives what.
use machina_sol.Prelude.{
  includes, subst, some_inj, ℕ, ◌+◌, ◌≤◌, ◌<◌, ◌≡◌, refl, String, Bool, true, false, not, ◌||◌,
  ◌&&◌, Option, some, List, [], ◌∷◌, ◌++◌, nat_eq, nat_eq_iff, filter, any, length, length-append,
  length-filter-le, ◌==◌, eq_iff, if◌then◌else◌, arith, if_cases,
}
use machina_sol.Store.Types.{TelemetryEventRecord}
use machina_sol.Hub.{
  Subscriber, Sockets, TelemetryHub, remove, has_room_for, can_subscribe, subscribe, follows,
  publish_to, publish, disconnect_from, disconnect_user,
}

-- The streams of one user.
unfoldable pub owned_by : String → TelemetryHub → ℕ
owned_by user_id [] = 0
owned_by user_id (s ∷ hub) =
    let rest = owned_by user_id hub in if s.user_id == user_id then 1 + rest else rest

-- At most 256 streams, and at most eight of each user.
pub record IsBounded (hub : TelemetryHub) : Type 0 where
  pub total : length hub ≤ 256
  pub per_user : (user_id : String) → owned_by user_id hub ≤ 8

has_room_for-count :
    (user_id : String) (owned : ℕ) (hub : TelemetryHub)
    → owned < 8
    → has_room_for user_id owned hub ≡ true
    → owned + owned_by user_id hub < 8
unfolding has_room_for owned_by
has_room_for-count user_id owned [] few h = omega arith
has_room_for-count user_id owned (s ∷ hub) few h =
    ground (arith, has_room_for-count user_id owned hub, has_room_for-count user_id (owned + 1) hub)

owned_by-append :
    (user_id : String) (hub : TelemetryHub) (s : Subscriber)
    → owned_by user_id (hub ++ (s ∷ []))
      ≡ owned_by user_id hub + (if s.user_id == user_id then 1 else 0)
unfolding owned_by
owned_by-append user_id [] s = ground arith
owned_by-append user_id (t ∷ hub) s = ground (arith, owned_by-append user_id hub s)

opened :
    (user_id : String) (machine_ids : List String) (response : ℕ) (hub : TelemetryHub)
    → can_subscribe user_id hub ≡ true
    → IsBounded hub
    → IsBounded
        (hub ++ (record { response = response; user_id = user_id; machine_ids = machine_ids } ∷ []))
unfolding can_subscribe
opened user_id machine_ids response hub room b = record {
  total = ground (arith, b.total, length-append hub (s ∷ []));
  per_user = λ u. ground (
    arith,
    b.per_user u,
    owned_by-append u hub s,
    eq_iff user_id u,
    has_room_for-count user_id 0 hub,
  );
}
  where
    s : Subscriber
    s = record { response = response; user_id = user_id; machine_ids = machine_ids }

-- A subscription that is granted keeps the bounds: at most 256 streams, and at most eight of a user.
pub subscribe-IsBounded :
    (user_id : String) (machine_ids : List String) (response : ℕ) (hub hub' : TelemetryHub)
    → subscribe user_id machine_ids response hub ≡ some hub'
    → IsBounded hub
    → IsBounded hub'
unfolding subscribe
subscribe-IsBounded user_id machine_ids response hub hub' =
    if_cases P (not (can_subscribe user_id hub)) _ _ (λ _ h. absurd (ground arith))
      (λ room h b.
        subst IsBounded (some_inj h) (opened user_id machine_ids response hub (ground arith) b))
  where
    P : Option TelemetryHub → Type 0
    P t = t ≡ some hub' → IsBounded hub → IsBounded hub'

owned_by-remove :
    (user_id : String) (response : ℕ) (hub : TelemetryHub)
    → owned_by user_id (remove response hub) ≤ owned_by user_id hub
unfolding owned_by remove filter
owned_by-remove user_id response [] = omega arith
owned_by-remove user_id response (s ∷ hub) = ground (arith, owned_by-remove user_id response hub)

remove-IsBounded :
    (response : ℕ) (hub : TelemetryHub) → IsBounded hub → IsBounded (remove response hub)
remove-IsBounded response hub b = record {
  total =
      unfold remove in
      omega (arith, b.total, length-filter-le (λ s. not (nat_eq s.response response)) hub);
  per_user = λ user_id. omega (arith, b.per_user user_id, owned_by-remove user_id response hub);
}

publish_to-IsBounded :
    (sockets : Sockets) (owner : String) (event : TelemetryEventRecord) (copy hub : TelemetryHub)
    → IsBounded hub
    → IsBounded (publish_to sockets owner event copy hub).0
unfolding publish_to
publish_to-IsBounded sockets owner event [] hub b = b
publish_to-IsBounded sockets owner event (s ∷ copy) hub b =
    let skipped = publish_to-IsBounded sockets owner event copy hub b in
    let dropped =
      publish_to-IsBounded sockets owner event copy (remove s.response hub)
        (remove-IsBounded s.response hub b) in
    if_cases P (not (follows owner event s)) _ _ (λ _. skipped)
      λ _.
        if_cases P (sockets.destroyed s.response) _ _ (λ _. dropped)
          λ _. if_cases P (not (sockets.write s.response)) _ _ (λ _. dropped) (λ _. skipped)
  where
    P : TelemetryHub × List ℕ → Type 0
    P t = IsBounded t.0

-- The streams that an event of the machine must reach: its owner opened them, they follow the
-- machine, and their sockets are not destroyed.
abbrev pub is_reached : Sockets → String → String → Subscriber → Bool
is_reached sockets owner machine_id s =
    s.user_id == owner && (includes machine_id s.machine_ids && not (sockets.destroyed s.response))

-- Their numbers, in the order of the hub.
unfoldable pub reached : Sockets → String → String → TelemetryHub → List ℕ
reached sockets owner machine_id [] = []
reached sockets owner machine_id (s ∷ hub) =
    let rest = reached sockets owner machine_id hub in
    if is_reached sockets owner machine_id s then s.response ∷ rest else rest

publish_to-reached :
    (sockets : Sockets) (owner : String) (event : TelemetryEventRecord) (copy hub : TelemetryHub)
    → (publish_to sockets owner event copy hub).1 ≡ reached sockets owner event.machine_id copy
unfolding publish_to follows reached
publish_to-reached sockets owner event [] hub = refl
publish_to-reached sockets owner event (s ∷ copy) hub = ground (
  arith,
  publish_to-reached sockets owner event copy hub,
  publish_to-reached sockets owner event copy (remove s.response hub),
)

-- An event is written to exactly the streams that the machine's owner opened, that follow the machine
-- and whose sockets are not destroyed, once for each of them and in their order.
pub publish-reached :
    (sockets : Sockets) (owner : String) (event : TelemetryEventRecord) (hub : TelemetryHub)
    → (publish sockets owner event hub).1 ≡ reached sockets owner event.machine_id hub
unfolding publish
publish-reached sockets owner event hub = publish_to-reached sockets owner event hub hub

-- Publishing an event, which may drop streams, keeps the bounds of the hub.
pub publish-IsBounded :
    (sockets : Sockets) (owner : String) (event : TelemetryEventRecord) (hub : TelemetryHub)
    → IsBounded hub
    → IsBounded (publish sockets owner event hub).0
unfolding publish
publish-IsBounded sockets owner event hub = publish_to-IsBounded sockets owner event hub hub

-- Every stream of the user in `hub` is in `copy`.
covers : String → TelemetryHub → TelemetryHub → Bool
covers user_id copy [] = true
covers user_id copy (t ∷ hub) =
    (not (t.user_id == user_id)
      || any (λ s. s.user_id == user_id && nat_eq t.response s.response) copy)
    && covers user_id copy hub

covers-nothing :
    (user_id : String) (hub : TelemetryHub)
    → covers user_id [] hub ≡ true
    → owned_by user_id hub ≡ 0
unfolding covers owned_by any
covers-nothing user_id [] h = refl
covers-nothing user_id (t ∷ hub) h = ground (arith, covers-nothing user_id hub)

covers-skip :
    (user_id : String) (s : Subscriber) (copy hub : TelemetryHub)
    → (s.user_id == user_id) ≡ false
    → covers user_id (s ∷ copy) hub ≡ true
    → covers user_id copy hub ≡ true
unfolding covers any
covers-skip user_id s copy [] e h = refl
covers-skip user_id s copy (t ∷ hub) e h = ground (arith, covers-skip user_id s copy hub)

covers-remove :
    (user_id : String) (s : Subscriber) (copy hub : TelemetryHub)
    → covers user_id (s ∷ copy) hub ≡ true
    → covers user_id copy (remove s.response hub) ≡ true
unfolding covers any remove filter
covers-remove user_id s copy [] h = refl
covers-remove user_id s copy (t ∷ hub) h = ground (arith, covers-remove user_id s copy hub)

covers-more :
    (user_id : String) (s : Subscriber) (copy hub : TelemetryHub)
    → covers user_id copy hub ≡ true
    → covers user_id (s ∷ copy) hub ≡ true
unfolding covers any
covers-more user_id s copy [] h = refl
covers-more user_id s copy (t ∷ hub) h = ground (arith, covers-more user_id s copy hub)

covers_self : (user_id : String) (hub : TelemetryHub) → covers user_id hub hub ≡ true
unfolding covers any
covers_self user_id [] = refl
covers_self user_id (t ∷ hub) = ground (
  arith,
  covers_self user_id hub,
  covers-more user_id t hub hub,
  nat_eq_iff t.response t.response,
)

disconnect_from-owned :
    (user_id : String) (copy hub : TelemetryHub)
    → covers user_id copy hub ≡ true
    → owned_by user_id (disconnect_from user_id copy hub) ≡ 0
unfolding disconnect_from
disconnect_from-owned user_id [] hub h = covers-nothing user_id hub h
disconnect_from-owned user_id (s ∷ copy) hub h =
    if_cases (λ t. owned_by user_id t ≡ 0) (not (s.user_id == user_id)) _ _
      (λ other.
        disconnect_from-owned user_id copy hub (covers-skip user_id s copy hub (ground arith) h))
      (λ _.
        disconnect_from-owned user_id copy (remove s.response hub)
          (covers-remove user_id s copy hub h))

-- After a user is disconnected the hub has no stream of the user.
pub disconnect_user-owned :
    (user_id : String) (hub : TelemetryHub) → owned_by user_id (disconnect_user user_id hub) ≡ 0
unfolding disconnect_user
disconnect_user-owned user_id hub = disconnect_from-owned user_id hub hub (covers_self user_id hub)

disconnect_from-IsBounded :
    (user_id : String) (copy hub : TelemetryHub)
    → IsBounded hub
    → IsBounded (disconnect_from user_id copy hub)
unfolding disconnect_from
disconnect_from-IsBounded user_id [] hub b = b
disconnect_from-IsBounded user_id (s ∷ copy) hub b =
    if_cases IsBounded (not (s.user_id == user_id)) _ _
      (λ _. disconnect_from-IsBounded user_id copy hub b)
      (λ _.
        disconnect_from-IsBounded user_id copy (remove s.response hub)
          (remove-IsBounded s.response hub b))

pub disconnect_user-IsBounded :
    (user_id : String) (hub : TelemetryHub)
    → IsBounded hub
    → IsBounded (disconnect_user user_id hub)
unfolding disconnect_user
disconnect_user-IsBounded user_id hub = disconnect_from-IsBounded user_id hub hub

-- ===== src/Server/Safe.antt =====
-- The requests keep the marketplace of the store sound and the hub of streams within its bounds
-- (src/server/production/app.ts and auth.ts).
pub mod Calls
pub mod Guards
pub mod Accounts
pub mod Trade
pub mod Payments
pub mod Dispatch
use machina_sol.Prelude.{ℕ}
use machina_sol.Market.{IsSound}
use machina_sol.Hub.Laws.{IsBounded}
use machina_sol.Server.Keeps.{Invariant}

-- The store is sound, and the hub has at most 256 streams, and at most eight of a user.
abbrev pub safe : Invariant
safe = record { OfStore = IsSound; OfHub = IsBounded }

-- ===== src/Lib.antt =====
-- MachinaSol, a marketplace of machine resources that settles in SOL.
--
-- The program is a server that keeps machines, provider capabilities, resource requests, quotes,
-- access grants, receipts and settlements, and that prepares and submits Solana transactions for
-- the wallets of its users. Routes call a store; the store of record is PostgreSQL, and the store
-- in memory is the same contract in TypeScript. This library models:
--
--   Store        src/server/production/memory-store.ts and types.ts: `MemoryProductionStore` with
--                every method, as functions from a store to a store and an answer. The maps are
--                association lists in insertion order (Dict). Store.Auth, Machines, Events,
--                Capabilities, Requests, Quotes, Acceptance, Grants, Receipts, Settlements and
--                Lifecycles hold the methods, named as in the source; Store.Limits and Store.Lamports
--                hold `boundedLimit`, `decimalAtMost` and `exactLamports`.
--   Market       the calls of the store that change the marketplace, and the logins, machines and
--                capabilities that they need, in any order (`run`); Sound has
--                the invariant between them, Effects what single calls do.
--   Decimal      src/settlement/amounts.ts: amounts as texts, and as base units.
--   Base58       src/adapters/solana/validation.ts: addresses and signatures. Canonical has the digits
--                without a zero on top, Alphabet the characters, Encoded the text that is written.
--   Transactions src/server/production/transactions.ts: preparation (Prepare), heights (Heights),
--                simulation and submission (Signed), confirmation and assessment (Confirm).
--   Hub          src/server/production/telemetry-hub.ts: open streams and the fan-out to them.
--   RateLimit    src/server/production/rate-limit.ts: a fixed window for each key.
--   WorkOrder    src/jobs/work-order.ts and requirements.ts: the stages of a work order.
--   Job          src/jobs/lifecycle.ts: the states of a job.
--   Machine      src/machines/identity.ts and status.ts: machines and their states.
--   Fleet        src/fleet/registry.ts and the readiness summary of availability.ts: the assignment of
--                machines to jobs.
--   Network      src/server/production/network.ts: the genesis hash that a node must answer.
--   Evidence     src/adapters/shared/expectation-summary.ts, evidence.ts and finality.ts: what a
--                receipt is expected to show, and the evidence for it.
--   Policy       src/settlement/policy-limits.ts, src/policy/profiles.ts: limits on amounts.
--   Telemetry    src/telemetry/snapshot.ts: the record that telemetry events carry, and its checks. The
--                conversions of dates are fields of `Dates`.
--   JobPolicy    src/jobs/policy.ts: the decision whether a machine may take a job.
--   Session      src/sessions/session.ts: the session that a machine runs in.
--   Server       the request handlers of production, in modules of its own:
--     World      what handlers share and use, and the actions that they are made of.
--     Http       src/server/http.ts: bodies, hosts and origins; the cookies of auth.ts.
--     Auth       src/server/production/auth.ts and crypto.ts: `WalletAuthService`, with its methods
--                `challenge`, `verify` and `authenticate`.
--     Inputs, Public, Response
--                src/server/production/app.ts: the checks of inputs, the public form of records, and
--                what the routes share.
--     Routes     the routes of `handleProductionRequest` in app.ts, each a function named for its
--                path; Dispatch chooses the route.
--     Keeps, Safe, Interleaving
--                an invariant of the store and the hub through every route, and through requests
--                that interrupt each other.
--     Barred     requests without a session.
--     Ensures, Login, Claim, Amounts, Prices
--                what an answer rests on, and the order and the amounts of settlements.
--   Number, Chars, Texts, Json, Dict and Prelude: what the source uses of JavaScript.
--   Tests        the theorems at concrete inputs.
--
-- How code and model correspond. A method that changes a map returns the changed store; `null` is
-- `none`; an exception is `err` with its message, or `none` where the message is never read. An
-- operation that draws a UUID takes it as an argument, and no theorem assumes that it is fresh;
-- time is an argument too, a text that JavaScript's `<` compares by UTF-16 code units (Prelude).
-- `localeCompare` and `Number(text)` depend on the environment and are fields of `Env`; a double is
-- m / 2 ^ k, infinite or NaN; a bigint is a natural number or an integer. `structuredClone` and
-- `await` are left out: a method reads and writes the maps without waiting in between, and answers
-- copies. Resource types, roles, capabilities and rails are the strings that the code compares.
-- The Solana node (`RpcTransport`) answers any value or error, as it likes, and may remember the
-- calls made before; @solana/kit (`Kit`) and the sockets of streams (`Sockets`) are parameters as
-- well, and no theorem assumes anything of them.
--
-- A handler is an action on what all requests share. Node runs one handler until it waits, so before
-- every access of the store, and while a body is read or the node is called, the other requests act:
-- `others` takes what is shared at a moment to what they leave, as it likes. Every call of the clock,
-- of a UUID or of random bytes has a moment of its own, and its value is a function of the moment.
-- HttpError is `refused` with its status; any other error is `crashed`, which the server answers by
-- 500. `Interleaving` makes `others` of requests themselves, which run as a whole and are interrupted
-- in the same way. The theorem on logins takes as a hypothesis that the other requests leave a spent
-- challenge spent, which they do as long as no UUID is drawn twice. The hashes, ed25519, JSON.parse, URLs and decodeURIComponent are parameters. A
-- request is given by the headers that the code reads and by the chunks of its body; what an address
-- is parsed to, its path and its query, is given too.
--
-- Loops run over the lists they visit, so they end. The one loop that is not bounded by a list, the
-- carry of base58, has as many turns as the carry is large, and its value is proved from that.
--
-- Not modelled: the SQL of the PostgreSQL store; configuration by environment variables, the start of
-- the server and its pages; the timer that ends a stream with its session; the console and the command
-- line; the choice of a machine by its score; settlement intents; the transports of the node; and the
-- comparison of a transaction with what is expected of it.
mod Prelude
pub mod Dict
pub mod Number
pub mod Chars
pub mod Texts
pub mod Decimal
pub mod Json
pub mod Base58
pub mod Telemetry
pub mod Transactions
pub mod RateLimit
pub mod Network
pub mod Evidence
pub mod Policy
pub mod Job
pub mod JobPolicy
pub mod Machine
pub mod Fleet
pub mod Hub
pub mod WorkOrder
pub mod Store
pub mod Market
pub mod Session
pub mod Server
pub mod Tests

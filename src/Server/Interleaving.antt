-- ===== src/Server/Interleaving.antt =====
-- Requests that run inside each other: whenever a request waits, another runs as a whole, and that
-- one is interrupted in the same way, to any depth (src/server/production/app.ts).
use machina_sol.Prelude.{ℕ, zero, suc, String, List, [], ◌∷◌, arith}
use machina_sol.Json.{Json}
use machina_sol.Store.State.{empty_store}
use machina_sol.Hub.Laws.{IsBounded, owned_by}
use machina_sol.Market.Sound.{empty-IsSound}
use machina_sol.Server.World.{Limiters, Shared, Outside}
use machina_sol.Server.Http.{Request, ServerConfig}
use machina_sol.Server.Routes.Dispatch.{handle_production_request}
use machina_sol.Server.Keeps.{Holds, Relies}
use machina_sol.Server.Safe.{safe}
use machina_sol.Server.Safe.Dispatch.{handle_production_request-kept}

-- A server: its configuration, the fields of its network, and what arrives. `arrives` are the request
-- and the number of its stream that run at a moment, for a depth.
pub record Traffic : Type 0 where
  pub config : ServerConfig
  pub network : List (String × Json)
  pub arrives : ℕ → ℕ → ℕ × Request

-- A request that runs as a whole.
unfoldable pub run_request : Outside → Traffic → ℕ × Request → ℕ → Shared → Shared
run_request o t (stream, req) moment s =
    (handle_production_request o t.config t.network stream req
      (record { shared = s; calls = []; moment = moment })).0.shared

-- The others of a request, who may be interrupted themselves `depth` times inside each other.
unfoldable pub interleaved : ℕ → Outside → Traffic → Outside
interleaved zero o t = record o { others = λ moment s. s }
interleaved (suc depth) o t = record o {
  others = λ moment. run_request (interleaved depth o t) t (t.arrives depth moment) moment;
}

run_request-kept :
    (o : Outside) (t : Traffic) (r : ℕ × Request) (moment : ℕ) (s : Shared)
    → Relies safe o
    → Holds safe s
    → Holds safe (run_request o t r moment s)
unfolding run_request
run_request-kept o t (stream, req) moment s rely h =
    (handle_production_request-kept o t.config t.network stream req rely).at _ h

interleaved-Relies : (depth : ℕ) (o : Outside) (t : Traffic) → Relies safe (interleaved depth o t)
unfolding interleaved
interleaved-Relies zero o t = record { keep = λ moment s h. h }
interleaved-Relies (suc depth) o t = record {
  keep = λ moment s.
      run_request-kept (interleaved depth o t) t (t.arrives depth moment) moment s
        (interleaved-Relies depth o t);
}

-- The requests of a list, one after the other, each with others that interrupt it.
unfoldable pub serve : ℕ → Outside → Traffic → List (ℕ × Request) → ℕ → Shared → Shared
serve depth o t [] moment s = s
serve depth o t (r ∷ rs) moment s =
    serve depth o t rs (suc moment) (run_request (interleaved depth o t) t r moment s)

serve-kept :
    (depth : ℕ) (o : Outside) (t : Traffic) (rs : List (ℕ × Request)) (moment : ℕ) (s : Shared)
    → Holds safe s
    → Holds safe (serve depth o t rs moment s)
unfolding serve
serve-kept depth o t [] moment s h = h
serve-kept depth o t (r ∷ rs) moment s h =
    serve-kept depth o t rs (suc moment) _
      (run_request-kept (interleaved depth o t) t r moment s (interleaved-Relies depth o t) h)

-- What the server starts with.
abbrev pub started : Limiters → Shared
started limiters = record { store = empty_store; hub = []; limiters = limiters }

empty-IsBounded : IsBounded []
unfolding owned_by
empty-IsBounded = record { total = omega arith; per_user = λ user. omega arith }

-- From an empty store and an empty hub, whatever requests the server handles, and whatever requests
-- interrupt them wherever they wait, to any depth, the marketplace of the store is sound and the hub
-- has at most 256 streams, and at most eight of a user.
pub serve-safe :
    (depth : ℕ) (o : Outside) (t : Traffic) (rs : List (ℕ × Request)) (moment : ℕ)
    (limiters : Limiters)
    → Holds safe (serve depth o t rs moment (started limiters))
serve-safe depth o t rs moment limiters =
    serve-kept depth o t rs moment (started limiters) (empty-IsSound, empty-IsBounded)

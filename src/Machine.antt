-- ===== src/Machine.antt =====
-- Machines and their states (src/machines/identity.ts, src/machines/status.ts).
use machina_sol.Prelude.{
  ℕ, String, Bool, true, false, not, ◌||◌, ◌&&◌, Option, List, [], ◌∷◌, any, all, nat_eq, leb,
  length, codes, includes, distinct, ◌==◌, if◌then◌else◌, Result, ok, err, ◌>>=◌,
}
use machina_sol.Chars.{Chars}
use machina_sol.Dict.{Dict}

abbrev pub machine_roles : List String
machine_roles = "robot_arm" ∷ "drone" ∷ "sensor" ∷ "rover" ∷ "warehouse_bot" ∷ "edge_node" ∷ []

abbrev pub machine_capabilities : List String
machine_capabilities =
    "inspection" ∷ "delivery" ∷ "pick_place" ∷ "mapping" ∷ "inference" ∷ "sensing" ∷ "compute"
    ∷ "charging" ∷ "audit_capture" ∷ []

pub record MachineIdentity : Type 0 where
  pub machine_id : String
  pub role : String
  pub wallet_address : String
  pub operator_id : String
  pub capabilities : List String
  pub label : Option String
  pub owner : Option String
  pub metadata : Dict String

pub data MachineRuntimeStatus : Type 0 where
  idle assigned working completed faulted offline : MachineRuntimeStatus

within : ℕ → ℕ → ℕ → Bool
within low high c = leb low c && leb c high

is_id_start : ℕ → Bool
unfolding within
is_id_start c = within b'a' b'z' c || within b'0' b'9' c

is_id_char : ℕ → Bool
unfolding is_id_start
is_id_char c =
    is_id_start c || (nat_eq c b'.' || (nat_eq c b'_' || (nat_eq c b':' || nat_eq c b'-')))

-- /^[a-z0-9][a-z0-9._:-]{2,63}$/
matches_machine_id : Chars → Bool
unfolding is_id_char
matches_machine_id [] = false
matches_machine_id (c ∷ cs) =
    is_id_start c && (leb 2 (length cs) && (leb (length cs) 63 && all is_id_char cs))

unfoldable pub validate_machine_id : String → Result (Unit {0})
unfolding matches_machine_id
validate_machine_id machine_id =
    if matches_machine_id (codes machine_id) then ok tt else err "invalid machine id"

-- The message of an unknown capability also names it.
unfoldable pub validate_machine_identity : MachineIdentity → Result MachineIdentity
validate_machine_identity input = validate_machine_id input.machine_id >>= λ _.
    if not (includes input.role machine_roles)
    then err "invalid machine role"
    else if nat_eq (length input.capabilities) 0
    then err "machine requires at least one capability"
    else if not (all (λ c. includes c machine_capabilities) input.capabilities)
    then err "invalid machine capability"
    else if input.wallet_address == ""
    then err "machine wallet required"
    else if input.operator_id == ""
    then err "machine operator required"
    else ok (record input { capabilities = distinct input.capabilities })

unfoldable pub machine_has_capabilities : MachineIdentity → List String → Bool
machine_has_capabilities machine required = all (λ c. includes c machine.capabilities) required

unfoldable pub allowed : MachineRuntimeStatus → List MachineRuntimeStatus
allowed idle = assigned ∷ offline ∷ faulted ∷ []
allowed assigned = working ∷ idle ∷ faulted ∷ offline ∷ []
allowed working = completed ∷ faulted ∷ offline ∷ []
allowed completed = idle ∷ assigned ∷ offline ∷ []
allowed faulted = idle ∷ offline ∷ []
allowed offline = idle ∷ []

abbrev pub same_status : MachineRuntimeStatus → MachineRuntimeStatus → Bool
same_status idle idle = true
same_status assigned assigned = true
same_status working working = true
same_status completed completed = true
same_status faulted faulted = true
same_status offline offline = true
same_status _ _ = false

unfoldable pub can_transition_machine_status : MachineRuntimeStatus → MachineRuntimeStatus → Bool
unfolding allowed
can_transition_machine_status from to = any (same_status to) (allowed from)

-- ===== src/Resources/Reservations.antt =====
-- The service functions of crates/resources/src/lib.rs: a reservation holds an amount of a unit, out
-- of its parent's amount where it has one.
use ai_harness.Base.{
  ℕ, zero, suc, ◌+◌, Bool, true, ◌&&◌, ◌||◌, not, Option, none, some, String, List, [], ◌∷◌, ◌==◌,
  ltb, leb, opt_eq, coalesce, if◌then◌else◌, filter,
}
use ai_harness.Base.Int.{ℤ, pos, negsuc}
use text.Mathlib.Text.{◌==◌ as str_eq}
use ai_harness.Base.Txn.{
  Txn, KernelError, fault, pure, require, or_fail, safe, invalid_argument, not_found, conflict,
  failed_precondition, resource_exhausted, internal, ◌>>=◌, ◌>>◌,
}
use ai_harness.Domain.ReservationState.{ReservationState}
use ai_harness.Store.Models.{ReservationRow, NewReservation, ReservationPatch}
use ai_harness.Store.Kernel.{KernelTxn, run_stream, resource_reservation, i64_max}
use ai_harness.Store.Outbox.{stage}
use ai_harness.Store.Reservations.{
  get_reservation, list_children, insert_reservation, in_state, cas_reservation,
}
use ai_harness.Resources.Kinds.{ResourceUnit, as_str}

pub record ReserveRequest : Type 0 where
  pub reservation_id : Option ℕ
  pub run_id : ℕ
  pub unit : ResourceUnit
  pub amount : ℤ
  pub parent : Option ℕ
  pub fencing_token : ℕ

-- `ACTIVE`: the states that hold budget.
unfoldable pub is_active : ReservationRow → Bool
is_active row =
    in_state ReservationState.reserved row
    || (in_state ReservationState.allocated row || in_state ReservationState.unknown row)

abbrev pub missing : KernelError
missing = fault not_found "reservation does not exist"

abbrev pub reused : KernelError
reused = fault conflict "reservation_id reused with different fields"

abbrev pub state_conflict : KernelError
state_conflict = record {
  code = conflict;
  retry = safe;
  detail = "reservation lost a race from its state";
}

abbrev pub exhausted : String → KernelError
exhausted detail = record { code = resource_exhausted; retry = safe; detail = detail }

abbrev pub load : ℕ → KernelError → Txn KernelTxn ReservationRow
load id e txn = or_fail (get_reservation id txn) e txn

-- `i64::checked_add`, of numbers that are not negative.
unfoldable pub checked_add : ℕ → ℕ → Option ℕ
checked_add a b = if leb (a + b) i64_max then some (a + b) else none

-- `try_fold(0, |acc, child| acc.checked_add(child.amount))`.
unfoldable pub checked_sum : ℕ → List ReservationRow → Option ℕ
unfolding checked_add
checked_sum acc [] = some acc
checked_sum acc (child ∷ rest) = elim (checked_add acc child.amount) [
  | none ↦ none
  | some sum ↦ checked_sum sum rest
]

-- The children that are counted against a parent's budget.
abbrev pub counts : String → ReservationRow → Bool
counts unit child = is_active child && str_eq child.unit unit

-- `checked_add(amount).is_none_or(|total| total > parent.amount)`.
abbrev pub exceeds : Option ℕ → ℕ → Bool
exceeds none budget = true
exceeds (some total) budget = ltb budget total

abbrev pub delegated_sum : ℕ → String → Txn KernelTxn ℕ
delegated_sum parent_id unit txn =
    or_fail (checked_sum 0 (filter (counts unit) (list_children parent_id txn)))
      (exhausted "delegated budget sum overflows i64") txn

unfoldable pub check_parent_budget : ℕ → ResourceUnit → ℕ → Txn KernelTxn (Unit {0})
check_parent_budget parent_id unit amount = do
  parent ← load parent_id missing
  require (is_active parent) (fault failed_precondition "parent reservation is not active")
  require (str_eq parent.unit (as_str unit))
      (fault failed_precondition "child unit differs from the parent reservation's unit")
  delegated ← delegated_sum parent_id (as_str unit)
  require (not (exceeds (checked_add delegated amount) parent.amount))
      (exhausted "delegation exceeds parent budget")

abbrev pub check_parent : Option ℕ → ResourceUnit → ℕ → Txn KernelTxn (Unit {0})
check_parent none unit amount = pure tt
check_parent (some parent_id) unit amount = check_parent_budget parent_id unit amount

unfoldable pub stage_resource_event : String → ReservationRow → Txn KernelTxn (Unit {0})
stage_resource_event event_type row = do
  _ ← stage (run_stream row.run_id) event_type (resource_reservation row)
  pure tt

abbrev pub invisible : KernelError
invisible = fault internal "reservation visible in its own transaction"

unfoldable pub stage_and_fetch : ℕ → String → Txn KernelTxn ReservationRow
stage_and_fetch id event_type = do
  row ← load id invisible
  stage_resource_event event_type row
  pure row

abbrev pub is_identical : ReserveRequest → ℕ → ReservationRow → Bool
is_identical request amount existing =
    existing.run_id == request.run_id
    && (str_eq existing.unit (as_str request.unit)
        && (existing.amount == amount
            && (opt_eq existing.parent_reservation_id request.parent
                && existing.fencing_token == request.fencing_token)))

abbrev pub new_reservation : ℕ → ℕ → ReserveRequest → ℕ → NewReservation
new_reservation now_ms id request amount = record {
  reservation_id = id;
  run_id = request.run_id;
  resource_type = as_str request.unit;
  state = ReservationState.reserved;
  amount = amount;
  unit = as_str request.unit;
  fencing_token = request.fencing_token;
  parent_reservation_id = request.parent;
  created_at_ms = now_ms;
}

abbrev pub reserve_new : ℕ → ℕ → ReserveRequest → ℕ → Txn KernelTxn ReservationRow
reserve_new now_ms id request amount = do
  check_parent request.parent request.unit amount
  insert_reservation (new_reservation now_ms id request amount)
  stage_and_fetch id "ResourceReserved"

abbrev pub reserve_on :
    ℕ → ℕ → ReserveRequest → ℕ → Option ReservationRow → Txn KernelTxn ReservationRow
reserve_on now_ms id request amount none = reserve_new now_ms id request amount
reserve_on now_ms id request amount (some existing) = do
  require (is_identical request amount existing) reused
  pure existing

-- The amount of a request, where it is positive.
abbrev pub positive : ℤ → Option ℕ
positive (pos zero) = none
positive (pos (suc n)) = some (suc n)
positive (negsuc n) = none

-- `minted` is the identifier that the provider would give.
unfoldable pub reserve : ℕ → ℕ → ReserveRequest → Txn KernelTxn ReservationRow
reserve now_ms minted request = do
  amount ←
      or_fail (positive request.amount)
        (fault invalid_argument "reservation amount must be positive")
  let id = coalesce request.reservation_id minted
  λ txn. reserve_on now_ms id request amount (get_reservation id txn) txn

abbrev pub token_refused : KernelError
token_refused = fault failed_precondition "fencing token does not own this reservation"

abbrev pub verify_token : ReservationRow → ℕ → Txn KernelTxn (Unit {0})
verify_token row fencing_token = require (row.fencing_token == fencing_token) token_refused

abbrev pub to_state : ReservationState → ReservationPatch
to_state state = record { state = some state; fencing_token = none }

-- One compare-and-set with its event.
unfoldable pub advance :
    ℕ → ReservationState → ReservationPatch → String → Txn KernelTxn ReservationRow
advance id expect_state patch event_type = do
  won ← cas_reservation id expect_state patch
  require won state_conflict
  stage_and_fetch id event_type

unfoldable pub allocate : ℕ → ℕ → Txn KernelTxn ReservationRow
allocate id fencing_token = do
  row ← load id missing
  verify_token row fencing_token
  advance id ReservationState.reserved (to_state ReservationState.allocated) "ResourceAllocated"

unfoldable pub release : ℕ → ℕ → Txn KernelTxn ReservationRow
release id fencing_token = do
  row ← load id missing
  verify_token row fencing_token
  advance id ReservationState.allocated (to_state ReservationState.released) "ResourceReleased"

unfoldable pub mark_unknown : ℕ → Txn KernelTxn ReservationRow
mark_unknown id = do
  row ← load id missing
  require (in_state ReservationState.allocated row || in_state ReservationState.reserved row)
      state_conflict
  advance id row.state (to_state ReservationState.unknown) "ResourceUnknown"

abbrev pub recovered : ℕ → ReservationPatch
recovered new_fencing_token = record {
  state = some ReservationState.allocated;
  fencing_token = some new_fencing_token;
}

abbrev pub not_forward : KernelError
not_forward = fault failed_precondition "recovery fencing token must exceed the previous owner"

unfoldable pub recover_unknown : ℕ → ℕ → Txn KernelTxn ReservationRow
recover_unknown id new_fencing_token = do
  row ← load id missing
  require (ltb row.fencing_token new_fencing_token) not_forward
  advance id ReservationState.unknown (recovered new_fencing_token) "ResourceAllocated"

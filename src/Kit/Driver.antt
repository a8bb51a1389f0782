-- ===== src/Kit/Driver.antt =====
-- packages/gatekeeper-kit/src/kit-gatekeeper.ts: the journal of a resource driver and the lifecycle
-- of its actions. The sequencer runs one operation at a time. The host says whether a write of the
-- journal or of the overlay succeeds, which tools are implemented, and how a call of an
-- implementation ends. An operation returns the driver that it leaves, beside the error it throws.
pub mod Calm
pub mod Once
pub mod Order
use gatekeeper_os.Shared.{ActionDescription}
use gatekeeper_os.Prelude.{
  ◌&&◌, arith, string_eq, nat_eq, ◌↔◌, ltb, delete_where, none, not, ◌||◌, false, [], if◌then◌else◌,
  some, ◌∷◌, String, true, ◌==◌, nat_beq, find?, upsert, any, Option, Bool, ◌≡◌, ◌++◌, ℕ, List, Eq,
}

pub data Status : Type 0 where
  submitting pending applying applied rejected reverting reverted uncertain : Status

abbrev status_code : Status → ℕ
status_code submitting = 0
status_code pending = 1
status_code applying = 2
status_code applied = 3
status_code rejected = 4
status_code reverting = 5
status_code reverted = 6
status_code uncertain = 7

abbrev pub status_beq : Status → Status → Bool
status_beq a b = nat_beq (status_code a) (status_code b)

pub status_beq_iff : (a b : Status) → (status_beq a b ≡ true) ↔ (a ≡ b)
status_beq_iff a b = ground arith

instance abbrev pub status_eq : Eq Status
status_eq = record { equals = status_beq; equals_iff = status_beq_iff }

-- `params` is the JSON text of the parameters.
pub record ActionRecord : Type 0 where
  pub id : ℕ
  pub tool : String
  pub params : String
  pub description : ActionDescription
  pub status : Status
  pub call_key : Option String
  pub remote_id : Option String

pub record OverlayEntry : Type 0 where
  pub action_id : ℕ
  pub kind : String
  pub payload : String

-- A call of an implementation's `apply` or `revert`.
pub data Effect : Type 0 where
  apply_called revert_called : ℕ → Effect

pub record Driver : Type 0 where
  pub records : List ActionRecord
  pub overlay : List OverlayEntry
  pub effects : List Effect

pub data DriverError : Type 0 where
  unknown_action not_pending earlier_undecided apply_uncertain revert_uncertain not_revertible
        implementation_missing write_failed requires_reconciliation :
      DriverError

-- `apply` gives the remote id, if any, or `none` where it throws; `revert` whether it returns.
pub record Host : Type 0 where
  pub writes : Driver → ActionRecord → Bool
  pub retires : Driver → ℕ → Bool
  pub is_implemented : String → Bool
  pub has_revert : String → Bool
  pub apply : Driver → ActionRecord → Option (Option String)
  pub revert : Driver → ActionRecord → Bool

abbrev pub with_status : Status → ActionRecord → ActionRecord
with_status status r = record r { status = status }

-- `applied?.remoteId ? { remoteId } : {}`
abbrev pub with_remote : Option String → ActionRecord → ActionRecord
with_remote none r = r
with_remote (some remote_id) r =
    if remote_id == "" then r else record r { remote_id = some remote_id }

abbrev pub is_settled : Status → Bool
is_settled status = status == applied || status == rejected || status == reverted

abbrev pub is_unresolved : Status → Bool
is_unresolved status =
    status == submitting || status == applying || status == reverting || status == uncertain

unfoldable pub assert_settled : Driver → Option DriverError
assert_settled d =
    if any (λ (r : ActionRecord). is_unresolved r.status) d.records
    then some requires_reconciliation
    else none

unfoldable pub get_record : Driver → ℕ → Option ActionRecord
get_record d id = find? (λ r. r.id == id) d.records

abbrev pub set_record : ActionRecord → List ActionRecord → List ActionRecord
set_record r rows = upsert (λ old. old.id == r.id) (λ old. r) r rows

abbrev pub performed : Effect → Driver → Driver
performed e d = record d { effects = d.effects ++ e ∷ [] }

module _ (h : Host) where
  -- A write that throws leaves the records in memory as they were.
  unfoldable pub save_record : Driver → ActionRecord → Driver × Bool
  save_record d r =
      if h.writes d r then (record d { records = set_record r d.records }, true) else (d, false)

  -- overlay.remove
  unfoldable pub retire : Driver → ℕ → Driver × Option DriverError
  retire d id =
      if h.retires d id
      then (record d { overlay = delete_where (λ e. e.action_id == id) d.overlay }, none)
      else (d, some write_failed)

  -- A save, and the error that is thrown after it.
  unfoldable pub save_then_throw : Driver → ActionRecord → DriverError → Driver × Option DriverError
  save_then_throw d r error =
      let (left, is_saved) = save_record d r in
      (left, some (if is_saved then error else write_failed))

  unfoldable pub save_then_retire : Driver → ActionRecord → Driver × Option DriverError
  save_then_retire d r =
      let (left, is_saved) = save_record d r in
      let done = retire left r.id in if is_saved then done else (left, some write_failed)

  -- The implementation is called, or found missing, once the record is "applying".
  unfoldable pub apply_begun : ActionRecord → Driver → Driver × Option DriverError
  apply_begun r d =
      if not (h.is_implemented r.tool)
      then save_then_throw d (with_status uncertain r) apply_uncertain
      else elim (h.apply d r) [
        | none ↦
            save_then_throw (performed (apply_called r.id) d) (with_status uncertain r)
              apply_uncertain
        | some remote ↦
            save_then_retire (performed (apply_called r.id) d)
              (with_remote remote (with_status applied r))
      ]

  abbrev pub is_blocked : Driver → ℕ → Bool
  is_blocked d id =
      any (λ (other : ActionRecord). ltb other.id id && not (is_settled other.status)) d.records

  pub apply_found : Driver → Option ActionRecord → Driver × Option DriverError
  apply_found d none = (d, some unknown_action)
  apply_found d (some r) =
      let (begun, is_begun) = save_record d (with_status applying r) in
      if r.status == applied
      then retire d r.id
      else if not (r.status == pending)
      then (d, some not_pending)
      else if is_blocked d r.id
      then (d, some earlier_undecided)
      else if not is_begun
      then (begun, some write_failed)
      else apply_begun r begun

  unfoldable pub apply_recorded : Driver → ℕ → Driver × Option DriverError
  unfolding apply_found
  apply_recorded d id = apply_found d (get_record d id)

  pub reject_found : Driver → Option ActionRecord → Driver × Option DriverError
  reject_found d none = (d, some unknown_action)
  reject_found d (some r) =
      if r.status == rejected
      then retire d r.id
      else if not (r.status == pending)
      then (d, some not_pending)
      else save_then_retire d (with_status rejected r)

  unfoldable pub reject_action : Driver → ℕ → Driver × Option DriverError
  unfolding reject_found
  reject_action d id = reject_found d (get_record d id)

  unfoldable pub revert_begun : ActionRecord → Driver → Driver × Option DriverError
  revert_begun r d =
      let after = performed (revert_called r.id) d in
      let (left, is_saved) = save_record after (with_status reverted r) in
      if h.revert d r
      then (left, if is_saved then none else some write_failed)
      else save_then_throw after (with_status uncertain r) revert_uncertain

  pub revert_found : Driver → Option ActionRecord → Driver × Option DriverError
  revert_found d none = (d, some unknown_action)
  revert_found d (some r) =
      let (begun, is_begun) = save_record d (with_status reverting r) in
      if r.status == reverted
      then (d, none)
      else if not (h.is_implemented r.tool)
      then (d, some implementation_missing)
      else if not (r.status == applied)
          || not r.description.implements_revert
          || not (h.has_revert r.tool)
      then (d, some not_revertible)
      else if not is_begun
      then (begun, some write_failed)
      else revert_begun r begun

  unfoldable pub revert_action : Driver → ℕ → Driver × Option DriverError
  unfolding revert_found
  revert_action d id = revert_found d (get_record d id)

-- The operations that the kernel calls on a driver; each has a host of its own.
pub data Operation : Type 0 where
  apply_action reject revert : Host → ℕ → Operation

unfoldable pub operate : Operation → Driver → Driver
operate (apply_action h id) d = (apply_recorded h d id).0
operate (reject h id) d = (reject_action h d id).0
operate (revert h id) d = (revert_action h d id).0

unfoldable pub operate_all : List Operation → Driver → Driver
operate_all [] d = d
operate_all (o ∷ os) d = operate_all os (operate o d)

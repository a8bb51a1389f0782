-- ===== src/Fs/Transaction/Machine.antt =====
-- The state of a transaction of apply.ts, the host, and the calls of the platform.
use mathlib.Core.Option
use gatekeeper_os.Prelude.{
  none, some, true, false, [], ◌∷◌, nat_eq, is_some, not, maybe, take, length, if◌then◌else◌, ◌&&◌,
  ◌+◌, ◌-◌, ◌++◌, ℕ, List, Bool, Option,
}
use gatekeeper_os.Fs.Files.{FileState, Identity, same, is_regular, identity_of}
use gatekeeper_os.Fs.Journal.{Journal, TxRecord, set_record}

pub record Names : Type 0 where
  pub target : Option FileState
  pub stage : Option FileState

pub record State : Type 0 where
  pub names : Names
  pub journal : Journal
  pub current : Option TxRecord
  pub lost : List FileState

pub data Boundary : Type 0 where
  at_preimage at_intent at_staged at_written at_synced at_publishing at_rechecked at_published
        at_verified at_parent_synced at_receipt :
      Boundary

pub data Syscall : Type 0 where
  read_record read_receipt open_anchor inspect_baseline write_preimage write_intent open_stage
        prepare_stage record_staged write_stage sync_stage choose_publisher record_publishing
        check_anchor inspect_stage inspect_target link_stage identify_target identify_stage
        unlink_stage choose_exchange exchange_names identify_swapped recheck_target record_rename
        rename_stage inspect_swapped recheck_anchor inspect_final sync_parent record_published
        write_receipt record_applied record_uncertain :
      Syscall

-- A call returns, throws with or without its effect, or the process dies before or after it.
pub data End : Type 0 where
  done throws throws_late dies dies_late : End

pub record Host : Type 0 where
  pub ends : Syscall → End
  pub hooks : Boundary → End
  pub meddle : Boundary → Names → Names
  pub created : FileState
  pub clock : Syscall → ℕ
  pub progress : ℕ
  pub prefers_exchange : Bool
  pub offers_exchange : Bool
  pub swaps : Bool
  pub euid : Option ℕ

pub data Outcome {ℓ} (A : Type ℓ) : Type ℓ where
  returned : A → State → Outcome A
  threw died : State → Outcome A

-- The state in which a transaction is left.
abbrev pub left_by {ℓ} : {A : Type ℓ} → Outcome A → State
left_by (returned a s) = s
left_by (threw s) = s
left_by (died s) = s

abbrev pub Tx {ℓ} : Type ℓ → Type ℓ
Tx A = State → Outcome A

abbrev pub continue {ℓ κ} : {A : Type ℓ} {B : Type κ} → Outcome A → (A → Tx B) → Outcome B
continue (returned a s) k = k a s
continue (threw s) k = threw s
continue (died s) k = died s

infixl 5 ◌>>=◌ ◌>>◌
abbrev pub ◌>>=◌ {ℓ κ} : {A : Type ℓ} {B : Type κ} → Tx A → (A → Tx B) → Tx B
◌>>=◌ m k s = continue (m s) k

abbrev pub ◌>>◌ {ℓ} : {B : Type ℓ} → Tx (Unit {0}) → Tx B → Tx B
◌>>◌ m k s = continue (m s) (λ _. k)

abbrev pub give {ℓ} : {A : Type ℓ} → A → Tx A
give a s = returned a s

abbrev pub deny {ℓ} : {A : Type ℓ} → Tx A
deny s = threw s

abbrev pub require : Bool → Tx (Unit {0})
require true s = returned tt s
require false s = threw s

abbrev pub ended : End → (before partly after : State) → Outcome (Unit {0})
ended done before partly after = returned tt after
ended throws before partly after = threw partly
ended throws_late before partly after = threw after
ended dies before partly after = died before
ended dies_late before partly after = died after

abbrev pub on_names : (Names → Names) → State → State
on_names f s = record s { names = f s.names }

abbrev pub on_journal : (Journal → Journal) → State → State
on_journal f s = record s { journal = f s.journal }

abbrev pub look {ℓ} : {A : Type ℓ} → (State → A) → Tx A
look f s = returned (f s) s

abbrev via : Identity → (FileState → FileState) → Option FileState → Option FileState
via i f none = none
via i f (some g) = some (if same (some g) i then f g else g)

-- What a descriptor of the file reaches, under whichever name.
abbrev pub by_descriptor : Identity → (FileState → FileState) → Names → Names
by_descriptor i f n = record { target = via i f n.target; stage = via i f n.stage }

-- Positioned writes over the old bytes, from the first on.
abbrev pub overwrite : List ℕ → List ℕ → List ℕ
overwrite [] old = old
overwrite (b ∷ bs) [] = b ∷ bs
overwrite (b ∷ bs) (o ∷ os) = b ∷ overwrite bs os

abbrev pub write_bytes : (time : ℕ) → List ℕ → FileState → FileState
write_bytes time bytes f = record f {
  bytes = overwrite bytes f.bytes;
  size = length (overwrite bytes f.bytes);
  mtime_ns = time;
  ctime_ns = time;
}

abbrev linked : (time : ℕ) → FileState → FileState
linked time f = record f { links = f.links + 1; ctime_ns = time }

abbrev touched : (time : ℕ) → FileState → FileState
touched time f = record f { ctime_ns = time }

-- link(2) of the stage to a target that does not exist
abbrev link_names : (time : ℕ) → Names → Names
link_names time n = record {
  target = Option.map (linked time) n.stage;
  stage = Option.map (linked time) n.stage;
}

abbrev unlinked : (time : ℕ) → Option FileState → Option FileState → Option FileState
unlinked time none target = target
unlinked time (some f) target = maybe target none (λ g. some (
    if same (some g) (identity_of f) then record g { links = g.links - 1; ctime_ns = time } else g))

abbrev unlink_names : (time : ℕ) → Names → Names
unlink_names time n = record { target = unlinked time n.stage n.target; stage = none }

-- rename(2) of the stage over the target, which does nothing where both are the same file
abbrev rename_names : (time : ℕ) → Names → Names
rename_names time n = maybe n.stage n (λ f.
    if same n.target (identity_of f)
    then n
    else record { target = some (touched time f); stage = none })

abbrev swap_names : (time : ℕ) → Names → Names
swap_names time n = record {
  target = Option.map (touched time) n.stage;
  stage = Option.map (touched time) n.target;
}

-- A file goes when its name is taken away and the other name is not its own.
abbrev pub gone : (file other : Option FileState) → List FileState
gone none other = []
gone (some f) other = if same other (identity_of f) then [] else f ∷ []

abbrev pub lose : List FileState → State → State
lose files s = record s { lost = s.lost ++ files }

abbrev pub inspected : Option FileState → Tx (Option FileState)
inspected none = give none
inspected (some f) = if is_regular f then give (some f) else deny

module _ (h : Host) where
  abbrev pub attempt : Syscall → (State → State) → Tx (Unit {0})
  attempt c f s = ended (h.ends c) s s (f s)

  abbrev pub check : Syscall → Tx (Unit {0})
  check c = attempt c (λ s. s)

  abbrev pub hook : Boundary → Tx (Unit {0})
  hook b s = let met = on_names (h.meddle b) s in ended (h.hooks b) met met met

  -- `inspect` of a name
  abbrev pub inspect : Syscall → (State → Option FileState) → Tx (Option FileState)
  inspect c name = check c >> (look name >>= inspected)

  -- `identityOf` a name
  abbrev pub identify : Syscall → (State → Option FileState) → Tx (Option FileState)
  identify c name = check c >> look name

  abbrev pub persist_record : Syscall → Option TxRecord → Tx (Unit {0})
  persist_record c none s = threw s
  persist_record c (some t) s =
      let held = record s { current = some t } in
      ended (h.ends c) held held (on_journal (set_record t) held)

  -- `record` is assigned before it is written.
  abbrev pub start_record : Syscall → TxRecord → Tx (Unit {0})
  start_record c t s = persist_record c (some t) s

  -- `persist`, once `record` is set
  abbrev pub persist : Syscall → (TxRecord → TxRecord) → Tx (Unit {0})
  persist c change s = persist_record c (Option.map change s.current) s

  abbrev pub write_effect : Identity → List ℕ → Names → Names
  write_effect i bytes = by_descriptor i (write_bytes (h.clock write_stage) bytes)

  -- A write that throws has written a part.
  abbrev pub write_staged : Identity → List ℕ → Tx (Unit {0})
  write_staged i desired s =
      ended (h.ends write_stage) s (on_names (write_effect i (take h.progress desired)) s)
        (on_names (write_effect i desired) s)

  -- A call that fails where it is not possible.
  abbrev pub guarded : Syscall → (State → Bool) → (State → State) → Tx (Unit {0})
  guarded c possible f s = (require (possible s) >> attempt c f) s

  abbrev pub link_effect : State → State
  link_effect = on_names (link_names (h.clock link_stage))

  abbrev pub link_stage_to_target : Tx (Unit {0})
  link_stage_to_target =
      guarded link_stage (λ s. is_some s.names.stage && not (is_some s.names.target)) link_effect

  abbrev pub unlink_effect : State → State
  unlink_effect s =
      on_names (unlink_names (h.clock unlink_stage)) (lose (gone s.names.stage s.names.target) s)

  abbrev pub unlink_stage_name : Tx (Unit {0})
  unlink_stage_name = guarded unlink_stage (λ s. is_some s.names.stage) unlink_effect

  abbrev pub rename_effect : State → State
  rename_effect s =
      on_names (rename_names (h.clock rename_stage)) (lose (gone s.names.target s.names.stage) s)

  abbrev pub rename_stage_to_target : Tx (Unit {0})
  rename_stage_to_target = guarded rename_stage (λ s. is_some s.names.stage) rename_effect

  -- The exchange tool swaps the names, or it does nothing.
  abbrev pub exchange_effect : Names → Names
  exchange_effect n =
      if h.swaps && is_some n.target && is_some n.stage
      then swap_names (h.clock exchange_names) n
      else n

  abbrev pub exchange_stage_and_target : Tx (Unit {0})
  exchange_stage_and_target = attempt exchange_names (on_names exchange_effect)

-- ===== src/Kit/Sequencer.antt =====
-- packages/gatekeeper-kit/src/action-sequencer.ts: the ids of an instance's actions. The file is what
-- readJson finds: nothing, something that it or the check refuses, or a state. A write can throw
-- before or after the new state is in place. `max_safe` is the largest safe integer.
pub mod Laws
use gatekeeper_os.Prelude.{
  [], ◌∷◌, nat_eq, ◌==◌, not, ◌||◌, ◌∷◌, leb, none, ltb, if◌then◌else◌, some, List, ◌+◌, Option, ℕ,
  Bool,
}

pub data File : Type 0 where
  absent corrupt : File
  saved : (version next : ℕ) → File

pub data Write : Type 0 where
  written failed failed_in_place : Write

pub record Sequencer : Type 0 where
  pub has_path : Bool
  pub next_id : ℕ
  pub file : File

abbrev pub larger : ℕ → ℕ → ℕ
larger a b = if leb a b then b else a

module _ (max_safe : ℕ) where
  abbrev load_from : Sequencer → File → Option Sequencer
  load_from s absent = some s
  load_from s corrupt = none
  load_from s (saved version next) =
      if not (version == 1) || ltb max_safe next || ltb next 1
      then none
      else some (record s { next_id = larger s.next_id next })

  unfoldable pub load : Sequencer → Option Sequencer
  load s = if s.has_path then load_from s s.file else some s

  abbrev pub with_file : ℕ → Sequencer → Sequencer
  with_file next s = record s { file = saved 1 next }

  abbrev pub reserved : ℕ → Sequencer → Sequencer
  reserved next s = record s { next_id = next }

  abbrev store_next : Write → Sequencer → Sequencer × Option ℕ
  store_next written s = (reserved (s.next_id + 1) (with_file (s.next_id + 1) s), some s.next_id)
  store_next failed s = (s, none)
  store_next failed_in_place s = (with_file (s.next_id + 1) s, none)

  abbrev next_loaded : Write → Sequencer → Option Sequencer → Sequencer × Option ℕ
  next_loaded w s none = (s, none)
  next_loaded w s (some t) =
      if leb max_safe t.next_id
      then (t, none)
      else if t.has_path
      then store_next w t
      else (reserved (t.next_id + 1) t, some t.next_id)

  -- `none` is a throw.
  unfoldable pub next_id_of : Write → Sequencer → Sequencer × Option ℕ
  next_id_of w s = next_loaded w s (load s)

  -- The constructor on the path of an earlier sequencer.
  unfoldable pub reopen : ℕ → Sequencer → Option Sequencer
  reopen minimum s =
      if ltb max_safe minimum || ltb minimum 1 then none else load (reserved minimum s)

-- The program reserves an id, or it starts again; a start that fails leaves the file as it was.
pub data Event : Type 0 where
  reserve : Write → Event
  restart : (minimum : ℕ) → Event

abbrev kept {ℓ} : {A : Type ℓ} → A → Option A → A
kept a none = a
kept a (some b) = b

abbrev given {ℓ} : {A : Type ℓ} → Option A → List A → List A
given none xs = xs
given (some a) xs = a ∷ xs

-- The ids that are handed out, in order.
unfoldable pub ids_of : ℕ → List Event → Sequencer → List ℕ
ids_of max_safe [] s = []
ids_of max_safe (reserve w ∷ es) s =
    let (t, id) = next_id_of max_safe w s in given id (ids_of max_safe es t)
ids_of max_safe (restart minimum ∷ es) s = ids_of max_safe es (kept s (reopen max_safe minimum s))

-- ===== src/Kit/TokenStore.antt =====
-- packages/gatekeeper-kit/src/token-store.ts: the accounts, the generations and the refreshes in
-- flight. A record is its JSON text: encryption and the file are the platform's, and whether a write
-- succeeds is an argument. An operation that throws gives `none`.
pub mod Laws
use gatekeeper_os.Prelude.{
  [], ◌∷◌, not, nat_eq, string_eq, ◌||◌, true, false, ◌==◌, ◌∷◌, none, some, ◌+◌, ℕ, if◌then◌else◌,
  Option, String, List, Bool,
}

pub record TokenStore : Type 0 where
  pub accounts : String → Option String
  pub generations : String → ℕ
  -- the generation at which the refresh in flight began
  pub refreshes : String → Option ℕ

-- Map.set and Map.delete
abbrev pub assign {ℓ} : {A : Type ℓ} → String → A → (String → A) → String → A
assign key value f k = if k == key then value else f k

abbrev pub overtaking : String → Option String → TokenStore → TokenStore
overtaking operator_id account s = record s {
  accounts = assign operator_id account s.accounts;
  generations = assign operator_id (s.generations operator_id + 1) s.generations;
}

unfoldable pub put : Bool → String → String → TokenStore → Option TokenStore
put writes operator_id value s =
    if operator_id == "" || not writes then none else some (overtaking operator_id (some value) s)

unfoldable pub remove : Bool → String → TokenStore → Option TokenStore
remove writes operator_id s =
    if operator_id == "" || not writes then none else some (overtaking operator_id none s)

abbrev pub is_in_flight : Option ℕ → Bool
is_in_flight none = false
is_in_flight (some g) = true

-- A refresh that is in flight is shared.
unfoldable pub refresh : String → TokenStore → Option TokenStore
refresh operator_id s =
    if operator_id == ""
    then none
    else if is_in_flight (s.refreshes operator_id)
    then some s
    else some
        (record s { refreshes = assign operator_id (some (s.generations operator_id)) s.refreshes })

abbrev pub landed : String → TokenStore → TokenStore
landed operator_id s = record s { refreshes = assign operator_id none s.refreshes }

abbrev kept {ℓ} : {A : Type ℓ} → A → Option A → A
kept a none = a
kept a (some b) = b

-- The operation of the refresh ends, with a value or an error; a stale value is dropped.
abbrev settled : Bool → String → Option String → Option ℕ → TokenStore → TokenStore
settled writes operator_id value none s = s
settled writes operator_id none (some generation) s = landed operator_id s
settled writes operator_id (some value) (some generation) s =
    if s.generations operator_id == generation
    then landed operator_id (kept s (put writes operator_id value s))
    else landed operator_id s

unfoldable pub settle : Bool → String → Option String → TokenStore → TokenStore
settle writes operator_id value s = settled writes operator_id value (s.refreshes operator_id) s

pub data Call : Type 0 where
  putting : Bool → (operator_id value : String) → Call
  removing : Bool → (operator_id : String) → Call
  refreshing : (operator_id : String) → Call
  settling : Bool → (operator_id : String) → Option String → Call

unfoldable pub run_call : Call → TokenStore → TokenStore
run_call (putting writes id value) s = kept s (put writes id value s)
run_call (removing writes id) s = kept s (remove writes id s)
run_call (refreshing id) s = kept s (refresh id s)
run_call (settling writes id value) s = settle writes id value s

unfoldable pub run_calls : List Call → TokenStore → TokenStore
run_calls [] s = s
run_calls (c ∷ cs) s = run_calls cs (run_call c s)

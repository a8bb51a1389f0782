-- ===== src/Kit/OauthNonce.antt =====
-- packages/gatekeeper-kit/src/oauth-nonce.ts: the map of pending nonces, in the order of insertion.
-- A nonce that randomBytes gives and the time are arguments. Keys have 32 ASCII characters, so the
-- comparison in constant time is equality.
pub mod Laws
pub mod Replay
pub mod Provenance
use gatekeeper_os.Prelude.{
  [], ◌∷◌, ◌+◌, ltb, none, string_eq, nat_eq, ◌&&◌, ◌||◌, find?, ◌==◌, true, leb, some, Bool,
  upsert, if◌then◌else◌, delete_where, Option, List, ℕ, String,
}
use Prim.Native.Char.{code}
use Prim.Native.String.{◌∷◌, [], count}

pub record Pending : Type 0 where
  pub nonce : String
  pub operator_id : String
  pub expires_at : ℕ
  pub stage : ℕ

-- `[A-Za-z0-9_-]`
abbrev is_between : ℕ → ℕ → ℕ → Bool
is_between low high n = leb low n && leb n high

abbrev is_base64url : ℕ → Bool
is_base64url n =
    is_between 65 90 n || is_between 97 122 n || is_between 48 57 n || n == 95 || n == 45

all_base64url : String → Bool
all_base64url [] = true
all_base64url (c ∷ s) = let rest = all_base64url s in is_base64url (code c) && rest

unfoldable pub is_nonce : String → Bool
unfolding all_base64url
is_nonce s = count s == 32 && all_base64url s

abbrev pub has_nonce : String → Pending → Bool
has_nonce nonce r = r.nonce == nonce

-- Map.set: the value of a present key is replaced where it stands.
abbrev pub set_pending : Pending → List Pending → List Pending
set_pending r rows = upsert (has_nonce r.nonce) (λ old. r) r rows

unfoldable pub sweep : List Pending → ℕ → List Pending
sweep rows now = delete_where (λ r. leb r.expires_at now) rows

-- `none` is the error for an empty operator.
unfoldable pub issue : ℕ → List Pending → String → String → ℕ → Option (List Pending)
issue ttl_ms rows operator_id nonce now =
    if operator_id == ""
    then none
    else some (
        set_pending
          (record {
            nonce = nonce;
            operator_id = operator_id;
            expires_at = now + ttl_ms;
            stage = 1;
          })
          (sweep rows now))

abbrev pub usable : ℕ → ℕ → Option Pending → Option Pending
usable stage now none = none
usable stage now (some r) = if r.stage == stage && ltb now r.expires_at then some r else none

-- The record is deleted whatever its stage and its time.
unfoldable pub take_pending : List Pending → String → ℕ → ℕ → List Pending × Option Pending
take_pending rows nonce stage now =
    if is_nonce nonce
    then (delete_where (has_nonce nonce) rows, usable stage now (find? (has_nonce nonce) rows))
    else (rows, none)

-- `next` is the callback nonce that is minted.
abbrev pub rotate : String → List Pending × Option Pending → List Pending × Option (String × String)
rotate next (rows, none) = (rows, none)
rotate next (rows, some r) =
    (set_pending (record r { nonce = next; stage = 2 }) rows, some (next, r.operator_id))

unfoldable pub advance_bound :
    List Pending → String → String → ℕ → List Pending × Option (String × String)
advance_bound rows nonce next now = rotate next (take_pending rows nonce 1 now)

unfoldable pub advance : List Pending → String → String → ℕ → List Pending × Option String
advance rows nonce next now =
    let (left, bound) = advance_bound rows nonce next now in
    (left, elim bound [ none ↦ none | some (minted, operator_id) ↦ some minted ])

abbrev pub answer : List Pending × Option Pending → List Pending × Option String
answer (rows, none) = (rows, none)
answer (rows, some r) = (rows, some r.operator_id)

unfoldable pub consume : List Pending → String → ℕ → List Pending × Option String
consume rows nonce now = answer (take_pending rows nonce 2 now)

-- The calls of one machine.
pub data Call : Type 0 where
  issued : (operator_id nonce : String) → ℕ → Call
  advanced : (nonce next : String) → ℕ → Call
  consumed : (nonce : String) → ℕ → Call
  swept : ℕ → Call

abbrev kept {ℓ} : {A : Type ℓ} → A → Option A → A
kept a none = a
kept a (some b) = b

unfoldable pub run_call : ℕ → Call → List Pending → List Pending
run_call ttl_ms (issued operator_id nonce now) rows =
    kept rows (issue ttl_ms rows operator_id nonce now)
run_call ttl_ms (advanced nonce next now) rows = (advance_bound rows nonce next now).0
run_call ttl_ms (consumed nonce now) rows = (consume rows nonce now).0
run_call ttl_ms (swept now) rows = sweep rows now

unfoldable pub run_calls : ℕ → List Call → List Pending → List Pending
run_calls ttl_ms [] rows = rows
run_calls ttl_ms (c ∷ cs) rows = run_calls ttl_ms cs (run_call ttl_ms c rows)

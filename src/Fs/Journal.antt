-- ===== src/Fs/Journal.antt =====
-- The private state of apply.ts: transaction records, preimages and receipts, each under the kind and
-- the action id that the source puts into the name of its file. Seals are intact, so a preimage or a
-- receipt that is found is the one that was written; reading one that is corrupt throws.
pub mod Consistent
use gatekeeper_os.Prelude.{
  nat_beq, nat_eq, arith, not, upsert, find?, any, ◌↔◌, ◌≡◌, Eq, true, false, ◌==◌, ◌&&◌, ℕ, List,
  Bool, Option, ==_iff,
}
use gatekeeper_os.Cli.Json.{Text, text_eq}
use gatekeeper_os.Fs.Files.{Expected, Identity}

pub data Kind : Type 0 where
  apply revert : Kind

pub data Phase : Type 0 where
  intent staged publishing published applied uncertain : Phase

pub data Publication : Type 0 where
  exchange rename link : Publication

pub record Ref : Type 0 where
  pub kind : Kind
  pub action_id : ℕ

pub record TxRecord : Type 0 where
  pub ref : Ref
  pub resource : Text
  pub path : Text
  pub phase : Phase
  pub expected : Expected
  pub desired_size : ℕ
  pub desired_sha256 : Text
  pub staged : Option Identity
  pub publish : Option Publication

pub record Replaced : Type 0 where
  pub content : List ℕ
  pub sha256 : Text
  pub mode : ℕ
  pub identity : Identity

-- `replaced` is the file that was read, or its absence.
pub record Preimage : Type 0 where
  pub ref : Ref
  pub path : Text
  pub replaced : Option Replaced

pub record Receipt : Type 0 where
  pub ref : Ref
  pub resource_identity : Text
  pub path : Text
  pub size : ℕ
  pub sha256 : Text
  pub publish : Publication
  pub identity : Identity
  pub identity_size : ℕ
  pub mtime_ns : ℕ

pub record Journal : Type 0 where
  pub records : List TxRecord
  pub preimages : List Preimage
  pub receipts : List Receipt

abbrev pub kind_beq : Kind → Kind → Bool
kind_beq apply apply = true
kind_beq revert revert = true
kind_beq _ _ = false

abbrev pub ref_beq : Ref → Ref → Bool
ref_beq a b = kind_beq a.kind b.kind && a.action_id == b.action_id

pub kind_beq_iff : (a b : Kind) → (kind_beq a b ≡ true) ↔ (a ≡ b)
kind_beq_iff apply apply = ground arith
kind_beq_iff apply revert = ground arith
kind_beq_iff revert apply = ground arith
kind_beq_iff revert revert = ground arith

pub ref_beq_iff : (a b : Ref) → (ref_beq a b ≡ true) ↔ (a ≡ b)
ref_beq_iff a b = ground (arith, kind_beq_iff a.kind b.kind, ==_iff a.action_id b.action_id)

instance abbrev pub ref_eq : Eq Ref
ref_eq = record { equals = ref_beq; equals_iff = ref_beq_iff }

abbrev phase_code : Phase → ℕ
phase_code intent = 0
phase_code staged = 1
phase_code publishing = 2
phase_code published = 3
phase_code applied = 4
phase_code uncertain = 5

abbrev pub phase_beq : Phase → Phase → Bool
phase_beq a b = nat_beq (phase_code a) (phase_code b)

pub phase_beq_iff : (a b : Phase) → (phase_beq a b ≡ true) ↔ (a ≡ b)
phase_beq_iff a b = ground arith

instance abbrev pub phase_eq : Eq Phase
phase_eq = record { equals = phase_beq; equals_iff = phase_beq_iff }

unfoldable pub get_record : Journal → Ref → Option TxRecord
get_record j k = find? (λ (t : TxRecord). t.ref == k) j.records

unfoldable pub get_preimage : Journal → Ref → Option Preimage
get_preimage j k = find? (λ (p : Preimage). p.ref == k) j.preimages

unfoldable pub get_receipt : Journal → Ref → Option Receipt
get_receipt j k = find? (λ (r : Receipt). r.ref == k) j.receipts

unfoldable pub set_record : TxRecord → Journal → Journal
set_record t j = record j {
  records = upsert (λ (old : TxRecord). old.ref == t.ref) (λ old. t) t j.records;
}

unfoldable pub set_preimage : Preimage → Journal → Journal
set_preimage p j = record j {
  preimages = upsert (λ (old : Preimage). old.ref == p.ref) (λ old. p) p j.preimages;
}

unfoldable pub set_receipt : Receipt → Journal → Journal
set_receipt r j = record j {
  receipts = upsert (λ (old : Receipt). old.ref == r.ref) (λ old. r) r j.receipts;
}

-- `assertSettled` returns
unfoldable pub is_settled : Journal → Bool
is_settled j = not (any (λ (t : TxRecord). not (t.phase == applied)) j.records)

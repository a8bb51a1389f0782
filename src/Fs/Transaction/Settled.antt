-- ===== src/Fs/Transaction/Settled.antt =====
-- The journal of apply.ts after a transaction, however it ended.
use gatekeeper_os.Fs.Transaction.Guards.{run_then}
use gatekeeper_os.Fs.Transaction.Stages.{
  plan-Steady, steady_hook, publish-Steady, recheck-Steady, stage_file-Steady,
}
use gatekeeper_os.Fs.Transaction.Ends.{
  left_by-Ends, give-Ends, hook_then, attempt_then, mono-Ends, deny-Ends, continue-Ends, Any, Ends,
}
use gatekeeper_os.Fs.Transaction.Keeps.{
  require-Keeps, inspect-Keeps, ended-Ends, check-Keeps, Keeps,
}
use gatekeeper_os.Fs.Transaction.Consistent.{persist-Keeps, begin-Steady, Holds, Steady}
use gatekeeper_os.Fs.Journal.Consistent.{
  get_receipt-set_receipt, set_record-Consistent, set_receipt-Consistent, Complete, Undone,
  Consistent,
}
use mathlib.Core.Option
use gatekeeper_os.Prelude.{none, some, refl, sym, ◌∙◌, ◌≡◌, Option, List, ℕ}
use gatekeeper_os.Fs.Journal.{
  set_record, get_receipt, Journal, get_record, TxRecord, get_preimage, set_receipt, Publication,
  Receipt, published, applied,
}
use gatekeeper_os.Cli.Json.{Text}
use gatekeeper_os.Fs.Transaction.Run.{
  plan, settle, as_uncertain, started, run, as_applied, with_publication, is_desired, publish,
  target_of, recheck, stage_file, receipt_for, with_receipt, begin, finish, attempt_all, Request,
}
use gatekeeper_os.Fs.Transaction.Machine.{
  deny, threw, died, returned, left_by, record_uncertain, Outcome, Names, record_published,
  at_parent_synced, on_names, sync_parent, give, at_verified, at_receipt, hook, require,
  write_receipt, inspect_final, persist, inspect, on_journal, record_applied, recheck_anchor,
  persist_record, check, ◌>>=◌, ◌>>◌, Tx, Host, State,
}
use gatekeeper_os.Fs.Files.{FileState, Identity}

abbrev pub Safe : State → Type 0
Safe s = Consistent s.journal

module _ (digest : List ℕ → Text) (q : Request) (h : Host) where
  abbrev I : State → Type 0
  I = Steady digest q

  -- One stage, and the rest.
  stage_then {ℓ κ} :
      {A : Type ℓ} {B : Type κ} (m : Tx A) (k : A → Tx B)
      → Keeps I m
      → ((a : A) (s : State) → I s → Ends Safe Any (k a s))
      → (s : State) → I s
      → Ends Safe Any ((m >>= k) s)
  stage_then m k f g s i =
      continue-Ends Safe (λ _. I) Any (m s) k
        (mono-Ends I Any Safe (λ _. I) (m s) (λ t j. j.0) (λ a t j _. j) (f s i))
        (λ a t _ j. g a t j)

  step_then {κ} :
      {B : Type κ} (m : Tx (Unit {0})) (k : Tx B)
      → Keeps I m
      → ((s : State) → I s → Ends Safe Any (k s))
      → (s : State) → I s
      → Ends Safe Any ((m >> k) s)
  step_then m k f g = stage_then m (λ _. k) f (λ _. g)

  -- The last record may be written, or not.
  record_applied-Safe :
      (r : Receipt) (o : Option TxRecord) (s : State)
      → get_receipt s.journal q.ref ≡ some r
      → r.sha256 ≡ digest q.desired
      → Consistent s.journal
      → Holds digest q o s.journal
      → Ends Safe Any (persist_record h record_applied (Option.map as_applied o) s)
  record_applied-Safe r none s received content consistent held = deny-Ends Safe Any s consistent
  record_applied-Safe r (some t) s received content consistent held =
      let last = record t { phase = applied } in
      let now = record s { current = some last } in
      let complete : Complete s.journal last = record {
        receipt = r;
        preimage = held.preimage;
        received = rw held.ref received;
        content = content ∙ sym held.content;
        saved = rw held.ref held.saved;
      } in
      ended-Ends Safe (h.ends record_applied) now now (on_journal (set_record last) now) consistent
        consistent (set_record-Consistent last s.journal (λ _. complete) consistent)

  Holds-set_receipt :
      (o : Option TxRecord) (r : Receipt) (j : Journal)
      → Holds digest q o j
      → Holds digest q o (set_receipt r j)
  unfolding set_receipt get_preimage
  Holds-set_receipt none r j k = tt
  Holds-set_receipt (some t) r j k = record {
    ref = k.ref;
    content = k.content;
    preimage = k.preimage;
    saved = k.saved;
  }

  Undone-set_receipt : (r : Receipt) (j : Journal) → Undone q.ref j → Undone q.ref (set_receipt r j)
  unfolding set_receipt get_record
  Undone-set_receipt r j u = u

  with_receipt-Safe :
      (p : Publication) (o : Option FileState) (s : State)
      → I s
      → Ends Safe Any (with_receipt digest h q p o s)
  with_receipt-Safe p none s i = deny-Ends Safe Any s i.0
  with_receipt-Safe p (some f) s (consistent, undone, held) =
      let r = receipt_for digest h q p f in
      let now = on_journal (set_receipt r) s in
      let last = persist h record_applied as_applied in
      let safe = set_receipt-Consistent r s.journal undone consistent in
      attempt_then Safe Any h write_receipt (on_journal (set_receipt r))
        (hook h at_receipt >> (last >> give r)) s consistent safe
        (hook_then Safe Any h at_receipt (last >> give r) now safe (
          continue-Ends Safe Any Any (last (on_names (h.meddle at_receipt) now)) (λ _. give r)
            (record_applied-Safe r s.current (on_names (h.meddle at_receipt) now)
              (get_receipt-set_receipt r s.journal) refl safe
              (Holds-set_receipt s.current r s.journal held))
            (λ _ t j _. give-Ends Safe Any r t j tt)))

  finish-Safe :
      (i : Identity) (p : Publication) (s : State) → I s → Ends Safe Any (finish digest h q i p s)
  unfolding finish
  finish-Safe i p = step_then (check h recheck_anchor) _ (check-Keeps I h recheck_anchor) (
      stage_then (inspect h inspect_final target_of) _ (inspect-Keeps I h inspect_final target_of)
        λ file.
          step_then (require (is_desired digest h q file i)) _
            (require-Keeps I (is_desired digest h q file i))
            (step_then (hook h at_verified) _ (steady_hook digest q h at_verified) (
              step_then (check h sync_parent) _ (check-Keeps I h sync_parent) (
                step_then (hook h at_parent_synced) _ (steady_hook digest q h at_parent_synced) (
                  step_then (persist h record_published (with_publication digest h q published p)) _
                    (persist-Keeps digest q h record_published
                      (with_publication digest h q published p) (λ t. refl) (λ t. refl)
                      (λ t e. cc e))
                    (with_receipt-Safe p file))))))

  attempt_all-Safe : (s : State) → I s → Ends Safe Any (attempt_all digest h q s)
  unfolding attempt_all
  attempt_all-Safe = stage_then (begin digest h q) _ (begin-Steady digest q h) λ old.
      stage_then (stage_file digest h q old) _ (stage_file-Steady digest q h old) λ i.
        stage_then (plan digest h q q.expected) _ (plan-Steady digest q h q.expected) λ planned.
          step_then (recheck digest h q i planned) _ (recheck-Steady digest q h i planned) (
            stage_then (publish digest h q i planned) _ (publish-Steady digest q h i planned)
              λ p. finish-Safe i p)

  uncertain-Safe :
      (o : Option TxRecord) (s : State)
      → Safe s
      → Ends Safe Any (persist_record h record_uncertain (Option.map as_uncertain o) s)
  uncertain-Safe none s i = deny-Ends Safe Any s i
  uncertain-Safe (some t) s i =
      let now = record s { current = some (as_uncertain t) } in
      ended-Ends Safe (h.ends record_uncertain) now now
        (on_journal (set_record (as_uncertain t)) now) i i
        (set_record-Consistent (as_uncertain t) s.journal (λ e. cc e) i)

  settle-Safe : (o : Outcome Receipt) → Ends Safe Any o → Ends Safe Any (settle digest h q o)
  unfolding Ends
  settle-Safe (returned r s) e = e
  settle-Safe (died s) e = e
  settle-Safe (threw s) e =
      continue-Ends Safe Any Any (persist h record_uncertain as_uncertain s) (λ _. deny)
        (uncertain-Safe s.current s e) (λ _ t j _. j)

  run-Safe :
      (names : Names) (journal : Journal)
      → Consistent journal
      → Ends Safe Any (run digest h q (started names journal))
  run-Safe names journal i = run_then digest q h Safe Any (started names journal) i λ unrecorded.
      let s = started names journal in
      settle-Safe (attempt_all digest h q s) (attempt_all-Safe s (i, undone unrecorded, tt))
    where
      undone : get_record journal q.ref ≡ none → Undone q.ref journal
      undone e t found = cc

-- A transaction leaves the journal consistent however its calls end, whatever other writers do, and
-- also where the process dies: what is recorded as applied has its receipt, for the content that was
-- asked for, and its preimage.
pub run-Consistent :
    (digest : List ℕ → Text) (q : Request) (h : Host) (names : Names) (journal : Journal)
    → Consistent journal
    → Consistent (left_by (run digest h q (started names journal))).journal
run-Consistent digest q h names journal i =
    left_by-Ends Safe Any (run digest h q (started names journal))
      (run-Safe digest q h names journal i)

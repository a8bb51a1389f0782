-- ===== src/Fs/Transaction/Losses.antt =====
-- The files that a whole transaction of apply.ts takes away.
use gatekeeper_os.Fs.Transaction.Guards.{run_then}
use gatekeeper_os.Fs.Transaction.Stages.{stage_file-Keeps, recheck-Keeps}
use gatekeeper_os.Fs.Transaction.Keeps.{
  ended-Ends, give-Keeps, attempt-Keeps, require-Keeps, inspect-Keeps, check-Keeps, then-Keeps,
  bind-Keeps, Keeps,
}
use gatekeeper_os.Fs.Transaction.Ends.{
  give-Ends, check_then, continue-Ends, left_by-Ends, deny-Ends, Any, Ends,
}
use gatekeeper_os.Fs.Transaction.NoLostEdit.{
  by_exchange-Harmless, by_link-Harmless, persist-Harmless, hooked-Harmless, Harmless, IsBaseline,
}
use gatekeeper_os.Prelude.{
  ap, subst, none, some, true, refl, sym, ◌∙◌, ◌≡◌, ◌≢◌, Option, List, ℕ, All,
}
use gatekeeper_os.Fs.Journal.{
  set_preimage, set_receipt, link, exchange, published, Publication, Receipt, TxRecord, Journal,
}
use gatekeeper_os.Cli.Json.{Text}
use gatekeeper_os.Fs.Transaction.Run.{
  chosen, with_publication, intent_record, as_applied, is_replaceable, preimage_of, is_desired,
  as_uncertain, receipt_for, target_of, settle, started, run, stage_file, recheck, plan,
  with_receipt, begin, attempt_all, publish, finish, Request,
}
use gatekeeper_os.Fs.Transaction.Machine.{
  give, ◌>>=◌, ◌>>◌, at_intent, record_published, write_intent, start_record, at_parent_synced,
  at_preimage, record_applied, sync_parent, write_preimage, at_verified, at_receipt, write_receipt,
  deny, attempt, require, choose_exchange, choose_publisher, inspect_final, record_uncertain,
  inspect_baseline, on_journal, recheck_anchor, inspect, ◌>>=◌, check, persist, hook, left_by,
  Outcome, Syscall, Boundary, Host, State, returned, threw, died, Names, Tx,
}
use gatekeeper_os.Fs.Files.{FileState, Identity, Expected, absent, present}

module _ (digest : List ℕ → Text) (q : Request) (h : Host) where
  -- The file is new, or the host has a working exchange.
  pub data NeverBare : Type 0 where
    is_new : q.expected ≡ absent → NeverBare
    has_exchange : h.prefers_exchange ≡ true → h.offers_exchange ≡ true → NeverBare

  abbrev Spared : State → Type 0
  Spared = Harmless digest q h

  persist-Spared : (c : Syscall) (change : TxRecord → TxRecord) → Keeps Spared (persist h c change)
  persist-Spared = persist-Harmless digest q h

  hooked-Spared : (b : Boundary) → Keeps Spared (hook h b)
  hooked-Spared = hooked-Harmless digest q h

  begin-Spared : Keeps Spared (begin digest h q)
  unfolding begin
  begin-Spared =
      bind-Keeps Spared (inspect h inspect_baseline target_of) _
        (inspect-Keeps Spared h inspect_baseline target_of)
        λ file.
          let saved = on_journal (set_preimage (preimage_of digest h q file)) in
          then-Keeps Spared (require (is_replaceable digest h q file)) _
            (require-Keeps Spared (is_replaceable digest h q file))
            (then-Keeps Spared (attempt h write_preimage saved) _
              (attempt-Keeps Spared h write_preimage saved (λ s l. l))
              (then-Keeps Spared (hook h at_preimage) _ (hooked-Spared at_preimage) (
                then-Keeps Spared (start_record h write_intent (intent_record digest h q)) _
                  (λ s l. ended-Ends Spared (h.ends write_intent) _ _ _ l l l)
                  (then-Keeps Spared (hook h at_intent) _ (hooked-Spared at_intent)
                    (give-Keeps Spared file)))))

  with_receipt-Spared :
      (p : Publication) (o : Option FileState) → Keeps Spared (with_receipt digest h q p o)
  with_receipt-Spared p none = λ s l. deny-Ends Spared Any s l
  with_receipt-Spared p (some f) =
      let written = on_journal (set_receipt (receipt_for digest h q p f)) in
      then-Keeps Spared (attempt h write_receipt written) _
        (attempt-Keeps Spared h write_receipt written (λ s l. l))
        (then-Keeps Spared (hook h at_receipt) _ (hooked-Spared at_receipt) (
          then-Keeps Spared (persist h record_applied as_applied) _
            (persist-Spared record_applied as_applied)
            (give-Keeps Spared (receipt_for digest h q p f))))

  finish-Spared : (i : Identity) (p : Publication) → Keeps Spared (finish digest h q i p)
  unfolding finish
  finish-Spared i p =
      then-Keeps Spared (check h recheck_anchor) _ (check-Keeps Spared h recheck_anchor) (
        bind-Keeps Spared (inspect h inspect_final target_of) _
          (inspect-Keeps Spared h inspect_final target_of)
          λ file.
            then-Keeps Spared (require (is_desired digest h q file i)) _
              (require-Keeps Spared (is_desired digest h q file i))
              (then-Keeps Spared (hook h at_verified) _ (hooked-Spared at_verified) (
                then-Keeps Spared (check h sync_parent) _ (check-Keeps Spared h sync_parent) (
                  then-Keeps Spared (hook h at_parent_synced) _ (hooked-Spared at_parent_synced) (
                    then-Keeps Spared
                      (persist h record_published (with_publication digest h q published p)) _
                      (persist-Spared record_published (with_publication digest h q published p))
                      (with_receipt-Spared p file))))))

  -- The rest of a transaction behind the plan.
  abbrev rest_of : Identity → Publication → Tx Receipt
  rest_of i planned = do
    recheck digest h q i planned
    p ← publish digest h q i planned
    finish digest h q i p

  unfinished :
      (i : Identity) (planned : Publication)
      → Keeps Spared (publish digest h q i planned)
      → Keeps Spared (rest_of i planned)
  unfinished i planned k =
      then-Keeps Spared (recheck digest h q i planned) _
        (recheck-Keeps digest q h Spared (λ f s l. l) (λ c change _ _ _. persist-Spared c change) i
          planned)
        (bind-Keeps Spared (publish digest h q i planned) _ k (finish-Spared i))

  exchange-Spared : h.offers_exchange ≡ true → (i : Identity) → Keeps Spared (rest_of i exchange)
  unfolding publish
  exchange-Spared offers i = unfinished i exchange (
      then-Keeps Spared (check h choose_exchange) _ (check-Keeps Spared h choose_exchange)
        (rw offers (by_exchange-Harmless digest q h i)))

  planned-Spared :
      (e : Expected)
      → q.expected ≡ e
      → NeverBare
      → (i : Identity) → Keeps Spared (plan digest h q e >>= rest_of i)
  unfolding publish
  planned-Spared absent e _ i = unfinished i link (by_link-Harmless digest q h i)
  planned-Spared (present b) e (is_new n) i = absurd (differ (sym e ∙ n))
    where
      differ : present b ≢ absent
      differ k = cc
  planned-Spared (present b) e (has_exchange prefers offers) i = λ s l.
      let choice = chosen digest h q h.prefers_exchange in
      continue-Ends Spared (λ p _. p ≡ choice) Any (plan digest h q (present b) s) (rest_of i)
        (check_then Spared (λ p _. p ≡ choice) h choose_publisher (give choice) s l
          (give-Ends Spared (λ p _. p ≡ choice) choice s l refl))
        (λ p t k same.
          subst (λ x. Ends Spared Any (rest_of i x t)) (sym (same ∙ ap (chosen digest h q) prefers))
            (exchange-Spared offers i t k))

  attempt_all-Spared : NeverBare → Keeps Spared (attempt_all digest h q)
  unfolding attempt_all
  attempt_all-Spared n = bind-Keeps Spared (begin digest h q) _ begin-Spared λ old.
      bind-Keeps Spared (stage_file digest h q old) _
        (stage_file-Keeps digest q h Spared (λ f s l. l) (λ c change _ _ _. persist-Spared c change)
          old)
        λ i. planned-Spared q.expected refl n i

  settle-Spared : (o : Outcome Receipt) → Ends Spared Any o → Ends Spared Any (settle digest h q o)
  unfolding Ends
  settle-Spared (returned r s) e = e
  settle-Spared (died s) e = e
  settle-Spared (threw s) e =
      then-Keeps Spared (persist h record_uncertain as_uncertain) deny
        (persist-Spared record_uncertain as_uncertain) (λ t l. l) s e

-- Where the file is new or the host has an exchange, every file whose last name a transaction takes
-- away is the baseline of the request, whatever other writers do at the boundaries, which calls fail,
-- and also where the process dies: an edit that landed in the meantime keeps a name.
pub run_loses_no_edit :
    (digest : List ℕ → Text) (q : Request) (h : Host) (names : Names) (journal : Journal)
    → NeverBare digest q h
    → All (IsBaseline digest q h) (left_by (run digest h q (started names journal))).lost
run_loses_no_edit digest q h names journal n =
    left_by-Ends (Spared digest q h) Any (run digest h q (started names journal)) (
      run_then digest q h (Spared digest q h) Any (started names journal) tt λ _.
        settle-Spared digest q h (attempt_all digest h q (started names journal))
          (attempt_all-Spared digest q h n (started names journal) tt))

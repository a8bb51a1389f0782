-- ===== src/Fs/Transaction/Consistent.antt =====
-- The journal of apply.ts through a transaction that may stop anywhere.
use gatekeeper_os.Fs.Files.{FileState}
use gatekeeper_os.Fs.Transaction.Ends.{continue-Ends, hook_then, attempt_then, deny-Ends, Any, Ends}
use gatekeeper_os.Fs.Transaction.Keeps.{
  require-Keeps, inspect-Keeps, bind-Keeps, give-Keeps, hook-Keeps, then-Keeps, ended-Ends, Keeps,
}
use gatekeeper_os.Fs.Journal.Consistent.{
  get_preimage-set_preimage, preimage_kept, set_preimage-Consistent, set_record-Consistent,
  Consistent, get_record-set_record, Undone,
}
use gatekeeper_os.Fs.Transaction.Machine.{
  require, inspect, give, at_intent, write_preimage, write_intent, start_record, ◌>>◌, at_preimage,
  inspect_baseline, hook, on_names, Names, on_journal, persist_record, persist, Syscall, Host,
  State,
}
use gatekeeper_os.Fs.Transaction.Run.{
  is_replaceable, record_intent, record_preimage, preimage_of, intent_record, target_of, begin,
  Request,
}
use gatekeeper_os.Fs.Journal.{
  set_preimage, get_record, TxRecord, Preimage, Journal, applied, get_preimage, set_record,
}
use mathlib.Core.Option
use gatekeeper_os.Prelude.{ap, subst, none, some, refl, sym, ◌∙◌, ◌≡◌, ◌≢◌, Option, List, ℕ}
use gatekeeper_os.Cli.Json.{Text}

module _ (digest : List ℕ → Text) (q : Request) where
  -- The record in memory is the one of this transaction, whose preimage is saved.
  pub record Held (t : TxRecord) (j : Journal) : Type 0 where
    pub ref : t.ref ≡ q.ref
    pub content : t.desired_sha256 ≡ digest q.desired
    pub preimage : Preimage
    pub saved : get_preimage j q.ref ≡ some preimage

  abbrev pub Holds : Option TxRecord → Journal → Type 0
  Holds none j = Unit
  Holds (some t) j = Held t j

  abbrev pub Steady : State → Type 0
  Steady s = Consistent s.journal × Undone q.ref s.journal × Holds s.current s.journal

  Held-written : (t u : TxRecord) (j : Journal) → Held t j → Held t (set_record u j)
  unfolding set_record get_preimage
  Held-written t u j k = record {
    ref = k.ref;
    content = k.content;
    preimage = k.preimage;
    saved = k.saved;
  }

  Undone-written :
      (t : TxRecord) (j : Journal)
      → t.ref ≡ q.ref
      → t.phase ≢ applied
      → Undone q.ref (set_record t j)
  Undone-written t j same other x e done =
      let agree : get_record (set_record t j) q.ref ≡ some t =
        rw (← same) (get_record-set_record t j) in
      other (ap (λ (y : TxRecord). y.phase) (some-inj t x (sym agree ∙ e)) ∙ done)
    where
      some-inj : (a b : TxRecord) → some a ≡ some b → a ≡ b
      some-inj a b e = cc

  module _ (h : Host) where
    written-Keeps :
        (c : Syscall) (t : TxRecord) (s : State)
        → t.phase ≢ applied
        → Consistent s.journal × Undone q.ref s.journal × Held t s.journal
        → Ends Steady Any (persist_record h c (some t) s)
    written-Keeps c t s other (consistent, undone, held) =
        let now = record s { current = some t } in
        ended-Ends Steady (h.ends c) now now (on_journal (set_record t) now)
          (consistent, undone, held) (consistent, undone, held)
          (
            set_record-Consistent t s.journal (λ done. absurd (other done)) consistent,
            Undone-written t s.journal held.ref other,
            Held-written t t s.journal held,
          )

    -- A step that changes the phase, to one that is not applied, and the notes of the record.
    pub persist-Keeps :
        (c : Syscall) (change : TxRecord → TxRecord)
        → ((t : TxRecord) → (change t).ref ≡ t.ref)
        → ((t : TxRecord) → (change t).desired_sha256 ≡ t.desired_sha256)
        → ((t : TxRecord) → (change t).phase ≢ applied)
        → Keeps Steady (persist h c change)
    persist-Keeps c change same_ref same_content other s i = by_current s.current refl
      where
        by_current :
            (o : Option TxRecord)
            → s.current ≡ o
            → Ends Steady Any (persist_record h c (Option.map change o) s)
        by_current none e = deny-Ends Steady Any s i
        by_current (some t) e =
            let held : Held t s.journal = subst (λ o. Holds o s.journal) e i.2 in
            written-Keeps c (change t) s (other t) (
              i.0,
              i.1,
              record {
                ref = same_ref t ∙ held.ref;
                content = same_content t ∙ held.content;
                preimage = held.preimage;
                saved = held.saved;
              },
            )

    pub met : (f : Names → Names) (s : State) → Steady s → Steady (on_names f s)
    met f s i = i

    record_intent-Steady :
        (file : Option FileState) (s : State)
        → Steady s
        → ((p : Preimage) × (get_preimage s.journal q.ref ≡ some p))
        → Ends Steady Any (record_intent digest h q file s)
    record_intent-Steady file s i (p, saved) =
        let begun = on_names (h.meddle at_preimage) s in
        let rest = hook h at_intent >> give file in
        let start = start_record h write_intent (intent_record digest h q) in
        hook_then Steady Any h at_preimage (start >> rest) s i (
          continue-Ends Steady Any Any (start begun) (λ _. rest)
            (written-Keeps write_intent (intent_record digest h q) begun (λ e. cc e)
              (i.0, i.1, record { ref = refl; content = refl; preimage = p; saved = saved }))
            (λ _ t j _.
              then-Keeps Steady (hook h at_intent) (give file) (hook-Keeps Steady h at_intent met)
                (give-Keeps Steady file) t j))

    Holds-set_preimage :
        (o : Option TxRecord) (p : Preimage) (j : Journal) → Holds o j → Holds o (set_preimage p j)
    Holds-set_preimage none p j k = tt
    Holds-set_preimage (some t) p j k =
        let (new, saved) = preimage_kept p j q.ref k.preimage k.saved in
        record { ref = k.ref; content = k.content; preimage = new; saved = saved }

    preimage_written :
        (p : Preimage) (s : State) → Steady s → Steady (on_journal (set_preimage p) s)
    unfolding get_record set_preimage
    preimage_written p s (consistent, undone, held) = (
      set_preimage-Consistent p s.journal consistent,
      undone,
      Holds-set_preimage s.current p s.journal held,
    )

    record_preimage-Steady :
        (file : Option FileState) → Keeps Steady (record_preimage digest h q file)
    record_preimage-Steady file s i =
        let p = preimage_of digest h q file in
        let saved = preimage_written p s i in
        attempt_then Steady Any h write_preimage (on_journal (set_preimage p))
          (record_intent digest h q file) s i saved
          (record_intent-Steady file (on_journal (set_preimage p) s) saved
            (p, get_preimage-set_preimage p s.journal))

    pub begin-Steady : Keeps Steady (begin digest h q)
    unfolding begin
    begin-Steady =
        bind-Keeps Steady (inspect h inspect_baseline target_of)
          (λ file. require (is_replaceable digest h q file) >> record_preimage digest h q file)
          (inspect-Keeps Steady h inspect_baseline target_of)
          (λ file.
            then-Keeps Steady (require (is_replaceable digest h q file))
              (record_preimage digest h q file)
              (require-Keeps Steady (is_replaceable digest h q file)) (record_preimage-Steady file))

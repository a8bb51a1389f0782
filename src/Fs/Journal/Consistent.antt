-- ===== src/Fs/Journal/Consistent.antt =====
-- What the journal of apply.ts says of the transactions that it calls applied.
use gatekeeper_os.Fs.Journal.{
  TxRecord, Preimage, Receipt, Ref, Journal, applied, phase_eq, ref_eq, get_record, get_preimage,
  get_receipt, set_record, set_preimage, set_receipt,
}
use gatekeeper_os.Prelude.{
  arith, ◌⊎◌, find?-sound, some, inl, inr, sym, ◌∙◌, Bool-cases, ==_iff, ◌==◌, ◌≡◌, ◌≢◌, find?-put,
  find?-put_other,
}

-- Its receipt and its preimage are there, and the receipt is for the content that was asked for.
pub record Complete (j : Journal) (t : TxRecord) : Type 0 where
  pub receipt : Receipt
  pub preimage : Preimage
  pub received : get_receipt j t.ref ≡ some receipt
  pub content : receipt.sha256 ≡ t.desired_sha256
  pub saved : get_preimage j t.ref ≡ some preimage

abbrev pub Consistent : Journal → Type 0
Consistent j = (k : Ref) (t : TxRecord) → get_record j k ≡ some t → t.phase ≡ applied → Complete j t

-- The transaction of a key is not applied.
abbrev pub Undone : Ref → Journal → Type 0
Undone k j = (t : TxRecord) → get_record j k ≡ some t → t.phase ≢ applied

pub get_record-set_record :
    (t : TxRecord) (j : Journal) → get_record (set_record t j) t.ref ≡ some t
unfolding get_record set_record
get_record-set_record t j = find?-put (λ (x : TxRecord). x.ref) t j.records

get_record-set_other :
    (k : Ref) (t : TxRecord) (j : Journal)
    → k ≢ t.ref
    → get_record (set_record t j) k ≡ get_record j k
unfolding get_record set_record
get_record-set_other k t j n = find?-put_other (λ (x : TxRecord). x.ref) k t j.records n

pub get_preimage-set_preimage :
    (p : Preimage) (j : Journal) → get_preimage (set_preimage p j) p.ref ≡ some p
unfolding get_preimage set_preimage
get_preimage-set_preimage p j = find?-put (λ (x : Preimage). x.ref) p j.preimages

get_preimage-set_other :
    (k : Ref) (p : Preimage) (j : Journal)
    → k ≢ p.ref
    → get_preimage (set_preimage p j) k ≡ get_preimage j k
unfolding get_preimage set_preimage
get_preimage-set_other k p j n = find?-put_other (λ (x : Preimage). x.ref) k p j.preimages n

pub get_receipt-set_receipt :
    (r : Receipt) (j : Journal) → get_receipt (set_receipt r j) r.ref ≡ some r
unfolding get_receipt set_receipt
get_receipt-set_receipt r j = find?-put (λ (x : Receipt). x.ref) r j.receipts

get_receipt-set_other :
    (k : Ref) (r : Receipt) (j : Journal)
    → k ≢ r.ref
    → get_receipt (set_receipt r j) k ≡ get_receipt j k
unfolding get_receipt set_receipt
get_receipt-set_other k r j n = find?-put_other (λ (x : Receipt). x.ref) k r j.receipts n

-- A saved preimage stays, or it is replaced.
pub preimage_kept :
    (p : Preimage) (j : Journal) (k : Ref) (old : Preimage)
    → get_preimage j k ≡ some old
    → (new : Preimage) × (get_preimage (set_preimage p j) k ≡ some new)
preimage_kept p j k old e = elim (Bool-cases (k == p.ref)) [
  | inl c ↦ (p, rw ((==_iff k p.ref).0 c) (get_preimage-set_preimage p j))
  | inr c ↦
      (old, get_preimage-set_other k p j (λ s. absurd (ground (arith, ==_iff k p.ref, s, c))) ∙ e)
]

get_record-ref : (j : Journal) (k : Ref) (t : TxRecord) → get_record j k ≡ some t → t.ref ≡ k
unfolding get_record
get_record-ref j k t e = (==_iff t.ref k).0 (find?-sound (λ (x : TxRecord). x.ref == k) j.records e)

-- The record that is found after one is written.
found_cases :
    (t : TxRecord) (j : Journal) (k : Ref) (x : TxRecord)
    → get_record (set_record t j) k ≡ some x
    → (x ≡ t) ⊎ (get_record j k ≡ some x)
found_cases t j k x e = elim (Bool-cases (k == t.ref)) [
  | inl c ↦
      let same = (==_iff k t.ref).0 c in
      inl (some-inj (sym e ∙ rw same (get_record-set_record t j)))
  | inr c ↦
      inr
        (sym (get_record-set_other k t j (λ s. absurd (ground (arith, ==_iff k t.ref, s, c)))) ∙ e)
]
  where
    some-inj : {a b : TxRecord} → some a ≡ some b → a ≡ b
    some-inj e = cc

pub set_record-Consistent :
    (t : TxRecord) (j : Journal)
    → (t.phase ≡ applied → Complete j t)
    → Consistent j
    → Consistent (set_record t j)
unfolding set_record get_receipt get_preimage
set_record-Consistent t j complete consistent k x e done = elim (found_cases t j k x e) [
  | inl same ↦
      let c = complete (rw (← same) done) in
      record {
        receipt = c.receipt;
        preimage = c.preimage;
        received = rw same c.received;
        content = rw same c.content;
        saved = rw same c.saved;
      }
  | inr before ↦
      let c = consistent k x before done in
      record {
        receipt = c.receipt;
        preimage = c.preimage;
        received = c.received;
        content = c.content;
        saved = c.saved;
      }
]

pub set_preimage-Consistent :
    (p : Preimage) (j : Journal) → Consistent j → Consistent (set_preimage p j)
unfolding get_record set_preimage get_receipt
set_preimage-Consistent p j consistent k x e done =
    let c = consistent k x e done in
    let (new, saved) = preimage_kept p j x.ref c.preimage c.saved in
    record {
      receipt = c.receipt;
      preimage = new;
      received = c.received;
      content = c.content;
      saved = saved;
    }

pub set_receipt-Consistent :
    (r : Receipt) (j : Journal) → Undone r.ref j → Consistent j → Consistent (set_receipt r j)
unfolding get_record set_receipt get_preimage
set_receipt-Consistent r j undone consistent k x e done =
    let c = consistent k x e done in
    let other : x.ref ≢ r.ref =
      λ same. undone x (rw (← (sym (get_record-ref j k x e) ∙ same)) e) done in
    record {
      receipt = c.receipt;
      preimage = c.preimage;
      received = get_receipt-set_other x.ref r j other ∙ c.received;
      content = c.content;
      saved = c.saved;
    }

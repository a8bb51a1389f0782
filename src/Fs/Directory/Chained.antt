-- ===== src/Fs/Directory/Chained.antt =====
-- A write of directory.ts that was queued on another.
use gatekeeper_os.Fs.Files.{Expected}
use gatekeeper_os.Fs.Paths.{relative_path}
use gatekeeper_os.Fs.Directory.Decide.{
  expected_after, from_receipt, expected, checked_receipt, receipt_after, status_of, read_receipt,
}
use gatekeeper_os.Fs.Directory.{
  expected_from_receipt, expected_from_stamp, Effect, Resource, ref_of, is_sha256,
}
use gatekeeper_os.Fs.Journal.{Kind, apply, revert, Receipt, get_receipt}
use gatekeeper_os.Kit.Driver.{rejected, Status, applied, reverted, status_eq}
use gatekeeper_os.Prelude.{
  refl, subst, true, false, arith, Option-cases, maybe, leb, ◌<◌, ◌⊎◌, sym, some-ne-none, none,
  some, inl, inr, ap, ◌∙◌, nat_eq, ◌==◌, ==_iff, ◌≡◌, ℕ, Option, Bool-cases, ◌&&◌, is_some,
}
use gatekeeper_os.Cli.Json.{Text, text_eq}

module _ (resource : Text) (r : Resource) where
  -- The receipt of the action that published what the file must still be.
  pub data Published (n : ℕ) (rc : Receipt) : Type 0 where
    by_apply :
        status_of r n ≡ some applied
        → get_receipt r.journal (ref_of apply n) ≡ some rc
        → Published n rc
    by_revert :
        status_of r n ≡ some reverted
        → get_receipt r.journal (ref_of revert n) ≡ some rc
        → Published n rc

  read_receipt-some :
      (kind : Kind) (n : ℕ) (rc : Receipt)
      → read_receipt resource r kind n ≡ some (some rc)
      → get_receipt r.journal (ref_of kind n) ≡ some rc
  unfolding read_receipt
  read_receipt-some kind n rc e = by_found (get_receipt r.journal (ref_of kind n)) e
    where
      by_found : (o : Option Receipt) → checked_receipt resource o ≡ some (some rc) → o ≡ some rc
      by_found none k = cc
      by_found (some x) k =
          elim (Bool-cases (
            x.resource_identity == resource
            && is_sha256 x.sha256
            && is_some (relative_path x.path))) [
              | inl a ↦ some-inj (rw a at k)
              | inr a ↦ absurd (none-ne (rw a at k))
            ]
        where
          some-inj : {a b : Option Receipt} → some a ≡ some b → a ≡ b
          some-inj q = cc

          none-ne : {a : Option Receipt} → none ≡ some a → ⊥
          none-ne q = cc

  receipt_after-Published :
      (n : ℕ) (o : Option Status) (rc : Receipt)
      → status_of r n ≡ o
      → receipt_after resource r n o ≡ some (some rc)
      → Published n rc
  receipt_after-Published n none rc s e = cc
  receipt_after-Published n (some status) rc s e = elim (Bool-cases (status == applied)) [
    | inl a ↦
        by_apply (s ∙ ap (λ x. some x) ((==_iff status applied).0 a))
          (read_receipt-some apply n rc (rw a at e))
    | inr a ↦ elim (Bool-cases (status == reverted)) [
      | inl b ↦
          by_revert (s ∙ ap (λ x. some x) ((==_iff status reverted).0 b))
            (read_receipt-some revert n rc (rw (a, b) at e))
      | inr b ↦ absurd (some-ne-none rc (sym (inner none (some rc) (rw (a, b) at e))))
    ]
  ]
    where
      inner : (a b : Option Receipt) → some a ≡ some b → a ≡ b
      inner a b q = cc

  -- The other write is older, and its receipt for the same path says what is expected.
  pub record Followed (id n : ℕ) (e : Effect) (x : Expected) : Type 0 where
    pub older : n < id
    pub receipt : Receipt
    pub is_published : Published n receipt
    pub path : receipt.path ≡ e.path
    pub same : x ≡ expected_from_receipt receipt

  some-inj : (a b : Expected) → some a ≡ some b → a ≡ b
  some-inj a b q = cc

  from_receipt-Followed :
      (id n : ℕ) (e : Effect) (x : Expected) (o : Option Receipt)
      → n < id
      → receipt_after resource r n (status_of r n) ≡ some o
      → from_receipt resource e.path o ≡ some x
      → Followed id n e x
  from_receipt-Followed id n e x none older k f = absurd (some-ne-none x (sym f))
  from_receipt-Followed id n e x (some rc) older k f = elim (Bool-cases (rc.path == e.path)) [
    | inl p ↦ record {
      older = older;
      receipt = rc;
      is_published = receipt_after-Published n (status_of r n) rc refl k;
      path = (==_iff rc.path e.path).0 p;
      same = sym (some-inj (expected_from_receipt rc) x (rw p at f));
    }
    | inr p ↦ absurd (some-ne-none x (sym (rw p at f)))
  ]

  is_rejected : (t : Option Status) → maybe t false (λ u. u == rejected) ≡ true → t ≡ some rejected
  is_rejected none k = cc
  is_rejected (some u) k = ap (λ v. some v) ((==_iff u rejected).0 k)

  expected_after-cases :
      (id n : ℕ) (e : Effect) (x : Expected)
      → expected_after resource r id e (some n) ≡ some x
      → ((status_of r n ≡ some rejected) × (expected_from_stamp e.baseline ≡ some x))
        ⊎ Followed id n e x
  expected_after-cases id n e x f =
      elim (Bool-cases (maybe (status_of r n) false (λ t. t == rejected))) [
        | inl a ↦ inl (is_rejected (status_of r n) a, rw a at f)
        | inr a ↦ elim (Bool-cases (leb id n)) [
          | inl b ↦ absurd (some-ne-none x (sym (rw (a, b) at f)))
          | inr b ↦ elim (Option-cases (receipt_after resource r n (status_of r n))) [
            | inl c ↦ absurd (some-ne-none x (sym (rw (a, b, c) at f)))
            | inr (o, c) ↦
                inr (from_receipt-Followed id n e x o (ground arith) c (rw (a, b, c) at f))
          ]
        ]
      ]

  -- The file that a write queued on another expects is the baseline it was simulated on, where the
  -- other one was rejected; otherwise the other one is older, was applied or reverted, and its receipt
  -- for the same path says what is expected.
  pub expected_decided :
      (id n : ℕ) (e : Effect) (x : Expected)
      → e.after ≡ some n
      → expected resource r id e ≡ some x
      → ((status_of r n ≡ some rejected) × (expected_from_stamp e.baseline ≡ some x))
        ⊎ Followed id n e x
  unfolding expected
  expected_decided id n e x follows found =
      expected_after-cases id n e x
        (subst (λ o. expected_after resource r id e o ≡ some x) follows found)

-- ===== src/Fs/Transaction/Guards.antt =====
-- What `run` of apply.ts refuses at once.
use gatekeeper_os.Fs.Paths.{relative_path}
use gatekeeper_os.Fs.Transaction.Ends.{require_then, check_then, Ends}
use gatekeeper_os.Fs.Transaction.Run.{refuse_received, proceed, run, Request}
use gatekeeper_os.Prelude.{refl, none, some, true, not, is_some, Option, ◌≡◌, List, ℕ, arith}
use gatekeeper_os.Fs.Journal.{get_receipt, get_record, Receipt}
use gatekeeper_os.Fs.Transaction.Run.{Request}
use gatekeeper_os.Fs.Transaction.Machine.{
  read_receipt, require, ◌>>◌, open_anchor, read_record, check, Host, State,
}
use gatekeeper_os.Cli.Json.{Text}

module _ (digest : List ℕ → Text) (q : Request) (h : Host) (I : State → Type 0)
    (Q : Receipt → State → Type 0) where
  refuse_received_then :
      (s : State) → I s → Ends I Q (proceed digest h q s) → Ends I Q (refuse_received digest h q s)
  refuse_received_then s i k =
      let anchored = check h open_anchor >> proceed digest h q in
      let path = require (is_some (relative_path q.path)) in
      check_then I Q h read_receipt _ s i (
        require_then I Q (not (is_some (get_receipt s.journal q.ref))) (path >> anchored) s i λ _.
          require_then I Q (is_some (relative_path q.path)) anchored s i
            λ _. check_then I Q h open_anchor (proceed digest h q) s i k)

  absent_of : {A : Type 0} (o : Option A) → not (is_some o) ≡ true → o ≡ none
  absent_of none e = refl
  absent_of (some a) e = absurd (ground arith)

  -- Nothing is changed, unless there is no record yet.
  pub run_then :
      (s : State)
      → I s
      → (get_record s.journal q.ref ≡ none → Ends I Q (proceed digest h q s))
      → Ends I Q (run digest h q s)
  unfolding run
  run_then s i k = check_then I Q h read_record _ s i (
      require_then I Q (not (is_some (get_record s.journal q.ref))) (refuse_received digest h q) s i
        λ e. refuse_received_then s i (k (absent_of (get_record s.journal q.ref) e)))

-- ===== src/Fs/Transaction/Stages.antt =====
-- The stages of `run` in apply.ts, and the predicates that they keep wherever they stop.
use gatekeeper_os.Fs.Journal.{exchange, rename, publishing, applied, link, Publication, TxRecord}
use gatekeeper_os.Fs.Transaction.Keeps.{
  guarded-Keeps, inspect-Keeps, identify-Keeps, check-Keeps, ended-Ends, hook-Keeps, give-Keeps,
  attempt-Keeps, require-Keeps, then-Keeps, look-Keeps, bind-Keeps, Keeps,
}
use gatekeeper_os.Fs.Transaction.Consistent.{met, persist-Keeps, Steady}
use gatekeeper_os.Fs.Transaction.Run.{
  mode_of, create_stage, fresh_file, record_identity, with_publication, stage_of, target_of,
  swapped_or_not, exchange_or_rename, plan, fall_back, by_link, publish, by_rename, by_exchange,
  confirm_exchange, recheck, stage_file, Request,
}
use gatekeeper_os.Prelude.{
  take, true, false, some, not, ◌&&◌, is_some, ◌≢◌, ◌≡◌, Bool, refl, Option, List, ℕ,
}
use gatekeeper_os.Fs.Transaction.Run.{Request}
use gatekeeper_os.Fs.Transaction.Machine.{
  write_effect, Names, exchange_effect, exchange_stage_and_target, unlink_effect, link_effect,
  rename_effect, link_stage_to_target, rename_stage_to_target, attempt, write_stage, require,
  by_descriptor, write_staged, at_rechecked, inspect_target, recheck_target, identify_target,
  identify_stage, inspect_swapped, identify_swapped, persist, inspect_stage, choose_publisher,
  check_anchor, choose_exchange, at_published, on_names, at_publishing, exchange_names,
  record_publishing, link_stage, rename_stage, hook, record_rename, unlink_stage, Boundary,
  unlink_stage_name, Syscall, at_synced, sync_stage, at_written, at_staged, record_staged,
  prepare_stage, open_stage, Host, State,
}
use gatekeeper_os.Cli.Json.{Text}
use gatekeeper_os.Fs.Files.{identity_of, same, absent, present, Identity, Expected, FileState}

-- For a predicate that the names do not matter to, and that records which are not applied keep.
module _ (digest : List ℕ → Text) (q : Request) (h : Host) (I : State → Type 0)
    (met : (f : Names → Names) (s : State) → I s → I (on_names f s))
    (persisted : (c : Syscall) (change : TxRecord → TxRecord)
      → ((t : TxRecord) → (change t).ref ≡ t.ref)
      → ((t : TxRecord) → (change t).desired_sha256 ≡ t.desired_sha256)
      → ((t : TxRecord) → (change t).phase ≢ applied)
      → Keeps I (persist h c change)) where
  hooked : (b : Boundary) → Keeps I (hook h b)
  hooked b = hook-Keeps I h b met

  create_stage-Keeps : Keeps I (create_stage digest h q)
  create_stage-Keeps =
      let made = on_names (λ n. record n { stage = some (fresh_file digest h q) }) in
      bind-Keeps I _ _ (look-Keeps I (λ s. is_some s.names.stage)) λ taken.
        then-Keeps I (require (not taken)) _ (require-Keeps I (not taken)) (
          then-Keeps I (attempt h open_stage made) _ (attempt-Keeps I h open_stage made (met _))
            (give-Keeps I (identity_of h.created)))

  write_staged-Keeps : (i : Identity) → Keeps I (write_staged h i q.desired)
  write_staged-Keeps i s k =
      ended-Ends I (h.ends write_stage) s _ _ k
        (met (write_effect h i (take h.progress q.desired)) s k)
        (met (write_effect h i q.desired) s k)

  pub stage_file-Keeps : (old : Option FileState) → Keeps I (stage_file digest h q old)
  unfolding stage_file
  stage_file-Keeps old = bind-Keeps I (create_stage digest h q) _ create_stage-Keeps λ i.
      let prepared = on_names (by_descriptor i (mode_of digest h q old)) in
      then-Keeps I (attempt h prepare_stage prepared) _
        (attempt-Keeps I h prepare_stage prepared (met _))
        (then-Keeps I _ _
          (persisted record_staged (record_identity digest h q i) (λ t. refl) (λ t. refl)
            (λ t e. cc e))
          (then-Keeps I _ _ (hooked at_staged) (
            then-Keeps I (write_staged h i q.desired) _ (write_staged-Keeps i) (
              then-Keeps I _ _ (hooked at_written) (
                then-Keeps I _ _ (check-Keeps I h sync_stage)
                  (then-Keeps I _ _ (hooked at_synced) (give-Keeps I i)))))))

  pub plan-Keeps : (e : Expected) → Keeps I (plan digest h q e)
  plan-Keeps absent = give-Keeps I link
  plan-Keeps (present b) = then-Keeps I _ _ (check-Keeps I h choose_publisher) (give-Keeps I _)

  pub recheck-Keeps : (i : Identity) (p : Publication) → Keeps I (recheck digest h q i p)
  unfolding recheck
  recheck-Keeps i planned =
      then-Keeps I _ _
        (persisted record_publishing (with_publication digest h q publishing planned) (λ t. refl)
          (λ t. refl) (λ t e. cc e))
        (then-Keeps I _ _ (hooked at_publishing) (
          then-Keeps I _ _ (check-Keeps I h check_anchor) (
            bind-Keeps I _ _ (inspect-Keeps I h inspect_stage stage_of) λ ours.
              then-Keeps I _ _ (require-Keeps I _) (
                bind-Keeps I _ _ (inspect-Keeps I h inspect_target target_of)
                  λ file. then-Keeps I _ _ (require-Keeps I _) (hooked at_rechecked)))))

-- For the journal.
module _ (digest : List ℕ → Text) (q : Request) (h : Host) where
  abbrev I : State → Type 0
  I = Steady digest q

  pub steady_hook : (b : Boundary) → Keeps I (hook h b)
  steady_hook b = hook-Keeps I h b (met digest q h)

  pub stage_file-Steady : (old : Option FileState) → Keeps I (stage_file digest h q old)
  stage_file-Steady = stage_file-Keeps digest q h I (met digest q h) (persist-Keeps digest q h)

  pub plan-Steady : (e : Expected) → Keeps I (plan digest h q e)
  plan-Steady = plan-Keeps digest q h I (met digest q h) (persist-Keeps digest q h)

  pub recheck-Steady : (i : Identity) (p : Publication) → Keeps I (recheck digest h q i p)
  recheck-Steady = recheck-Keeps digest q h I (met digest q h) (persist-Keeps digest q h)

  unlink-Steady : Keeps I (unlink_stage_name h)
  unlink-Steady =
      guarded-Keeps I h unlink_stage (λ s. is_some s.names.stage) (unlink_effect h) (λ s i. i)

  link-Steady : Keeps I (link_stage_to_target h)
  link-Steady =
      guarded-Keeps I h link_stage (λ s. is_some s.names.stage && not (is_some s.names.target))
        (link_effect h) (λ s i. i)

  rename-Steady : Keeps I (rename_stage_to_target h)
  rename-Steady =
      guarded-Keeps I h rename_stage (λ s. is_some s.names.stage) (rename_effect h) (λ s i. i)

  by_link-Steady : (i : Identity) → Keeps I (by_link digest h q i)
  unfolding by_link
  by_link-Steady i = then-Keeps I (link_stage_to_target h) _ link-Steady (
      then-Keeps I _ _ (steady_hook at_published) (
        bind-Keeps I _ _ (identify-Keeps I h identify_target target_of) λ file.
          then-Keeps I _ _ (require-Keeps I _) (
            bind-Keeps I _ _ (identify-Keeps I h identify_stage stage_of) λ ours.
              then-Keeps I _ _ (require-Keeps I _)
                (then-Keeps I (unlink_stage_name h) _ unlink-Steady (give-Keeps I link)))))

  by_rename-Steady : Keeps I (by_rename digest h q)
  unfolding by_rename
  by_rename-Steady =
      then-Keeps I _ _
        (persist-Keeps digest q h record_rename (with_publication digest h q publishing rename)
          (λ t. refl) (λ t. refl) (λ t e. cc e))
        (then-Keeps I (rename_stage_to_target h) _ rename-Steady (
          then-Keeps I _ _ (steady_hook at_published) (
            bind-Keeps I _ _ (identify-Keeps I h identify_stage stage_of)
              λ ours. then-Keeps I _ _ (require-Keeps I _) (give-Keeps I rename))))

  swapped_or_not-Steady : (i : Identity) (b : Bool) → Keeps I (swapped_or_not digest h q i b)
  unfolding confirm_exchange fall_back
  swapped_or_not-Steady i true = then-Keeps I _ _ (steady_hook at_published) (
      bind-Keeps I _ _ (inspect-Keeps I h inspect_swapped stage_of) λ out.
        then-Keeps I _ _ (require-Keeps I _)
          (then-Keeps I (unlink_stage_name h) _ unlink-Steady (give-Keeps I exchange)))
  swapped_or_not-Steady i false =
      bind-Keeps I _ _ (identify-Keeps I h identify_stage stage_of) λ ours.
        then-Keeps I _ _ (require-Keeps I _) (
          bind-Keeps I _ _ (inspect-Keeps I h recheck_target target_of)
            λ file. then-Keeps I _ _ (require-Keeps I _) by_rename-Steady)

  exchange_or_rename-Steady :
      (i : Identity) (b : Bool) → Keeps I (exchange_or_rename digest h q i b)
  unfolding by_exchange
  exchange_or_rename-Steady i true =
      then-Keeps I (exchange_stage_and_target h) _
        (attempt-Keeps I h exchange_names (on_names (exchange_effect h)) (λ s j. j))
        (bind-Keeps I _ _ (identify-Keeps I h identify_swapped target_of)
          λ file. swapped_or_not-Steady i (same file i))
  exchange_or_rename-Steady i false = by_rename-Steady

  pub publish-Steady : (i : Identity) (p : Publication) → Keeps I (publish digest h q i p)
  unfolding publish
  publish-Steady i link = by_link-Steady i
  publish-Steady i exchange =
      then-Keeps I _ _ (check-Keeps I h choose_exchange)
        (exchange_or_rename-Steady i h.offers_exchange)
  publish-Steady i rename = by_rename-Steady

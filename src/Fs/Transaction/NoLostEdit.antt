-- ===== src/Fs/Transaction/NoLostEdit.antt =====
-- What a transaction of apply.ts takes away, with an exchange tool or for a new file.
use gatekeeper_os.Fs.Transaction.Ends.{
  identify_then, mono-Ends, continue-Ends, inspect_then, guarded_then, give-Ends, require_then, Any,
  Ends,
}
use gatekeeper_os.Fs.Transaction.Keeps.{
  give-Keeps, require-Keeps, identify-Keeps, attempt-Keeps, guarded-Keeps, bind-Keeps, then-Keeps,
  persisted-Keeps, hook-Keeps, Keeps,
}
use gatekeeper_os.Fs.Transaction.Machine.{
  ◌>>=◌, ◌>>◌, rename_effect, rename_stage, recheck_target, identify_target, require,
  identify_swapped, rename_stage_to_target, exchange_effect, link_effect, identify_stage, on_names,
  inspect_swapped, identify, exchange_names, link_stage, record_rename, exchange_stage_and_target,
  at_published, link_stage_to_target, Tx, Boundary,
}
use gatekeeper_os.Prelude.{
  true, false, not, ◌&&◌, Bool, Bool-cases, none, some, true, inl, inr, nat_eq, ◌≡◌, ==_iff, Option,
  List, ℕ, All, All-append, arith, is_some,
}
use gatekeeper_os.Fs.Journal.{link, exchange, publishing, rename, Publication, TxRecord, Journal}
use gatekeeper_os.Cli.Json.{Text, text_eq}
use gatekeeper_os.Fs.Transaction.Run.{
  target_of, stage_of, with_publication, swapped_or_not, fall_back, confirm_exchange, by_rename,
  by_link, by_exchange, Request,
}
use gatekeeper_os.Fs.Transaction.Machine.{
  unlink_effect, unlink_stage, give, ◌>>◌, unlink_stage_name, gone, lose, hook, persist, Boundary,
  Syscall, Host, State,
}
use gatekeeper_os.Fs.Files.{
  FileState, Identity, Expected, absent, present, same, matches, without_ctime, identity_of,
}

same_file :
    (f : FileState) (o : Option FileState) (i : Identity)
    → same (some f) i ≡ true
    → same o i ≡ true
    → same o (identity_of f) ≡ true
same_file f none i e k = cc
same_file f (some g) i e k = ground (
  arith,
  ==_iff f.dev i.dev,
  ==_iff f.ino i.ino,
  ==_iff g.dev i.dev,
  ==_iff g.ino i.ino,
  ==_iff g.dev f.dev,
  ==_iff g.ino f.ino,
)

-- The change time that rename(2) moves is not needed.
matches-without_ctime :
    (digest : List ℕ → Text) (o : Option FileState) (e : Expected)
    → matches digest o e ≡ true
    → matches digest o (without_ctime e) ≡ true
unfolding matches
matches-without_ctime digest none absent k = k
matches-without_ctime digest none (present b) k = k
matches-without_ctime digest (some f) absent k = k
matches-without_ctime digest (some f) (present b) k = ground arith

module _ (digest : List ℕ → Text) (q : Request) (h : Host) where
  -- The file is the baseline of the request.
  abbrev pub IsBaseline : FileState → Type 0
  IsBaseline f = matches digest (some f) (without_ctime q.expected) ≡ true

  abbrev pub Harmless : State → Type 0
  Harmless s = All IsBaseline s.lost

  abbrev TargetUnchanged : State → Type 0
  TargetUnchanged s = matches digest s.names.target (without_ctime q.expected) ≡ true

  gone-IsBaseline :
      (file other : Option FileState)
      → matches digest file (without_ctime q.expected) ≡ true
      → All IsBaseline (gone file other)
  gone-IsBaseline none other e = tt
  gone-IsBaseline (some f) other e = elim (Bool-cases (same other (identity_of f))) [
    | inl k ↦ rw k tt
    | inr k ↦ rw k (e, tt)
  ]

  gone_own :
      (file other : Option FileState) (i : Identity)
      → same file i ≡ true
      → same other i ≡ true
      → All IsBaseline (gone file other)
  gone_own none other i e k = cc
  gone_own (some f) other i e k = rw (same_file f other i e k) tt

  lost_more :
      (s : State) (files : List FileState)
      → Harmless s
      → All IsBaseline files
      → Harmless (lose files s)
  lost_more s files l k = All-append IsBaseline s.lost files l k

  noted :
      (o : Option TxRecord) (j : Journal) (s : State)
      → Harmless s
      → Harmless (record s { current = o; journal = j })
  noted o j s l = l

  pub persist-Harmless :
      (c : Syscall) (change : TxRecord → TxRecord) → Keeps Harmless (persist h c change)
  persist-Harmless = persisted-Keeps Harmless h noted

  pub hooked-Harmless : (b : Boundary) → Keeps Harmless (hook h b)
  hooked-Harmless b = hook-Keeps Harmless h b (λ f s l. l)

  unlink_then :
      (p : Publication) (s : State)
      → Harmless s
      → All IsBaseline (gone s.names.stage s.names.target)
      → Ends Harmless Any ((unlink_stage_name h >> give p) s)
  unlink_then p s l k =
      let more = lost_more s (gone s.names.stage s.names.target) l k in
      guarded_then Harmless Any h unlink_stage (λ t. is_some t.names.stage) (unlink_effect h)
        (give p) s l (λ _. more) (λ _. give-Ends Harmless Any p (unlink_effect h s) more tt)

  -- After a link the stage and the target are the same file, so nothing goes.
  pub by_link-Harmless : (i : Identity) → Keeps Harmless (by_link digest h q i)
  unfolding by_link
  by_link-Harmless i =
      then-Keeps Harmless (link_stage_to_target h) _
        (guarded-Keeps Harmless h link_stage
          (λ s. is_some s.names.stage && not (is_some s.names.target)) (link_effect h) (λ s l. l))
        (then-Keeps Harmless (hook h at_published) _ (hooked-Harmless at_published) (λ s l.
          identify_then Harmless Any h identify_target target_of _ s l (
            require_then Harmless Any (same s.names.target i) _ s l λ e.
              identify_then Harmless Any h identify_stage stage_of _ s l (
                require_then Harmless Any (same s.names.stage i) (unlink_stage_name h >> give link)
                  s l λ k. unlink_then link s l (gone_own s.names.stage s.names.target i k e)))))

  abbrev Checked : State → Type 0
  Checked s = Harmless s × TargetUnchanged s

  abbrev rename_rest : Tx Publication
  rename_rest = do
    hook h at_published
    ours ← identify h identify_stage stage_of
    require (not (is_some ours))
    give rename

  rename_rest-Harmless : Keeps Harmless rename_rest
  rename_rest-Harmless =
      then-Keeps Harmless (hook h at_published) _ (hooked-Harmless at_published) (
        bind-Keeps Harmless (identify h identify_stage stage_of) _
          (identify-Keeps Harmless h identify_stage stage_of)
          λ ours.
            then-Keeps Harmless (require (not (is_some ours))) (give rename)
              (require-Keeps Harmless (not (is_some ours))) (give-Keeps Harmless rename))

  by_rename_then : (s : State) → Checked s → Ends Harmless Any (by_rename digest h q s)
  unfolding by_rename
  by_rename_then s c =
      let noting = persist h record_rename (with_publication digest h q publishing rename) in
      continue-Ends Harmless (λ _. Checked) Any (noting s)
        (λ _. rename_stage_to_target h >> rename_rest)
        (mono-Ends Checked Any Harmless (λ _. Checked) (noting s) (λ t x. x.0) (λ a t x _. x)
          (persisted-Keeps Checked h (λ o j t x. x) record_rename
            (with_publication digest h q publishing rename) s c))
        (λ _ t _ x.
          let more =
            lost_more t (gone t.names.target t.names.stage) x.0
              (gone-IsBaseline t.names.target t.names.stage x.1) in
          guarded_then Harmless Any h rename_stage (λ u. is_some u.names.stage) (rename_effect h)
            rename_rest t x.0 (λ _. more) (λ _. rename_rest-Harmless (rename_effect h t) more))

  and_left : (a b : Bool) → (a && b) ≡ true → a ≡ true
  and_left a b e = ground arith

  swapped_or_not-Harmless :
      (i : Identity) (b : Bool) → Keeps Harmless (swapped_or_not digest h q i b)
  unfolding confirm_exchange fall_back
  swapped_or_not-Harmless i true =
      then-Keeps Harmless (hook h at_published) _ (hooked-Harmless at_published) (λ s l.
        inspect_then Harmless Any h inspect_swapped stage_of _ s l (
          require_then Harmless Any
            (matches digest s.names.stage (without_ctime q.expected) && is_some s.names.stage)
            (unlink_stage_name h >> give exchange) s l
            λ e. unlink_then exchange s l (
              gone-IsBaseline s.names.stage s.names.target (
                and_left (matches digest s.names.stage (without_ctime q.expected))
                  (is_some s.names.stage) e))))
  swapped_or_not-Harmless i false = λ s l.
      identify_then Harmless Any h identify_stage stage_of _ s l (
        require_then Harmless Any (same s.names.stage i) _ s l λ _.
          inspect_then Harmless Any h recheck_target target_of _ s l (
            require_then Harmless Any (matches digest s.names.target q.expected)
              (by_rename digest h q) s l
              λ e. by_rename_then s (l, matches-without_ctime digest s.names.target q.expected e)))

  pub by_exchange-Harmless : (i : Identity) → Keeps Harmless (by_exchange digest h q i)
  unfolding by_exchange
  by_exchange-Harmless i =
      then-Keeps Harmless (exchange_stage_and_target h) _
        (attempt-Keeps Harmless h exchange_names (on_names (exchange_effect h)) (λ s l. l))
        (bind-Keeps Harmless (identify h identify_swapped target_of) _
          (identify-Keeps Harmless h identify_swapped target_of)
          λ file. swapped_or_not-Harmless i (same file i))

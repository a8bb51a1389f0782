-- ===== src/Fs/Directory/Reads.antt =====
-- Queuing a write in directory.ts, and reading its path.
use gatekeeper_os.Fs.Paths.{relative_path}
use gatekeeper_os.Fs.Directory.{
  is_action_id, distinct_ids, valid_entries, store_effect, effect_on, is_valid_effect, by_action,
  stored_effect, is_text_content, simulate, Effect, Resource, FileSnapshot, read, last_where,
  effects,
}
use gatekeeper_os.Fs.Directory.{both_saved}
use gatekeeper_os.Prelude.{
  any-eq-false, any, is_some, ◌||◌, not, ◌==◌, sort-append, All-mono, any-of_none, refl, leb,
  All-sort, ==_iff, All-append, false, sort, ◌<◌, none, ℕ, some, true, [], ◌∷◌, inl, inr, sym, ◌∙◌,
  nat_eq, all, ==-refl, ◌++◌, ◌≡◌, List, Bool, Option, All, all-of_All, all-eq-true, arith,
  Bool-cases,
}
use gatekeeper_os.Cli.Json.{Text, text_eq}

last_where-append {ℓ} :
    {A : Type ℓ} (p : A → Bool) (xs : List A) (a : A)
    → p a ≡ true
    → last_where p (xs ++ a ∷ []) ≡ some a
last_where-append p [] a e = rw e
last_where-append p (x ∷ xs) a e = rw (last_where-append p xs a e)

pub effects-some :
    (r : Resource) (es : List Effect)
    → effects r ≡ some es
    → (es ≡ r.overlay) × All (λ e. is_valid_effect e ≡ true) r.overlay
unfolding effects
effects-some r es e = elim (Bool-cases (all is_valid_effect r.overlay)) [
  | inl k ↦ (some-inj (sym e ∙ rw k), all-eq-true is_valid_effect r.overlay k)
  | inr k ↦ absurd (ground (arith, k, e))
]
  where
    some-inj : {xs ys : List Effect} → some xs ≡ some ys → xs ≡ ys
    some-inj k = cc

effects-of_All :
    (r : Resource) → All (λ e. is_valid_effect e ≡ true) r.overlay → effects r ≡ some r.overlay
unfolding effects
effects-of_All r h = rw (all-of_All is_valid_effect r.overlay h)

-- A resource whose last pending effect on a path is the one given.
read_last :
    (files : Text → Option (Option FileSnapshot)) (r : Resource) (xs : List Effect) (e : Effect)
    (current : Option FileSnapshot)
    → r.live ≡ true
    → r.overlay ≡ xs ++ e ∷ []
    → All (λ x. is_valid_effect x ≡ true) r.overlay
    → files e.path ≡ some current
    → read files r e.path ≡ some e.content
unfolding read
read_last files r xs e current live last valid found = rw live (
    rw found (
      rw (effects-of_All r valid) (
        rw last (rw (last_where-append (λ (x : Effect). x.path == e.path) xs e (==-refl e.path))))))

distinct_ids-append :
    (es : List Effect) (e : Effect)
    → distinct_ids es ≡ true
    → All (λ (x : Effect). x.action_id < e.action_id) es
    → distinct_ids (es ++ e ∷ []) ≡ true
distinct_ids-append [] e distinct earlier = refl
distinct_ids-append (x ∷ es) e distinct (lt, earlier) =
    let others : any (λ (y : Effect). y.action_id == x.action_id) es ≡ false =
      ground (arith, distinct) in
    let rest : distinct_ids es ≡ true = ground (arith, distinct) in
    rw
      (any-of_none (λ (y : Effect). y.action_id == x.action_id) (es ++ e ∷ [])
        (All-append (λ (y : Effect). (y.action_id == x.action_id) ≡ false) es (e ∷ [])
          (any-eq-false (λ (y : Effect). y.action_id == x.action_id) es others)
          (later e.action_id x.action_id lt, tt)))
      (distinct_ids-append es e rest earlier)
  where
    later : (m n : ℕ) → n < m → (m == n) ≡ false
    later m n l = elim (Bool-cases (m == n)) [
      | inl k ↦ absurd (ground (arith, ==_iff m n, k))
      | inr k ↦ k
    ]

-- A valid entry whose id is above those before it can be added.
valid_entries-append :
    (es : List Effect) (e : Effect)
    → valid_entries es ≡ true
    → is_action_id e.action_id ≡ true
    → All (λ (x : Effect). x.action_id < e.action_id) es
    → valid_entries (es ++ e ∷ []) ≡ true
unfolding valid_entries
valid_entries-append es e valid id_valid earlier =
    let ids : all (λ (x : Effect). is_action_id x.action_id) es ≡ true = ground (arith, valid) in
    let distinct : distinct_ids es ≡ true = ground (arith, valid) in
    rw
      (all-of_All (λ (x : Effect). is_action_id x.action_id) (es ++ e ∷ [])
        (All-append (λ (x : Effect). is_action_id x.action_id ≡ true) es (e ∷ [])
          (all-eq-true (λ (x : Effect). is_action_id x.action_id) es ids) (id_valid, tt)))
      (distinct_ids-append es e distinct earlier)

-- The write is accepted and pending behind all others.
simulate-accepted :
    (files : Text → Option (Option FileSnapshot)) (r : Resource) (path content p : Text) (id : ℕ)
    (o : Option FileSnapshot) (es : List Effect)
    → r.live ≡ true
    → relative_path path ≡ some p
    → is_text_content content ≡ true
    → stored_effect r id ≡ none
    → files path ≡ some o
    → effects r ≡ some es
    → valid_entries (sort by_action r.overlay) ≡ true
    → is_action_id id ≡ true
    → All (λ (x : Effect). x.action_id < id) r.overlay
    → simulate files both_saved r path content id ≡ (
      record (store_effect (effect_on path content id o es) r) {
        overlay = sort by_action r.overlay ++ effect_on path content id o es ∷ [];
      },
      true,
    )
unfolding simulate
simulate-accepted files r path content p id o es live named text fresh found pending entries
      id_valid earlier =
    let e = effect_on path content id o es in
    let allowed : (not r.live
          || not (is_some (relative_path path))
          || not (is_text_content content))
        ≡ false =
      rw (live, named, text) refl in
    let sorted : sort by_action (r.overlay ++ e ∷ []) ≡ sort by_action r.overlay ++ e ∷ [] =
      sort-append by_action r.overlay e
        (All-mono (λ (x : Effect) lt. before x.action_id lt) r.overlay earlier) in
    let valid : valid_entries (sort by_action r.overlay ++ e ∷ []) ≡ true =
      valid_entries-append (sort by_action r.overlay) e entries id_valid
        (All-sort by_action (λ (x : Effect). x.action_id < id) r.overlay earlier) in
    rw allowed (rw fresh (rw found (rw pending (rw sorted (rw valid refl)))))
  where
    before : (n : ℕ) → n < id → leb n id ≡ true
    before n lt = ground arith

-- A write is accepted on a live resource where its path and content are accepted, its id is valid,
-- above those of the pending writes and has no effect stored yet, the pending writes are valid, the
-- host's file can be read, and both files can be saved. A read of its path in the state right
-- afterwards shows its content, whatever the file of the host has become meanwhile, as long as the
-- host does not refuse to read it.
pub simulate-read :
    (files later : Text → Option (Option FileSnapshot)) (r : Resource) (path content p : Text)
    (id : ℕ) (o current : Option FileSnapshot) (es : List Effect)
    → r.live ≡ true
    → relative_path path ≡ some p
    → is_text_content content ≡ true
    → stored_effect r id ≡ none
    → files path ≡ some o
    → effects r ≡ some es
    → valid_entries (sort by_action r.overlay) ≡ true
    → is_action_id id ≡ true
    → All (λ (x : Effect). x.action_id < id) r.overlay
    → later path ≡ some current
    → ((simulate files both_saved r path content id).1 ≡ true)
      × (read later (simulate files both_saved r path content id).0 path ≡ some content)
simulate-read files later r path content p id o current es live named text fresh found pending
      entries id_valid earlier shown =
    let e = effect_on path content id o es in
    let rows = sort by_action r.overlay in
    let after = record (store_effect e r) { overlay = rows ++ e ∷ [] } in
    let is_valid : is_valid_effect e ≡ true = rw named (rw text refl) in
    let all_valid =
      All-append (λ x. is_valid_effect x ≡ true) rows (e ∷ [])
        (All-sort by_action (λ x. is_valid_effect x ≡ true) r.overlay (effects-some r es pending).1)
        (is_valid, tt) in
    rw
      (simulate-accepted files r path content p id o es live named text fresh found pending entries
        id_valid earlier)
      (refl, read_last later after rows e current live refl all_valid shown)

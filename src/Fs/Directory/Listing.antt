-- ===== src/Fs/Directory/Listing.antt =====
-- The pending writes in the listings of directory.ts.
use gatekeeper_os.Fs.Directory.Reads.{effects-some}
use gatekeeper_os.Fs.Directory.{
  effects, text_leb, subpath_of, Resource, sorted_within, list, is_no_file, name_of, is_file,
  parent_of, set_file, named, overlay_entries, Entry, Effect, file,
}
use gatekeeper_os.Prelude.{
  ◌||◌, not, length-sort, ◌∙◌, any-sort, sort, All-mono, Option-cases, ltb, ◌≤◌, length, Option, ℕ,
  some-ne-none, subst, ◌&&◌, some, true, [], ◌∷◌, inl, inr, refl, sym, nat_eq, any, ◌==◌, ==-refl,
  ==_iff, ◌≡◌, List, Bool, All, arith, Bool-cases, any-update_where, any-append_left,
  any-append_last, update_where,
}
use gatekeeper_os.Cli.Json.{Text, text_eq}

abbrev pub shows : Text → Entry → Bool
shows name x = x.name == name && is_file x.kind

as_file : Entry → Entry
as_file x = record x { kind = file }

set_file-keeps :
    (name other : Text) (entries : List Entry)
    → any (shows other) entries ≡ true
    → any (shows other) (set_file name entries) ≡ true
set_file-keeps name other entries e = elim (Bool-cases (any (named name) entries)) [
  | inl k ↦ rw k (
      any-update_where (shows other) (named name) (λ x. record x { kind = file })
        (λ x s. ground arith) entries e)
  | inr k ↦
      rw k (any-append_left (shows other) entries (record { name = name; kind = file } ∷ []) e)
]

updated-shows :
    (name : Text) (entries : List Entry)
    → any (named name) entries ≡ true
    → any (shows name) (update_where (named name) (λ x. record x { kind = file }) entries) ≡ true
updated-shows name [] e = cc
updated-shows name (x ∷ xs) e = elim (Bool-cases (x.name == name)) [
  | inl k ↦ rw k (rw k refl)
  | inr k ↦ rw k (rw k (updated-shows name xs (rw k at e)))
]

set_file-shows :
    (name : Text) (entries : List Entry) → any (shows name) (set_file name entries) ≡ true
set_file-shows name entries = elim (Bool-cases (any (named name) entries)) [
  | inl k ↦ rw k (updated-shows name entries k)
  | inr k ↦ rw k (
      any-append_last (shows name) entries (record { name = name; kind = file })
        (rw (==-refl name) refl))
]

overlay_entries-keeps :
    (subpath name : Text) (es : List Effect) (entries out : List Entry)
    → overlay_entries subpath es entries ≡ some out
    → any (shows name) entries ≡ true
    → any (shows name) out ≡ true
unfolding overlay_entries
overlay_entries-keeps subpath name [] entries out e k =
    subst (λ (xs : List Entry). any (shows name) xs ≡ true) (some-inj e) k
  where
    some-inj : {xs ys : List Entry} → some xs ≡ some ys → xs ≡ ys
    some-inj q = cc
overlay_entries-keeps subpath name (x ∷ es) entries out e k =
    elim (Bool-cases (parent_of x.path == subpath)) [
      | inr a ↦ overlay_entries-keeps subpath name es entries out (rw a at e) k
      | inl a ↦ elim (Bool-cases (any (is_no_file (name_of x.path)) entries)) [
        | inl b ↦ absurd (some-ne-none out (sym (rw (a, b) at e)))
        | inr b ↦
            overlay_entries-keeps subpath name es (set_file (name_of x.path) entries) out
              (rw (a, b) at e) (set_file-keeps (name_of x.path) name entries k)
      ]
    ]

-- An effect is elsewhere, or it is shown as a file.
abbrev pub is_shown : Text → List Entry → Effect → Bool
is_shown subpath out x = not (parent_of x.path == subpath) || any (shows (name_of x.path)) out

abbrev Shown : Text → List Entry → Effect → Type 0
Shown subpath out x = parent_of x.path ≡ subpath → any (shows (name_of x.path)) out ≡ true

-- Every effect below the subpath is shown.
overlay_entries-shows :
    (subpath : Text) (es : List Effect) (entries out : List Entry)
    → overlay_entries subpath es entries ≡ some out
    → All (Shown subpath out) es
unfolding overlay_entries
overlay_entries-shows subpath [] entries out e = tt
overlay_entries-shows subpath (x ∷ es) entries out e =
    elim (Bool-cases (parent_of x.path == subpath)) [
      | inr a ↦ (
        (λ same. absurd (ground (arith, ==_iff (parent_of x.path) subpath, a, same))),
        overlay_entries-shows subpath es entries out (rw a at e),
      )
      | inl a ↦ elim (Bool-cases (any (is_no_file (name_of x.path)) entries)) [
        | inl b ↦ absurd (some-ne-none out (sym (rw (a, b) at e)))
        | inr b ↦
            let later = rw (a, b) at e in
            (
              (λ _.
                  overlay_entries-keeps subpath (name_of x.path) es
                    (set_file (name_of x.path) entries) out later
                    (set_file-shows (name_of x.path) entries)),
              overlay_entries-shows subpath es (set_file (name_of x.path) entries) out later,
            )
      ]
    ]

sorted_within-some :
    (bound : ℕ) (entries out : List Entry)
    → sorted_within bound entries ≡ some out
    → ((name : Text) → any (shows name) entries ≡ true → any (shows name) out ≡ true)
      × (length out ≤ bound)
sorted_within-some bound entries out e = elim (Bool-cases (ltb bound (length entries))) [
  | inl k ↦ absurd (some-ne-none out (sym (rw k at e)))
  | inr k ↦
      let by_name = λ (a b : Entry). text_leb a.name b.name in
      let same : sort by_name entries ≡ out = some-inj (rw k at e) in
      rw (← same) (
        (λ name s. any-sort by_name (shows name) entries ∙ s),
        rw (length-sort by_name entries) (ground arith),
      )
]
  where
    some-inj : {xs ys : List Entry} → some xs ≡ some ys → xs ≡ ys
    some-inj q = cc

-- A listing that is given has at most a thousand entries, and among them, as a file, the name of every
-- pending write whose parent is the directory listed.
pub list-shows :
    (directories : Text → Option (List Entry)) (r : Resource) (raw : Option Text) (subpath : Text)
    (out : List Entry)
    → subpath_of raw ≡ some subpath
    → list directories r raw ≡ some out
    → All (λ x. is_shown subpath out x ≡ true) r.overlay × (length out ≤ 1000)
unfolding list
list-shows directories r raw subpath out below e = elim (Bool-cases r.live) [
  | inr k ↦ absurd (some-ne-none out (sym (rw k at e)))
  | inl k ↦ elim (Option-cases (directories subpath)) [
    | inl d ↦ absurd (some-ne-none out (sym (rw (k, below, d) at e)))
    | inr (entries, d) ↦ elim (Option-cases (effects r)) [
      | inl f ↦ absurd (some-ne-none out (sym (rw (k, below, d, f) at e)))
      | inr (es, f) ↦ elim (Option-cases (overlay_entries subpath es entries)) [
        | inl o ↦ absurd (some-ne-none out (sym (rw (k, below, d, f, o) at e)))
        | inr (merged, o) ↦
            let (kept, bound) = sorted_within-some 1000 merged out (rw (k, below, d, f, o) at e) in
            let shown : All (Shown subpath merged) r.overlay =
              subst (λ xs. All (Shown subpath merged) xs) (effects-some r es f).0
                (overlay_entries-shows subpath es entries merged o) in
            let pass : (x : Effect) → Shown subpath merged x → is_shown subpath out x ≡ true =
              λ x s. shown_or_not x (λ same. kept (name_of x.path) (s same)) in
            (All-mono pass r.overlay shown, bound)
      ]
    ]
  ]
]
  where
    shown_or_not : (x : Effect) → Shown subpath out x → is_shown subpath out x ≡ true
    shown_or_not x s = elim (Bool-cases (parent_of x.path == subpath)) [
      | inl a ↦ rw a (s ((==_iff (parent_of x.path) subpath).0 a))
      | inr a ↦ rw a refl
    ]

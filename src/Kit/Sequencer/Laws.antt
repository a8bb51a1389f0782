-- ===== src/Kit/Sequencer/Laws.antt =====
-- No id of action-sequencer.ts is handed out twice.
use gatekeeper_os.Kit.Sequencer.{
  larger, reserved, load_from, kept, store_next, next_loaded, load, Event, reopen, ids_of,
  next_id_of, Write, absent, corrupt, saved, written, failed, failed_in_place, reserve, restart,
  Sequencer, File,
}
use gatekeeper_os.Prelude.{
  nat_eq, ltb, ◌||◌, subst, inr, ◌==◌, refl, inl, not, leb, ◌+◌, Bool-cases, Option-cases, some,
  ◌≤◌, true, List, arith, ◌≡◌, ℕ, Option, none, [], ◌∷◌,
}

-- What the file keeps the next id above.
abbrev pub floor : File → ℕ
floor absent = 0
floor corrupt = 0
floor (saved version next) = next

-- Each id is larger than the one before it, and at least the bound.
abbrev pub IncreasingFrom : ℕ → List ℕ → Type 0
IncreasingFrom bound [] = Unit
IncreasingFrom bound (id ∷ ids) = (bound ≤ id) × IncreasingFrom (id + 1) ids

increasing_mono : (a b : ℕ) (ids : List ℕ) → a ≤ b → IncreasingFrom b ids → IncreasingFrom a ids
increasing_mono a b [] le h = tt
increasing_mono a b (id ∷ ids) le (above, h) = (omega arith, h)

-- A sequencer with a path.
abbrev pub on_path : ℕ → File → Sequencer
on_path n f = record { has_path = true; next_id = n; file = f }

-- Reserving keeps the file's bound or raises it, and an id that it hands out lies between.
record Step (f : File) (r : Sequencer × Option ℕ) : Type 0 where
  pub next : ℕ
  pub file : File
  pub left : r.0 ≡ on_path next file
  pub raised : floor f ≤ floor file
  pub issued : (id : ℕ) → r.1 ≡ some id → (floor f ≤ id) × (floor file ≡ id + 1)

nothing_issued : (f : File) (n : ℕ) → Step f (on_path n f, none)
nothing_issued f n = record {
  next = n;
  file = f;
  left = refl;
  raised = omega arith;
  issued = λ id e. cc e;
}

module _ (max_safe : ℕ) where
  store-Step :
      (w : Write) (n : ℕ) (f : File) → floor f ≤ n → Step f (store_next max_safe w (on_path n f))
  store-Step written n f above = record {
    next = n + 1;
    file = saved 1 (n + 1);
    left = refl;
    raised = omega arith;
    issued = λ id e. let same : n ≡ id = cc e in (omega arith, omega arith);
  }
  store-Step failed n f above = nothing_issued f n
  store-Step failed_in_place n f above = record {
    next = n;
    file = saved 1 (n + 1);
    left = refl;
    raised = omega arith;
    issued = λ id e. cc e;
  }

  loaded-Step :
      (w : Write) (s : Sequencer) (n : ℕ) (f : File)
      → floor f ≤ n
      → Step f (next_loaded max_safe w s (some (on_path n f)))
  loaded-Step w s n f above = elim (Bool-cases (leb max_safe n)) [
    | inl e ↦ rw e (nothing_issued f n)
    | inr e ↦ rw e (store-Step w n f above)
  ]

  next-Step : (w : Write) (n : ℕ) (f : File) → Step f (next_id_of max_safe w (on_path n f))
  unfolding next_id_of load
  next-Step w n absent = loaded-Step w (on_path n absent) n absent (omega arith)
  next-Step w n corrupt = nothing_issued corrupt n
  next-Step w n (saved version m) =
      elim (Bool-cases (not (version == 1) || ltb max_safe m || ltb m 1)) [
        | inl e ↦ rw e (nothing_issued (saved version m) n)
        | inr e ↦ rw e (
            loaded-Step w (on_path n (saved version m)) (larger n m) (saved version m)
              (ground arith))
      ]

  reopened :
      (minimum n : ℕ) (f : File)
      → (m : ℕ) × (kept (on_path n f) (reopen max_safe minimum (on_path n f)) ≡ on_path m f)
  unfolding reopen load
  reopened minimum n f = elim (Bool-cases (ltb max_safe minimum || ltb minimum 1)) [
    | inl e ↦ rw e (n, refl)
    | inr e ↦ rw e (loaded_path f)
  ]
    where
      loaded_path :
          (f : File)
          → (m : ℕ) × (kept
                (on_path n f)
                (load_from max_safe (reserved max_safe minimum (on_path n f)) f)
              ≡ on_path m f)
      loaded_path absent = (minimum, refl)
      loaded_path corrupt = (n, refl)
      loaded_path (saved version m) =
          elim (Bool-cases (not (version == 1) || ltb max_safe m || ltb m 1)) [
            | inl e ↦ rw e (n, refl)
            | inr e ↦ rw e (larger minimum m, refl)
          ]

  -- The ids that a sequencer with a path hands out increase strictly, from the state of the file on,
  -- whatever writes fail, before or after they are in place, and however often the program restarts.
  pub ids_of-IncreasingFrom :
      (es : List Event) (n : ℕ) (f : File)
      → IncreasingFrom (floor f) (ids_of max_safe es (on_path n f))
  unfolding ids_of
  ids_of-IncreasingFrom [] n f = tt
  ids_of-IncreasingFrom (restart minimum ∷ es) n f =
      let (m, opened) = reopened minimum n f in rw opened (ids_of-IncreasingFrom es m f)
  ids_of-IncreasingFrom (reserve w ∷ es) n f =
      let step = next-Step w n f in
      let later : IncreasingFrom (floor step.file)
          (ids_of max_safe es (next_id_of max_safe w (on_path n f)).0) =
        rw step.left (ids_of-IncreasingFrom es step.next step.file) in
      elim (Option-cases (next_id_of max_safe w (on_path n f)).1) [
        | inl e ↦ rw e (increasing_mono (floor f) (floor step.file) _ step.raised later)
        | inr (id, e) ↦
            let (above, bound) = step.issued id e in
            rw e (
              above,
              subst
                  (λ b.
                    IncreasingFrom b (ids_of max_safe es (next_id_of max_safe w (on_path n f)).0))
                  bound later,
            )
      ]

-- ===== src/Kernel/Store/Lockdown.antt =====
-- Restrictions that only grow: a lockdown of a resource and the taint of an observer.
use gatekeeper_os.Prelude.{
  String, string_eq, ◌==◌, ==-refl, Bool, true, ◌&&◌, List, [], ◌∷◌, some, ◌<◌, ◌≡◌, ◌∙◌, inl, inr,
  refl, arith, All, any, any-update_where, any-append_left, any-append_last, any-filter, any-map,
  any_mono, any-sort, includes, any-insert_or_ignore, find?-append, find?-update_where, upsert,
  update_where, if◌then◌else◌, Bool-cases, filter, string_leb,
}
use gatekeeper_os.Kernel.Store.State.{Store, InstanceRecord, Observer}
use gatekeeper_os.Kernel.Store.Audience.{
  get_instance, refreshed, is_observer, add_observers, observers, taint_observer,
}
use gatekeeper_os.Kernel.Store.Commands.{Command, run, run_all, run_all_keeps}

-- The instance is stored and its lockdown flag is set.
abbrev pub IsLockedDown : String → Store → Type 0
IsLockedDown id s = (r : InstanceRecord) × (get_instance s id ≡ some r) × (0 < r.lockdown)

abbrev Any : Command → Type 0
Any c = Unit

locked_refreshed :
    (r : InstanceRecord) (row : InstanceRecord)
    → 0 < row.lockdown
    → 0 < (if row.id == r.id then refreshed r row else row).lockdown
locked_refreshed r row h = ground arith

locked_set :
    (id : String) (row : InstanceRecord)
    → 0 < row.lockdown
    → 0 < (if row.id == id then record row { lockdown = 1 } else row).lockdown
locked_set id row h = ground arith

run-IsLockedDown :
    (id : String) (c : Command) (s : Store) → Any c → IsLockedDown id s → IsLockedDown id (run c s)
unfolding run get_instance
run-IsLockedDown id (Command.upsert_instance r) s _ (row, found, locked) =
    elim (Bool-cases (any (λ x. x.id == r.id) s.instances)) [
      | inl e ↦ (
        if row.id == r.id then refreshed r row else row,
        rw e (
            find?-update_where (λ (x : InstanceRecord). x.id == id) (λ x. x.id == r.id)
              (refreshed r) (λ x _. refl) s.instances
            ∙ rw found),
        locked_refreshed r row locked,
      )
      | inr e ↦ (
        row,
        rw e (find?-append (λ (x : InstanceRecord). x.id == id) s.instances (r ∷ []) ∙ rw found),
        locked,
      )
    ]
run-IsLockedDown id (Command.lockdown_instance i) s _ (row, found, locked) = (
  if row.id == i then record row { lockdown = 1 } else row,
  find?-update_where (λ (x : InstanceRecord). x.id == id) (λ x. x.id == i) _ (λ x _. refl)
        s.instances
      ∙ rw found,
  locked_set i row locked,
)
run-IsLockedDown id _ s _ h = h

unrestricted : (cs : List Command) → All Any cs
unrestricted [] = tt
unrestricted (c ∷ cs) = (tt, unrestricted cs)

-- A resource that is locked down stays so, whatever store operations follow.
pub lockdown_for_good :
    (id : String) (s : Store) (cs : List Command)
    → IsLockedDown id s
    → IsLockedDown id (run_all cs s)
lockdown_for_good id s cs h =
    run_all_keeps (IsLockedDown id) Any (run-IsLockedDown id) cs s (unrestricted cs) h

abbrev tainted_row : String → String → Observer → Bool
tainted_row session_key observer_id row = is_observer session_key observer_id row && row.tainted

-- The observer is recorded as tainted in the session.
abbrev pub IsTainted : String → String → Store → Type 0
IsTainted session_key observer_id s = any (tainted_row session_key observer_id) s.observers ≡ true

any-add_observers :
    (p : Observer → Bool) (k : String) (ids : List String) (rows : List Observer)
    → any p rows ≡ true
    → any p (add_observers k ids rows) ≡ true
unfolding add_observers
any-add_observers p k [] rows e = e
any-add_observers p k (id ∷ ids) rows e =
    any-add_observers p k ids _ (any-insert_or_ignore p (is_observer k id) _ rows e)

any-upsert_taint :
    (p : Observer → Bool) (q : Observer → Bool) (o : Observer) (rows : List Observer)
    → ((x : Observer) → p x ≡ true → p (record x { tainted = true }) ≡ true)
    → any p rows ≡ true
    → any p (upsert q (λ row. record row { tainted = true }) o rows) ≡ true
any-upsert_taint p q o rows keep e = elim (Bool-cases (any q rows)) [
  | inl h ↦ rw h (any-update_where p q (λ row. record row { tainted = true }) keep rows e)
  | inr h ↦ rw h (any-append_left p rows (o ∷ []) e)
]

run-IsTainted :
    (k o : String) (c : Command) (s : Store) → Any c → IsTainted k o s → IsTainted k o (run c s)
unfolding run
run-IsTainted k o (Command.set_observers k' ids) s _ h =
    any-add_observers (tainted_row k o) k' ids _
      (any-filter (tainted_row k o) _ (λ x e. ground arith) s.observers h)
run-IsTainted k o (Command.taint_observer k' o') s _ h =
    any-upsert_taint (tainted_row k o) (is_observer k' o') _ s.observers (λ x e. ground arith) h
run-IsTainted k o _ s _ h = h

any-tainted_set :
    (k o : String) (rows : List Observer)
    → any (is_observer k o) rows ≡ true
    → any
        (tainted_row k o)
        (update_where (is_observer k o) (λ row. record row { tainted = true }) rows)
      ≡ true
any-tainted_set k o [] e = cc
any-tainted_set k o (x ∷ rows) e = ground (arith, any-tainted_set k o rows)

taint-IsTainted : (s : Store) (k o : String) → IsTainted k o (taint_observer s k o)
unfolding taint_observer
taint-IsTainted s k o = elim (Bool-cases (any (is_observer k o) s.observers)) [
  | inl e ↦ rw e (any-tainted_set k o s.observers e)
  | inr e ↦ rw e (any-append_last (tainted_row k o) s.observers _ (rw (==-refl k, ==-refl o)))
]

observed_of_tainted :
    (s : Store) (k o : String) → IsTainted k o s → includes (observers s k) o ≡ true
unfolding observers
observed_of_tainted s k o h =
    let stays : any (tainted_row k o)
          (filter (λ (row : Observer). row.session_key == k) s.observers)
        ≡ true =
      any-filter (tainted_row k o) _ (λ x e. ground arith) s.observers h in
    any-sort string_leb (λ x. x == o) _
    ∙ any-map (λ x. x == o) (λ (row : Observer). row.observer_id) _
    ∙ any_mono (tainted_row k o) (λ (row : Observer). row.observer_id == o) (λ x e. ground arith) _
        stays

-- An observer that was tainted in a session is still listed among its observers after any store
-- operations, `setObservers` with other observers included.
pub taint_for_good :
    (s : Store) (session_key observer_id : String) (cs : List Command)
    → includes
        (observers (run_all cs (taint_observer s session_key observer_id)) session_key)
        observer_id
      ≡ true
taint_for_good s k o cs = observed_of_tainted _ k o (
    run_all_keeps (IsTainted k o) Any (run-IsTainted k o) cs (taint_observer s k o)
      (unrestricted cs) (taint-IsTainted s k o))

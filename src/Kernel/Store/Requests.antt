-- ===== src/Kernel/Store/Requests.antt =====
-- The introductions and notifications of store.ts: addIntroduction, listIntroductions,
-- claimIntroduction, finishIntroduction, countPendingRequests, claimNotification.
use gatekeeper_os.Prelude.{
  ℕ, String, string_eq, nat_eq, Eq, ◌==◌, nat_beq, Bool, true, not, ◌&&◌, List, [], ◌∷◌, ◌++◌,
  Option, leb, filter, any, update_where, count_where, insert_or_ignore, sort, take, ◌≡◌, ◌↔◌,
  arith,
}
use gatekeeper_os.Kernel.Store.State.{
  Store, Introduction, IntroductionStatus, pending, resolving, granted, rejected, failed,
}

abbrev introduction_status_code : IntroductionStatus → ℕ
introduction_status_code pending = 0
introduction_status_code resolving = 1
introduction_status_code granted = 2
introduction_status_code rejected = 3
introduction_status_code failed = 4

abbrev pub introduction_status_beq : IntroductionStatus → IntroductionStatus → Bool
introduction_status_beq a b = nat_beq (introduction_status_code a) (introduction_status_code b)

pub introduction_status_beq_iff :
    (a b : IntroductionStatus) → (introduction_status_beq a b ≡ true) ↔ (a ≡ b)
introduction_status_beq_iff a b = ground arith

instance abbrev pub introduction_status_eq : Eq IntroductionStatus
introduction_status_eq = record {
  equals = introduction_status_beq;
  equals_iff = introduction_status_beq_iff;
}

-- The row id is the one that AUTOINCREMENT chooses; the result is `lastInsertRowid`.
unfoldable pub add_introduction :
    Store → ℕ → String → Option String → String → Option String → Option String → ℕ → Store × ℕ
add_introduction s new_id agent_id session_key url reason requested_by now = (
  record s {
    introductions =
        s.introductions
        ++ record {
          id = new_id;
          agent_id = agent_id;
          session_key = session_key;
          url = url;
          reason = reason;
          status = pending;
          created_at = now;
          requested_by = requested_by;
        }
          ∷ [];
  },
  new_id,
)

unfoldable pub list_introductions : Store → List Introduction
unfolding sort
list_introductions s = take 100 (
    sort (λ (a b : Introduction). leb a.id b.id)
      (filter (λ i. i.status == pending) s.introductions))

abbrev pub is_open : ℕ → IntroductionStatus → Introduction → Bool
is_open id expected i = i.id == id && i.status == expected

unfoldable pub claim_introduction : Store → ℕ → Store × Bool
claim_introduction s id = (
  record s {
    introductions =
        update_where (is_open id pending) (λ i. record i { status = resolving }) s.introductions;
  },
  count_where (is_open id pending) s.introductions == 1,
)

unfoldable pub finish_introduction : Store → ℕ → IntroductionStatus → Store
finish_introduction s id status = record s {
  introductions =
      update_where (is_open id resolving) (λ i. record i { status = status }) s.introductions;
}

unfoldable pub count_pending_requests : Store → ℕ
count_pending_requests s = count_where (λ i. i.status == pending) s.introductions

unfoldable pub claim_notification : Store → String → ℕ → Store × Bool
claim_notification s run_id now = (
  record s {
    notifications =
        insert_or_ignore (λ n. n.run_id == run_id) (record { run_id = run_id; created_at = now })
          s.notifications;
  },
  not (any (λ n. n.run_id == run_id) s.notifications),
)

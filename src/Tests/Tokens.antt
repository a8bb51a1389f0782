-- ===== src/Tests/Tokens.antt =====
-- The accounts of token-store.ts on small inputs.
use gatekeeper_os.Kit.TokenStore.Laws.{removed_for_good, IsSound}
use gatekeeper_os.Kit.TokenStore.{
  put, settle, overtaking, run_call, run_calls, remove, settling, TokenStore,
}
use gatekeeper_os.Prelude.{
  refl, arith, true, string_eq, ◌≡◌, ◌==◌, none, some, [], ◌∷◌, if◌then◌else◌,
}

-- One account, with a refresh in flight.
abbrev refreshing_store : TokenStore
refreshing_store = record {
  accounts = λ id. if id == "op" then some "old" else none;
  generations = λ id. if id == "op" then 1 else 0;
  refreshes = λ id. if id == "op" then some 1 else none;
}

refreshed_run :
    (run_calls (settling true "op" (some "new") ∷ []) refreshing_store).accounts "op" ≡ some "new"
unfolding run_calls run_call settle put
refreshed_run = refl

removed_store : remove true "op" refreshing_store ≡ some (overtaking "op" none refreshing_store)
unfolding remove
removed_store = refl

refreshing_store-IsSound : IsSound "op" refreshing_store
refreshing_store-IsSound g e = let same : 1 ≡ g = cc e in omega arith

removed_for_good_example :
    (run_calls
        (settling true "op" (some "new") ∷ [])
        (overtaking "op" none refreshing_store)).accounts
      "op"
    ≡ none
removed_for_good_example =
    removed_for_good "op" refreshing_store (overtaking "op" none refreshing_store)
      (settling true "op" (some "new") ∷ []) refreshing_store-IsSound removed_store (tt, tt)

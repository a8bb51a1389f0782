-- ===== src/Tests/Nonces.antt =====
-- The nonces of oauth-nonce.ts on small inputs.
use gatekeeper_os.Kit.OauthNonce.Replay.{presented_once}
use gatekeeper_os.Kit.OauthNonce.Provenance.{consumed_from_issue}
use gatekeeper_os.Prelude.{
  ==_iff, true, string_eq, ◌≢◌, some, none, ◌+◌, refl, ◌<◌, [], ◌∷◌, false, ◌≡◌, ℕ, List, String,
}
use mathlib.Core.List.{Mem}
use gatekeeper_os.Kit.OauthNonce.{
  advance_bound, sweep, take_pending, issue, swept, advanced, run_call, issued, run_calls, consume,
  is_nonce, Call,
}

abbrev first_nonce : String
first_nonce = "aaaaaaaaaaaaaaaaaaaaaaaaaaaaaaaa"

abbrev second_nonce : String
second_nonce = "bbbbbbbbbbbbbbbbbbbbbbbbbbbbbbb-"

abbrev two_stages : List Call
two_stages = issued "op" first_nonce 0 ∷ advanced first_nonce second_nonce 99 ∷ []

consumed_run : (consume (run_calls 100 two_stages []) second_nonce 99).1 ≡ some "op"
unfolding consume run_calls run_call issue sweep advance_bound take_pending is_nonce
consumed_run = refl

expired_run : (consume (run_calls 100 two_stages []) second_nonce 100).1 ≡ none
unfolding consume run_calls run_call issue sweep advance_bound take_pending is_nonce
expired_run = refl

first_stage_run : (consume (run_calls 100 two_stages []) first_nonce 99).1 ≡ none
unfolding consume run_calls run_call issue sweep advance_bound take_pending is_nonce
first_stage_run = refl

malformed_run : is_nonce "nope" ≡ false
unfolding is_nonce
malformed_run = refl

consumed_from_issue_example :
    (first : String) × (t₀ : ℕ) × (t₁ : ℕ) × Mem (issued "op" first t₀) two_stages
    × Mem (advanced first second_nonce t₁) two_stages
    × (t₁ < t₀ + 100)
    × (99 < t₀ + 100)
consumed_from_issue_example = consumed_from_issue 100 two_stages second_nonce "op" 99 consumed_run

nonces_differ : second_nonce ≢ first_nonce
nonces_differ e = let h : false ≡ true = (==_iff second_nonce first_nonce).1 e in cc h

presented_once_example :
    let after = run_calls 100 (swept 5 ∷ issued "op" second_nonce 6 ∷ []) (
      run_call 100
        (advanced first_nonce second_nonce 99)
        (run_call 100 (issued "op" first_nonce 0) [])) in
    ((consume after first_nonce 99).1 ≡ none)
    × ((advance_bound after first_nonce second_nonce 99).1 ≡ none)
presented_once_example =
    presented_once 100 (run_call 100 (issued "op" first_nonce 0) []) first_nonce
      (advanced first_nonce second_nonce 99) (swept 5 ∷ issued "op" second_nonce 6 ∷ []) refl
      nonces_differ (tt, (nonces_differ, tt)) second_nonce 99

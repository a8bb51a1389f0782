-- ===== src/Cli/Script.antt =====
-- The commands of packages/gkos-cli/src/commands as steps on a state: a step returns, or it throws an
-- error of util/proc.ts or of the platform. Either way it leaves a state.
pub mod Keeps
use gatekeeper_os.Prelude.{Bool, true, false, String, Option, none, some}

pub data Failure : Type 0 where
  step_error other_error : String → Failure

pub data Ending {ℓ} (S : Type 0) (A : Type ℓ) : Type ℓ where
  returned : A → S → Ending S A
  threw : Failure → S → Ending S A

abbrev pub Script {ℓ} : Type 0 → Type ℓ → Type ℓ
Script S A = S → Ending S A

abbrev pub left_by {ℓ} : {S : Type 0} {A : Type ℓ} → Ending S A → S
left_by (returned a s) = s
left_by (threw e s) = s

abbrev pub continue {ℓ κ} :
    {S : Type 0} {A : Type ℓ} {B : Type κ} → Ending S A → (A → Script S B) → Ending S B
continue (returned a s) k = k a s
continue (threw e s) k = threw e s

infixl 5 ◌>>=◌ ◌>>◌
abbrev pub ◌>>=◌ {ℓ κ} :
    {S : Type 0} {A : Type ℓ} {B : Type κ} → Script S A → (A → Script S B) → Script S B
◌>>=◌ m k s = continue (m s) k

abbrev pub ◌>>◌ {ℓ} : {S : Type 0} {B : Type ℓ} → Script S (Unit {0}) → Script S B → Script S B
◌>>◌ m k s = continue (m s) (λ _. k)

abbrev pub give {ℓ} : {S : Type 0} {A : Type ℓ} → A → Script S A
give a s = returned a s

abbrev pub throw {ℓ} : {S : Type 0} {A : Type ℓ} → Failure → Script S A
throw e s = threw e s

-- `if (!test) throw new StepError(message)`
abbrev pub require : {S : Type 0} → Bool → String → Script S (Unit {0})
require true message s = returned tt s
require false message s = threw (step_error message) s

abbrev pub from_option {ℓ} : {S : Type 0} {A : Type ℓ} → Option A → Failure → Script S A
from_option none e s = threw e s
from_option (some a) e s = returned a s

-- `finally`, by a clause that does not throw
abbrev pub and_finally {ℓ} : {S : Type 0} {A : Type ℓ} → (S → S) → Ending S A → Ending S A
and_finally f (returned a s) = returned a (f s)
and_finally f (threw e s) = threw e (f s)

-- A script that has no state.
abbrev pub leaving {ℓ} : {S : Type 0} {A : Type ℓ} → Ending (Unit {0}) A → Script S A
leaving (returned a s) t = returned a t
leaving (threw e s) t = threw e t

abbrev pub stateless {ℓ} : {S : Type 0} {A : Type ℓ} → Script (Unit {0}) A → Script S A
stateless m t = leaving (m tt) t

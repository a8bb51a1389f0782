-- ===== src/Cli/Script/Keeps.antt =====
-- What holds at every end of a script, and after it returns, one step at a time.
use gatekeeper_os.Prelude.{Bool, true, false, String, ◌≡◌, refl}
use gatekeeper_os.Cli.Script.{
  and_finally, Ending, returned, threw, Script, continue, ◌>>◌, give, require, and_finally,
}

module _ {ℓ} {S : Type 0} {A : Type ℓ} where
  -- `I` holds wherever the script ends, and `Q` of what it returns.
  unfoldable pub Ends : (S → Type 0) → (A → S → Type 0) → Ending S A → Type 0
  Ends I Q (returned a s) = I s × Q a s
  Ends I Q (threw e s) = I s

module _ {ℓ κ} {S : Type 0} {A : Type ℓ} {B : Type κ} (I : S → Type 0) (Q : A → S → Type 0)
    (R : B → S → Type 0) where
  pub continue-Ends :
      (o : Ending S A) (k : A → Script S B)
      → Ends I Q o
      → ((a : A) (s : S) → I s → Q a s → Ends I R (k a s))
      → Ends I R (continue o k)
  unfolding Ends
  continue-Ends (returned a s) k (i, q) f = f a s i q
  continue-Ends (threw e s) k i f = i

module _ {ℓ} {S : Type 0} {A : Type ℓ} (I : S → Type 0) (Q : A → S → Type 0) where
  pub require_then :
      (b : Bool) (message : String) (m : Script S A) (s : S)
      → I s
      → (b ≡ true → Ends I Q (m s))
      → Ends I Q ((require b message >> m) s)
  unfolding Ends
  require_then true message m s i k = k refl
  require_then false message m s i k = i

  pub give-Ends : (a : A) (s : S) → I s → Q a s → Ends I Q (give a s)
  unfolding Ends
  give-Ends a s i q = (i, q)

  pub mono-Ends :
      (J : S → Type 0) (R : A → S → Type 0) (o : Ending S A)
      → ((s : S) → I s → J s)
      → ((a : A) (s : S) → I s → Q a s → R a s)
      → Ends I Q o
      → Ends J R o
  unfolding Ends
  mono-Ends J R (returned a s) f g (i, q) = (f s i, g a s i q)
  mono-Ends J R (threw e s) f g i = f s i

  pub and_finally-Ends :
      (f : S → S) (o : Ending S A)
      → ((s : S) → I s → I (f s))
      → ((a : A) (s : S) → Q a s → Q a (f s))
      → Ends I Q o
      → Ends I Q (and_finally f o)
  unfolding Ends
  and_finally-Ends f (returned a s) p q (i, r) = (p s i, q a s r)
  and_finally-Ends f (threw e s) p q i = p s i

-- ===== src/Ftp/Exec.antt =====
-- Functions that change the state of their process and may not come back.
pub mod Keeps
use computer_system24fall.Common.{ℕ, ◌≡◌, ap}
use computer_system24fall.Common.Int.{ℤ, pos, negsuc}

-- How a call ends: it returns; it waits in a system call; it has done what C++ leaves undefined, as
-- an access out of range; or the process has left by exit.
pub data Outcome {ℓ} (A : Type ℓ) : Type ℓ where
  returned : A → Outcome A
  blocked undefined exited : Outcome A

abbrev pub Exec : Type 0 → Type 0 → Type 0
Exec S A = S → Outcome A × S

module _ {S A : Type 0} where
  abbrev pub pure : A → Exec S A
  pure a s = (returned a, s)

  abbrev pub gets : (S → A) → Exec S A
  gets f s = (returned (f s), s)

  abbrev pub undefined_here : Exec S A
  undefined_here s = (undefined, s)

  abbrev pub exit_here : Exec S A
  exit_here s = (exited, s)

abbrev pub modify : {S : Type 0} → (S → S) → Exec S (Unit {0})
modify f s = (returned tt, f s)

abbrev pub and_then : {S A B : Type 0} → Outcome A → (A → Exec S B) → Exec S B
and_then (returned a) f s = f a s
and_then blocked f s = (blocked, s)
and_then undefined f s = (undefined, s)
and_then exited f s = (exited, s)

infixl 5 ◌>>=◌ ◌>>◌
abbrev pub ◌>>=◌ : {S A B : Type 0} → Exec S A → (A → Exec S B) → Exec S B
◌>>=◌ m f s = let (r, s') = m s in and_then r f s'

abbrev pub ◌>>◌ : {S A B : Type 0} → Exec S A → Exec S B → Exec S B
m >> k = m >>= λ _. k

-- serror prints a message and returns -1.
abbrev pub serror : ℤ
serror = negsuc 0

-- `if (m < 0) return serror(…);`, and what follows.
abbrev pub fail_or : {S : Type 0} → Exec S ℤ → Exec S ℤ → Exec S ℤ
fail_or m k = m >>= λ r. elim r [ pos n ↦ k | negsuc n ↦ pure serror ]

-- A step that returns hands its value and its state on.
pub >>=-returned :
    {S A B : Type 0} (m : Exec S A) (f : A → Exec S B) (s s' : S) (a : A)
    → m s ≡ (returned a, s')
    → (m >>= f) s ≡ f a s'
>>=-returned m f s s' a e = ap (λ r. and_then r.0 f r.1) e

pub fail_or-returned :
    {S : Type 0} (m k : Exec S ℤ) (s s' : S) (n : ℕ)
    → m s ≡ (returned (pos n), s')
    → fail_or m k s ≡ k s'
fail_or-returned m k s s' n e =
    >>=-returned m (λ r. elim r [ pos n ↦ k | negsuc n ↦ pure serror ]) s s' (pos n) e

-- A step that does not come back in a defined way ends what it begins.
pub >>=-undefined :
    {S A B : Type 0} (m : Exec S A) (f : A → Exec S B) (s : S)
    → (m s).0 ≡ undefined
    → ((m >>= f) s).0 ≡ undefined
>>=-undefined m f s e = ap (λ r. (and_then r f (m s).1).0) e

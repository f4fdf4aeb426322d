-- ===== src/HelloNetwork.antt =====
-- lab0/hellonetwork.cpp.
use Prim.Native.String.{String}
use computer_system24fall.Common.{zero, suc, ◌≡◌, refl, ◌⊎◌, inl, inr, arith, List, [], ◌∷◌, ℕ}
use computer_system24fall.Common.Int.{ℤ, pos, negsuc}

-- The result of main, and what it prints on cout and cerr.
pub record Run : Type 0 where
  pub result : ℕ
  pub out : String
  pub err : String

-- The switch.
unfoldable pub greet : ℤ → Run
greet (pos zero) = record { result = 0; out = "TA is saying hello\n"; err = "" }
greet (pos (suc zero)) = record { result = 0; out = "Hello Network Hello PKU\n"; err = "" }
greet option = record { result = 1; out = ""; err = "No such option\n" }

-- `argv` with the program's name; the option is 0 unless there is just one argument.
unfoldable pub option_of : (List ℕ → ℤ) → List (List ℕ) → ℤ
option_of atoi (name ∷ argument ∷ []) = atoi argument
option_of atoi argv = pos 0

unfoldable pub main : (List ℕ → ℤ) → List (List ℕ) → Run
unfolding greet option_of
main atoi argv = greet (option_of atoi argv)

-- main succeeds just for the two options that it knows.
greet-succeeds : (option : ℤ) → (greet option).result ≡ 0 → (option ≡ pos 0) ⊎ (option ≡ pos 1)
unfolding greet
greet-succeeds (pos zero) e = inl refl
greet-succeeds (pos (suc zero)) e = inr refl
greet-succeeds (pos (suc (suc n))) e = absurd (omega (arith, e))
greet-succeeds (negsuc n) e = absurd (omega (arith, e))

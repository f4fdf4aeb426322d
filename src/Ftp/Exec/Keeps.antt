-- ===== src/Ftp/Exec/Keeps.antt =====
-- Properties of the state that a function keeps, unless it ends in what C++ leaves undefined.
use computer_system24fall.Common.{◌≢◌, refl, Bool, true, false, if◌then◌else◌}
use computer_system24fall.Common.Int.{ℤ, pos, negsuc}
use computer_system24fall.Ftp.Exec.{
  Outcome, returned, blocked, undefined, exited, Exec, pure, and_then, ◌>>=◌, fail_or, serror,
}

module _ {S : Type 0} (P : S → Type 0) where
  abbrev pub Keeps : {A : Type 0} → Exec S A → Type 0
  Keeps m = (s : S) → P s → (m s).0 ≢ undefined → P (m s).1

  module _ {A B : Type 0} where
    pub >>=-Keeps :
        (m : Exec S A) (f : A → Exec S B) → Keeps m → ((a : A) → Keeps (f a)) → Keeps (m >>= f)
    >>=-Keeps m f first next s p = goes_on (m s).0 (m s).1 (first s p)
      where
        goes_on :
            (r : Outcome A) (t : S)
            → (r ≢ undefined → P t)
            → (and_then r f t).0 ≢ undefined
            → P (and_then r f t).1
        goes_on (returned a) t q d = next a t (q (λ e. absurd (cc e))) d
        goes_on blocked t q d = q (λ e. absurd (cc e))
        goes_on undefined t q d = absurd (d refl)
        goes_on exited t q d = q (λ e. absurd (cc e))

  pub if-Keeps :
      {A : Type 0} (b : Bool) (m k : Exec S A) → Keeps m → Keeps k → Keeps (if b then m else k)
  if-Keeps true m k p q = p
  if-Keeps false m k p q = q

  pub fail_or-Keeps : (m k : Exec S ℤ) → Keeps m → Keeps k → Keeps (fail_or m k)
  fail_or-Keeps m k first next =
      >>=-Keeps m (λ r. elim r [ pos n ↦ k | negsuc n ↦ pure serror ]) first by_sign
    where
      by_sign : (r : ℤ) → Keeps (elim r [ pos n ↦ k | negsuc n ↦ pure serror ])
      by_sign (pos n) s p d = next s p d
      by_sign (negsuc n) s p d = p

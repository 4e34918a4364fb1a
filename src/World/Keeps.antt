-- ===== src/World/Keeps.antt =====
-- Calls that leave a part of the world as it is, whatever they come back with.
use ragivka.Prelude.{arith, ◌≡◌, Bool, List, ◌∙◌}
use ragivka.Errors.{Result, ok, err, panic, Result-Cases, Cases}
use ragivka.World.{World, Exec, ◌>>=◌, statement}
use ragivka.World.Laws.{statement-cases}

module _ {ℓ} {S : Type ℓ} (view : World → S) where
  abbrev pub Keeps : {A : Type 0} → Exec A → Type ℓ
  Keeps m = (w : World) → view (m w).1 ≡ view w

  module _ {A B : Type 0} where
    pub >>=-Keeps :
        (m : Exec A) (f : A → Exec B) → Keeps m → ((a : A) → Keeps (f a)) → Keeps (m >>= f)
    >>=-Keeps m f hm hf w = elim (Result-Cases (m w).0) [
      | Cases.is_ok a e ↦ rw e (hf a (m w).1 ∙ hm w)
      | Cases.is_err x e ↦ rw e (hm w)
      | Cases.is_panic p e ↦ rw e (hm w)
    ]

  pub statement-Keeps :
      {A : Type 0} (m : Exec A)
      → ((w : World) (fs : List Bool) → view (record w { faults = fs }) ≡ view w)
      → Keeps m
      → Keeps (statement m)
  statement-Keeps m blind hm w =
      statement-cases m w (λ out. view out.1 ≡ view w)
        (λ fs. hm (record w { faults = fs }) ∙ blind w fs) (λ fs. blind w fs)

-- What holds of the value and the world of every run that ends without an error.
abbrev pub Ends {ℓ} : {A : Type 0} → (A → World → Type ℓ) → Exec A → Type ℓ
Ends Q m = (w : World) (a : _) → (m w).0 ≡ ok a → Q a (m w).1

-- A sequence ends as its last call does.
pub >>=-Ends {ℓ} :
    {A B : Type 0} (Q : B → World → Type ℓ) (m : Exec A) (f : A → Exec B)
    → ((a : A) → Ends Q (f a))
    → Ends Q (m >>= f)
>>=-Ends Q m f h w b done = elim (Result-Cases (m w).0) [
  | Cases.is_ok a e ↦ rw e (h a (m w).1 b (rw e at done))
  | Cases.is_err x e ↦
      let fails : ◌≡◌ {A = Result _} (err x) (ok b) = rw e at done in absurd (ground arith)
  | Cases.is_panic p e ↦
      let fails : ◌≡◌ {A = Result _} (panic p) (ok b) = rw e at done in absurd (ground arith)
]

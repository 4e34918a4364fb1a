-- ===== src/Channel/Respond/Keeps.antt =====
-- What a handler leaves as it was, if its calls do.
use ragivka.Prelude.{◌∙◌}
use ragivka.Errors.{Result-Cases, Cases}
use ragivka.Channel.Respond.{handled}
use ragivka.World.{World, Exec}
use ragivka.World.Keeps.{Keeps}

pub handled-Keeps :
    {S A R : Type 0} (view : World → S) (failure : R) (m : Exec A) (next : A → Exec R)
    → Keeps view m
    → ((a : A) → Keeps view (next a))
    → Keeps view (handled failure m next)
handled-Keeps view failure m next hm hn w = elim (Result-Cases (m w).0) [
  | Cases.is_ok a e ↦ rw e (hn a (m w).1 ∙ hm w)
  | Cases.is_err x e ↦ rw e (hm w)
  | Cases.is_panic p e ↦ rw e (hm w)
]

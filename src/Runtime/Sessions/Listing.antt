-- ===== src/Runtime/Sessions/Listing.antt =====
-- What the query for expired sessions of pkg/runtime/session_repo.go lists.
use ragivka.Prelude.{◌≡◌, refl, ◌⊎◌, inl, inr, Bool, true, List, [], ◌∷◌, All, In, Bool-cases}
use ragivka.Errors.{Err, ok, err, other}
use ragivka.Runtime.Types.{Session}
use ragivka.Runtime.Sessions.{filter_sessions, is_overdue, list_expired}
use ragivka.World.{World}
use ragivka.World.Laws.{statement-cases, statement_no_faults}

pub In-filter :
    (p : Session → Bool) (s : Session) (table : List Session)
    → In s table
    → p s ≡ true
    → In s (filter_sessions p table)
unfolding filter_sessions
In-filter p s [] m e = absurd m
In-filter p s (t ∷ rest) (inl same) e = rw (← same) (rw e (inl refl))
In-filter p s (t ∷ rest) (inr m) e = elim (Bool-cases (p t)) [
  | inl et ↦ rw et (inr (In-filter p s rest m e))
  | inr et ↦ rw et (In-filter p s rest m e)
]

pub All-filter :
    (P : Session → Type 0) (p : Session → Bool) (table : List Session)
    → All (λ s. p s ≡ true → P s) table
    → All P (filter_sessions p table)
unfolding filter_sessions
All-filter P p [] h = tt
All-filter P p (t ∷ rest) h = elim (Bool-cases (p t)) [
  | inl et ↦ rw et (h.0 et, All-filter P p rest h.1)
  | inr et ↦ rw et (All-filter P p rest h.1)
]

-- The listing fails, or lists the overdue rows and leaves the table.
pub list_expired-cases :
    (w : World)
    → ((v : World) × (list_expired w ≡ (ok (filter_sessions (is_overdue w.now) w.sessions), v)))
      ⊎ ((e : Err) × ((list_expired w).0 ≡ err e))
unfolding list_expired
list_expired-cases w =
    statement-cases (λ v. (ok (filter_sessions (is_overdue v.now) v.sessions), v)) w
      (λ out.
        ((v : World) × (out ≡ (ok (filter_sessions (is_overdue w.now) w.sessions), v)))
        ⊎ ((e : Err) × (out.0 ≡ err e)))
      (λ fs. inl (record w { faults = fs }, refl)) (λ fs. inr (other "database error", refl))

pub list_expired_no_faults :
    (w : World)
    → w.faults ≡ []
    → list_expired w ≡ (ok (filter_sessions (is_overdue w.now) w.sessions), w)
unfolding list_expired
list_expired_no_faults w quiet = statement_no_faults _ w quiet

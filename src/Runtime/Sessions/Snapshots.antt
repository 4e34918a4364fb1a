-- ===== src/Runtime/Sessions/Snapshots.antt =====
-- How the rows that workers have read, of pkg/runtime/session_repo.go, relate to the table.
use ragivka.Prelude.{
  ℕ, ◌≤◌, ◌≡◌, refl, sym, ◌∙◌, inl, inr, Bool, true, false, List, [], ◌∷◌, map, arith, some, All,
  Bool-cases,
}
use ragivka.Runtime.Fsm.{State}
use ragivka.Runtime.Types.{Session}
use ragivka.Runtime.Sessions.{find_session, advance_row}
use ragivka.Runtime.Sessions.Queries.{holds_id}

-- What a worker has seen of a row is old, or is what the row still holds.
abbrev pub Agrees : Session → Session → Type 0
Agrees s t = s.id ≡ t.id → (s.version ≤ t.version) × (s.version ≡ t.version → s.state ≡ t.state)

-- The primary key.
abbrev pub Unique : List Session → Type 0
Unique [] = Unit
Unique (t ∷ rest) = (holds_id t.id rest ≡ false) × Unique rest

pub record Coherent (seen : List Session) (table : List Session) : Type 0 where
  pub unique : Unique table
  pub agree : All (λ s. All (Agrees s) table) seen
  pub known : All (λ s. holds_id s.id table ≡ true) seen

free-All-Agrees :
    (s : Session) (table : List Session) → holds_id s.id table ≡ false → All (Agrees s) table
unfolding holds_id
free-All-Agrees s [] h = tt
free-All-Agrees s (t ∷ rest) h =
    ((λ e. absurd (ground arith)), free-All-Agrees s rest (ground arith))

pub found-known :
    (p : Session → Bool) (s : Session) (table : List Session)
    → find_session p table ≡ some s
    → holds_id s.id table ≡ true
unfolding holds_id
found-known p s [] h = cc
found-known p s (t ∷ rest) h = ground (arith, found-known p s rest)

clash :
    (s t : Session) (table : List Session)
    → s.id ≡ t.id
    → holds_id s.id table ≡ true
    → holds_id t.id table ≡ false
    → ⊥
clash s t table e there gone = cc

-- What a query finds agrees with every row, since the id is the key.
pub found-All-Agrees :
    (p : Session → Bool) {s : Session} (table : List Session)
    → Unique table
    → find_session p table ≡ some s
    → All (Agrees s) table
unfolding find_session
found-All-Agrees p [] u h = cc
found-All-Agrees p {s} (t ∷ rest) u h = elim (Bool-cases (p t)) [
  | inl e ↦
      let same : t ≡ s = ground arith in
      ((λ ei. (ground arith, λ ev. ground arith)), free-All-Agrees s rest (rw (← same) u.0))
  | inr e ↦
      let later : find_session p rest ≡ some s = ground arith in
      (
        (λ ei. absurd (clash s t rest ei (found-known p s rest later) u.0)),
        found-All-Agrees p rest u.1 later,
      )
]

still_agree :
    (seen table : List Session) (s t : Session)
    → t.id ≡ s.id
    → holds_id s.id table ≡ false
    → All (λ q. holds_id q.id table ≡ true) seen
    → All (λ q. All (Agrees q) table) seen
    → All (λ q. All (Agrees q) (t ∷ table)) seen
still_agree [] table s t ei free known agree = tt
still_agree (q ∷ seen) table s t ei free known agree = (
  ((λ e. absurd (clash q s table (e ∙ ei) known.0 free)), agree.0),
  still_agree seen table s t ei free known.1 agree.1,
)

still_known :
    (seen table : List Session) (t : Session)
    → All (λ q. holds_id q.id table ≡ true) seen
    → All (λ q. holds_id q.id (t ∷ table) ≡ true) seen
unfolding holds_id
still_known [] table t known = tt
still_known (q ∷ seen) table t known = (ground arith, still_known seen table t known.1)

-- A new row that its creator has seen.
pub Coherent-created :
    (seen table : List Session) (s t : Session)
    → t.id ≡ s.id
    → t.version ≡ s.version
    → t.state ≡ s.state
    → holds_id s.id table ≡ false
    → Coherent seen table
    → Coherent (s ∷ seen) (t ∷ table)
unfolding holds_id
Coherent-created seen table s t ei ev es free c = record {
  unique = (rw ei free, c.unique);
  agree = (
    ((λ e. (omega arith, λ ev'. sym es)), free-All-Agrees s table free),
    still_agree seen table s t ei free c.known c.agree,
  );
  known = (ground arith, still_known seen table t c.known);
}

module _ (id tenant : ℕ) (to : State) (version now : ℕ) where
  holds_id-advance :
      (i : ℕ) (table : List Session)
      → holds_id i (map (advance_row id tenant to version now) table) ≡ holds_id i table
  unfolding holds_id advance_row
  holds_id-advance i [] = refl
  holds_id-advance i (t ∷ rest) = ground (arith, holds_id-advance i rest)

  Agrees-advance :
      (s : Session) (table : List Session)
      → All (Agrees s) table
      → All (Agrees s) (map (advance_row id tenant to version now) table)
  unfolding advance_row
  Agrees-advance s [] h = tt
  Agrees-advance s (t ∷ rest) h =
      ((λ e. (ground (arith, h.0), λ ev. ground (arith, h.0))), Agrees-advance s rest h.1)

  advance-id :
      (t : Session) (rest : List Session)
      → holds_id t.id rest ≡ false
      → holds_id
          (advance_row id tenant to version now t).id
          (map (advance_row id tenant to version now) rest)
        ≡ false
  unfolding advance_row
  advance-id t rest h = ground (arith, holds_id-advance t.id rest)

  Unique-advance :
      (table : List Session)
      → Unique table
      → Unique (map (advance_row id tenant to version now) table)
  Unique-advance [] u = tt
  Unique-advance (t ∷ rest) u = (advance-id t rest u.0, Unique-advance rest u.1)

  agree-advance :
      (seen table : List Session)
      → All (λ s. All (Agrees s) table) seen
      → All (λ s. All (Agrees s) (map (advance_row id tenant to version now) table)) seen
  agree-advance [] table h = tt
  agree-advance (s ∷ seen) table h = (Agrees-advance s table h.0, agree-advance seen table h.1)

  known-advance :
      (seen table : List Session)
      → All (λ s. holds_id s.id table ≡ true) seen
      → All (λ s. holds_id s.id (map (advance_row id tenant to version now) table) ≡ true) seen
  known-advance [] table h = tt
  known-advance (s ∷ seen) table h =
      (holds_id-advance s.id table ∙ h.0, known-advance seen table h.1)

  -- An UPDATE keeps the keys, and a row that it moves is ahead of all that was seen of it.
  pub Coherent-advance :
      (seen table : List Session)
      → Coherent seen table
      → Coherent seen (map (advance_row id tenant to version now) table)
  Coherent-advance seen table c = record {
    unique = Unique-advance table c.unique;
    agree = agree-advance seen table c.agree;
    known = known-advance seen table c.known;
  }

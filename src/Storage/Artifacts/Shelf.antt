-- ===== src/Storage/Artifacts/Shelf.antt =====
-- The table of pkg/storage/artifact_repo.go read as a map from primary keys to rows.
use mathlib.Core.Path.{fun_ext, subst}
use ragivka.Prelude.{
  ℕ, ◌≡◌, refl, Bool, true, false, Option, none, some, List, [], ◌∷◌, arith, All, is_some, not, inl,
  inr, Bool-cases, ◌==◌, ◌&&◌, if◌then◌else◌,
}
use ragivka.Storage.Types.{Artifact}
use ragivka.Storage.Artifacts.{find_artifact, filter_artifacts, has_artifact_key}

abbrev pub Shelf : Type 0
Shelf = ℕ → Option Artifact

abbrev pub has_id : ℕ → Artifact → Bool
has_id id a = a.id == id

unfoldable pub shelf_of : List Artifact → Shelf
unfolding find_artifact
shelf_of table id = find_artifact (has_id id) table

abbrev pub place : Shelf → ℕ → Option Artifact → Shelf
place f id o j = if id == j then o else f j

-- What a tenant may know of an entry.
abbrev pub seen : ℕ → Option Artifact → Option Artifact
seen tenant none = none
seen tenant (some a) = if a.tenant_id == tenant then some a else none

abbrev pub Misses : ℕ → List Artifact → Type 0
Misses id = All (λ b. (b.id == id) ≡ false)

-- The primary key.
abbrev pub IsKeyed : List Artifact → Type 0
IsKeyed [] = Unit
IsKeyed (a ∷ rest) = Misses a.id rest × IsKeyed rest

pub shelf_of-Misses : (id : ℕ) (table : List Artifact) → Misses id table → shelf_of table id ≡ none
unfolding shelf_of
shelf_of-Misses id [] h = refl
shelf_of-Misses id (a ∷ rest) h = rw h.0 (shelf_of-Misses id rest h.1)

pub Misses-of_none :
    (id : ℕ) (table : List Artifact) → is_some (shelf_of table id) ≡ false → Misses id table
unfolding shelf_of
Misses-of_none id [] h = tt
Misses-of_none id (a ∷ rest) h = elim (Bool-cases (a.id == id)) [
  | inl here ↦ let never : true ≡ false = rw here at h in absurd (ground arith)
  | inr later ↦ (later, Misses-of_none id rest (rw later at h))
]

Misses-find :
    (id tenant : ℕ) (table : List Artifact)
    → Misses id table
    → find_artifact (has_artifact_key id tenant) table ≡ none
unfolding find_artifact
Misses-find id tenant [] h = refl
Misses-find id tenant (a ∷ rest) h = ground (arith, Misses-find id tenant rest)

-- A tenant's lookup by key finds what the tenant may know of the entry.
pub find-seen :
    (id tenant : ℕ) (table : List Artifact)
    → IsKeyed table
    → find_artifact (has_artifact_key id tenant) table ≡ seen tenant (shelf_of table id)
unfolding find_artifact shelf_of
find-seen id tenant [] h = refl
find-seen id tenant (a ∷ rest) h = elim (Bool-cases (a.id == id)) [
  | inl here ↦
      let same : a.id ≡ id = ground arith in
      let gone : Misses id rest = subst (λ k. Misses k rest) same h.0 in
      ground (arith, Misses-find id tenant rest gone)
  | inr later ↦ ground (arith, find-seen id tenant rest h.1)
]

abbrev others : ℕ → ℕ → List Artifact → List Artifact
others id tenant = filter_artifacts (λ a. not (has_artifact_key id tenant a))

Misses-others :
    (j id tenant : ℕ) (table : List Artifact) → Misses j table → Misses j (others id tenant table)
unfolding filter_artifacts
Misses-others j id tenant [] h = tt
Misses-others j id tenant (a ∷ rest) h = ground (arith, Misses-others j id tenant rest)

pub others-IsKeyed :
    (id tenant : ℕ) (table : List Artifact) → IsKeyed table → IsKeyed (others id tenant table)
unfolding filter_artifacts
others-IsKeyed id tenant [] h = tt
others-IsKeyed id tenant (a ∷ rest) h =
    ground (arith, Misses-others a.id id tenant rest, others-IsKeyed id tenant rest)

Misses-shelf_of-others :
    (j id tenant : ℕ) (table : List Artifact)
    → Misses j table
    → shelf_of (others id tenant table) j ≡ none
Misses-shelf_of-others j id tenant table h =
    shelf_of-Misses j (others id tenant table) (Misses-others j id tenant table h)

-- Deleting leaves every other key as it was, and the key too if the tenant may not know its row.
shelf_of-others :
    (id tenant j : ℕ) (table : List Artifact)
    → IsKeyed table
    → shelf_of (others id tenant table) j
      ≡ (if id == j && is_some (seen tenant (shelf_of table id)) then none else shelf_of table j)
unfolding shelf_of filter_artifacts
shelf_of-others id tenant j [] h = ground arith
shelf_of-others id tenant j (a ∷ rest) h = elim (Bool-cases (a.id == id)) [
  | inl here ↦
      let same : a.id ≡ id = ground arith in
      let gone : Misses id rest = subst (λ k. Misses k rest) same h.0 in
      ground (
        arith,
        shelf_of-others id tenant j rest h.1,
        shelf_of-Misses id rest gone,
        Misses-shelf_of-others id id tenant rest gone,
      )
  | inr later ↦ ground (arith, shelf_of-others id tenant j rest h.1)
]

-- A delete that found its row empties the entry.
pub shelf_of-deleted :
    (id tenant : ℕ) (table : List Artifact)
    → IsKeyed table
    → is_some (seen tenant (shelf_of table id)) ≡ true
    → shelf_of (others id tenant table) ≡ place (shelf_of table) id none
shelf_of-deleted id tenant table h found =
    fun_ext λ j. ground (arith, shelf_of-others id tenant j table h)

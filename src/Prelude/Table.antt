-- ===== src/Prelude/Table.antt =====
-- A Go map with string keys, as an association list, and predicates over lists.
use ragivka.Prelude.Tests.{if◌then◌else◌, Bool-cases, some-eq_some}
use Prim.Native.String.{String}
use mathlib.Core.Path.{◌≡◌, refl, subst}
use mathlib.Core.Bool.{Bool, true, false}
use mathlib.Core.Option.{Option, none, some}
use mathlib.Core.Logic.{◌⊎◌, inl, inr}
use mathlib.Core.List.{List, [], ◌∷◌, ◌++◌, map}
use native.Mathlib.Omega.{arith}
use text.Mathlib.Text.{◌==◌ as str_eq}
use text.Mathlib.TextEquality.{eq_iff}

module _ {ℓ} {V : Type ℓ} where
  -- m[k]
  unfoldable pub lookup : String → List (String × V) → Option V
  lookup key [] = none
  lookup key (entry ∷ table) = if str_eq entry.0 key then some entry.1 else lookup key table

  -- delete(m, k)
  unfoldable pub remove : String → List (String × V) → List (String × V)
  remove k [] = []
  remove k ((j, w) ∷ m) = let rest = remove k m in if str_eq j k then rest else (j, w) ∷ rest

  -- m[k] = v
  unfoldable pub insert : String → V → List (String × V) → List (String × V)
  insert key value [] = (key, value) ∷ []
  insert key value (entry ∷ table) =
      let later = insert key value table in
      if str_eq entry.0 key then (key, value) ∷ table else entry ∷ later

  -- What a write does to the read of any key.
  pub lookup-insert :
      (key sought : String) (value : V) (table : List (String × V))
      → lookup sought (insert key value table)
        ≡ (if str_eq key sought then some value else lookup sought table)
  unfolding lookup insert
  lookup-insert key sought value [] = refl
  lookup-insert key sought value (entry ∷ table) =
      let ih = lookup-insert key sought value table in
      elim (Bool-cases (str_eq entry.0 key)) [
        | inl here ↦
            rw here (ground (arith, eq_iff key sought, eq_iff entry.0 key, eq_iff entry.0 sought))
        | inr e ↦
            rw e (ground (arith, eq_iff key sought, eq_iff entry.0 key, eq_iff entry.0 sought, ih))
      ]

  pub lookup-remove :
      (k j : String) (m : List (String × V))
      → lookup j (remove k m) ≡ (if str_eq k j then none else lookup j m)
  unfolding lookup remove
  lookup-remove k j [] = ground arith
  lookup-remove k j ((i, w) ∷ m) =
      ground (arith, eq_iff k j, eq_iff i k, eq_iff i j, lookup-remove k j m)

-- A predicate of every element.
abbrev pub All {κ ℓ} : {A : Type κ} → (A → Type ℓ) → List A → Type ℓ
All Holds [] = Unit
All Holds (head ∷ tail) = Holds head × All Holds tail

abbrev pub is_some {ℓ} : {A : Type ℓ} → Option A → Bool
is_some none = false
is_some (some a) = true

-- Membership that computes to a choice of places.
abbrev pub In : {A : Type 0} → A → List A → Type 0
In a [] = ⊥
In a (x ∷ xs) = (a ≡ x) ⊎ In a xs

pub All-In : {A : Type 0} (P : A → Type 0) {a : A} (xs : List A) → All P xs → In a xs → P a
All-In P [] h m = absurd m
All-In P (x ∷ xs) h (inl e) = rw e h.0
All-In P (x ∷ xs) h (inr m) = All-In P xs h.1 m

pub All-of_In : {A : Type 0} (P : A → Type 0) (xs : List A) → ((a : A) → In a xs → P a) → All P xs
All-of_In P [] f = tt
All-of_In P (x ∷ xs) f = (f x (inl refl), All-of_In P xs (λ a m. f a (inr m)))

pub All-imp :
    {A : Type 0} {P Q : A → Type 0} → ((a : A) → P a → Q a) → (xs : List A) → All P xs → All Q xs
All-imp f [] h = tt
All-imp f (x ∷ xs) h = (f x h.0, All-imp f xs h.1)

pub All-map :
    {A B : Type 0} (Q : B → Type 0) (g : A → B) (xs : List A)
    → All (λ a. Q (g a)) xs
    → All Q (map g xs)
All-map Q g [] h = tt
All-map Q g (x ∷ xs) h = (h.0, All-map Q g xs h.1)

pub All-append_left : {A : Type 0} (P : A → Type 0) (xs ys : List A) → All P (xs ++ ys) → All P xs
All-append_left P [] ys h = tt
All-append_left P (x ∷ xs) ys h = (h.0, All-append_left P xs ys h.1)

-- What a map holds has the property of all its values.
pub lookup-All :
    {V : Type 0} (P : V → Type 0) (k : String) (v : V) (m : List (String × V))
    → All (λ e. P e.1) m
    → lookup k m ≡ some v
    → P v
unfolding lookup
lookup-All P k v [] h e = absurd (ground arith)
lookup-All P k v ((j, w) ∷ m) h e = elim (Bool-cases (str_eq j k)) [
  | inl here ↦ let same : some w ≡ some v = rw here at e in subst P (some-eq_some same) h.0
  | inr later ↦ lookup-All P k v m h.1 (rw later at e)
]

-- ===== src/Runtime/Messages/History.antt =====
-- What a conversation's history holds, and in which order (pkg/runtime/message_repo.go).
use mathlib.Core.Path.{subst}
use ragivka.Prelude.{
  ℕ, ◌≤◌, ◌≡◌, refl, ◌↔◌, ◌⊎◌, inl, inr, true, List, [], ◌∷◌, arith, sym, Bool, Bool-cases, ltb,
  All, In,
}
use ragivka.Runtime.Types.{Message}
use ragivka.Runtime.Messages.{filter_messages, insert_newest, newest_first}

abbrev pub NewestFirst : List Message → Type 0
NewestFirst [] = Unit
NewestFirst (m ∷ rest) = All (λ n. n.created_at ≤ m.created_at) rest × NewestFirst rest

All-insert_newest :
    (P : Message → Type 0) (m : Message) (rows : List Message)
    → P m
    → All P rows
    → All P (insert_newest m rows)
unfolding insert_newest
All-insert_newest P m [] pm h = (pm, tt)
All-insert_newest P m (n ∷ rest) pm h = elim (Bool-cases (ltb m.created_at n.created_at)) [
  | inl e ↦ rw e (h.0, All-insert_newest P m rest pm h.1)
  | inr e ↦ rw e (pm, h)
]

All-at_most :
    (a b : ℕ) (rows : List Message)
    → a ≤ b
    → All (λ n. n.created_at ≤ a) rows
    → All (λ n. n.created_at ≤ b) rows
All-at_most a b [] le h = tt
All-at_most a b (n ∷ rest) le h = (omega (arith, h.0), All-at_most a b rest le h.1)

insert_newest-NewestFirst :
    (m : Message) (rows : List Message) → NewestFirst rows → NewestFirst (insert_newest m rows)
unfolding insert_newest
insert_newest-NewestFirst m [] h = (tt, tt)
insert_newest-NewestFirst m (n ∷ rest) h = elim (Bool-cases (ltb m.created_at n.created_at)) [
  | inl e ↦ rw e (
    All-insert_newest (λ o. o.created_at ≤ n.created_at) m rest (ground arith) h.0,
    insert_newest-NewestFirst m rest h.1,
  )
  | inr e ↦
      let le : n.created_at ≤ m.created_at = ground arith in
      rw e ((le, All-at_most n.created_at m.created_at rest le h.0), h)
]

pub newest_first-NewestFirst : (rows : List Message) → NewestFirst (newest_first rows)
unfolding newest_first
newest_first-NewestFirst [] = tt
newest_first-NewestFirst (m ∷ rest) =
    insert_newest-NewestFirst m (newest_first rest) (newest_first-NewestFirst rest)

In-insert_newest :
    (a m : Message) (rows : List Message) → In a (insert_newest m rows) ↔ ((a ≡ m) ⊎ In a rows)
unfolding insert_newest
In-insert_newest a m [] = (λ h. h, λ h. h)
In-insert_newest a m (n ∷ rest) =
    let ih = In-insert_newest a m rest in
    elim (Bool-cases (ltb m.created_at n.created_at)) [
      | inl e ↦ rw e (
        λ h. elim h [
          | inl x ↦ inr (inl x)
          | inr y ↦ elim (ih.0 y) [ inl z ↦ inl z | inr z ↦ inr (inr z) ]
        ],
        λ h. elim h [
          | inl x ↦ inr (ih.1 (inl x))
          | inr y ↦ elim y [ inl z ↦ inl z | inr z ↦ inr (ih.1 (inr z)) ]
        ],
      )
      | inr e ↦ rw e (λ h. h, λ h. h)
    ]

pub In-newest_first : (a : Message) (rows : List Message) → In a (newest_first rows) ↔ In a rows
unfolding newest_first
In-newest_first a [] = (λ h. h, λ h. h)
In-newest_first a (m ∷ rest) =
    let here = In-insert_newest a m (newest_first rest) in
    let ih = In-newest_first a rest in
    (
      λ h. elim (here.0 h) [ inl x ↦ inl x | inr y ↦ inr (ih.0 y) ],
      λ h. here.1 (elim h [ inl x ↦ inl x | inr y ↦ inr (ih.1 y) ]),
    )

pub In-filter_messages :
    (p : Message → Bool) (a : Message) (rows : List Message)
    → In a (filter_messages p rows) ↔ (In a rows × (p a ≡ true))
unfolding filter_messages
In-filter_messages p a [] = (λ h. absurd h, λ h. absurd h.0)
In-filter_messages p a (m ∷ rest) =
    let ih = In-filter_messages p a rest in
    elim (Bool-cases (p m)) [
      | inl e ↦ rw e (
        λ h. elim h [
          | inl x ↦ (inl x, subst (λ q. p q ≡ true) (sym x) e)
          | inr y ↦ (inr (ih.0 y).0, (ih.0 y).1)
        ],
        λ h. elim h.0 [ inl x ↦ inl x | inr y ↦ inr (ih.1 (y, h.1)) ],
      )
      | inr e ↦ rw e (
        λ h. (inr (ih.0 h).0, (ih.0 h).1),
        λ h. elim h.0 [
          | inl x ↦ let same : p a ≡ p m = subst (λ q. p a ≡ p q) x refl in cc
          | inr y ↦ ih.1 (y, h.1)
        ],
      )
    ]

-- ===== src/Knowledge/Retrieval/Reranker/Best.antt =====
-- What the reranker of pkg/knowledge/retrieval/reranker.go keeps.
use mathlib.Core.Path.{subst}
use mathlib.Core.List.{Perm, append-nil}
use mathlib.Core.List.Perm
use ragivka.Prelude.{
  ℕ, suc, ◌≡◌, refl, sym, ◌∙◌, ap, true, false, ◌&&◌, String, List, [], ◌∷◌, ◌++◌, All, length,
  length-take, drop, take-append-drop, min, ltb, Bool-cases, inl, inr, arith, if◌then◌else◌,
}
use ragivka.Tools.Guards.{Floats}
use ragivka.Knowledge.Retrieval.{RankedChunk}
use ragivka.Knowledge.Retrieval.Reranker.{insert_best, best_first, cut, rerank}

-- What `<` on floats does where no score is NaN.
pub record IsRanking (floats : Floats) : Type 0 where
  pub asymmetric : (a b : floats.Float) → floats.less a b ≡ true → floats.less b a ≡ false
  pub negatively_transitive :
      (a b c : floats.Float)
      → floats.less a b ≡ false
      → floats.less b c ≡ false
      → floats.less a c ≡ false

module _ ⦃floats : Floats⦄ {A : Type 0} (key : A → floats.Float) where
  -- No later element has a larger key.
  abbrev pub Falling : List A → Type 0
  Falling [] = Unit
  Falling (a ∷ rest) = All (λ b. floats.less (key a) (key b) ≡ false) rest × Falling rest

  All-insert_best :
      (P : A → Type 0) (a : A) (xs : List A) → P a → All P xs → All P (insert_best key a xs)
  unfolding insert_best
  All-insert_best P a [] p h = (p, tt)
  All-insert_best P a (b ∷ rest) p h = elim (Bool-cases (floats.less (key a) (key b))) [
    | inl e ↦ rw e (h.0, All-insert_best P a rest p h.1)
    | inr e ↦ rw e (p, h)
  ]

  pub best_first-All : (P : A → Type 0) (xs : List A) → All P xs → All P (best_first key xs)
  unfolding best_first
  best_first-All P [] h = tt
  best_first-All P (a ∷ rest) h =
      All-insert_best P a (best_first key rest) h.0 (best_first-All P rest h.1)

  All-later :
      (r : IsRanking floats) (a b : A) (xs : List A)
      → floats.less (key a) (key b) ≡ false
      → All (λ c. floats.less (key b) (key c) ≡ false) xs
      → All (λ c. floats.less (key a) (key c) ≡ false) xs
  All-later r a b [] e h = tt
  All-later r a b (c ∷ rest) e h =
      (r.negatively_transitive (key a) (key b) (key c) e h.0, All-later r a b rest e h.1)

  insert_best-Falling :
      (r : IsRanking floats) (a : A) (xs : List A) → Falling xs → Falling (insert_best key a xs)
  unfolding insert_best
  insert_best-Falling r a [] h = (tt, tt)
  insert_best-Falling r a (b ∷ rest) h = elim (Bool-cases (floats.less (key a) (key b))) [
    | inl e ↦ rw e (
      All-insert_best (λ c. floats.less (key b) (key c) ≡ false) a rest
          (r.asymmetric (key a) (key b) e) h.0,
      insert_best-Falling r a rest h.1,
    )
    | inr e ↦ rw e ((e, All-later r a b rest e h.0), h)
  ]

  pub best_first-Falling : (r : IsRanking floats) (xs : List A) → Falling (best_first key xs)
  unfolding best_first
  best_first-Falling r [] = tt
  best_first-Falling r (a ∷ rest) =
      insert_best-Falling r a (best_first key rest) (best_first-Falling r rest)

  insert_best-perm : (a : A) (xs : List A) → Perm (insert_best key a xs) (a ∷ xs)
  unfolding insert_best
  insert_best-perm a [] = Perm.refl (a ∷ [])
  insert_best-perm a (b ∷ rest) = elim (Bool-cases (floats.less (key a) (key b))) [
    | inl e ↦ rw e (Perm.trans (Perm.cons b (insert_best-perm a rest)) (Perm.swap a b rest))
    | inr e ↦ rw e (Perm.refl (a ∷ b ∷ rest))
  ]

  pub best_first-perm : (xs : List A) → Perm (best_first key xs) xs
  unfolding best_first
  best_first-perm [] = Perm.refl []
  best_first-perm (a ∷ rest) =
      Perm.trans (insert_best-perm a (best_first key rest)) (Perm.cons a (best_first-perm rest))

  length-insert_best : (a : A) (xs : List A) → length (insert_best key a xs) ≡ suc (length xs)
  unfolding insert_best
  length-insert_best a [] = refl
  length-insert_best a (b ∷ rest) = ground (arith, length-insert_best a rest)

  pub length-best_first : (xs : List A) → length (best_first key xs) ≡ length xs
  unfolding best_first
  length-best_first [] = refl
  length-best_first (a ∷ rest) =
      length-insert_best a (best_first key rest) ∙ ap suc (length-best_first rest)

-- What a cut keeps and what it leaves.
pub cut-append :
    {A : Type 0} (top_k : ℕ) (xs : List A)
    → (rest : List A) × (cut top_k xs ++ rest ≡ xs)
      × (length (cut top_k xs) ≡ (if ltb 0 top_k then min top_k (length xs) else length xs))
unfolding cut
cut-append top_k xs = elim (Bool-cases (ltb 0 top_k && ltb top_k (length xs))) [
  | inl e ↦
      (drop top_k xs, rw e (take-append-drop top_k xs), rw e (ground (arith, length-take top_k xs)))
  | inr e ↦ ([], rw e (append-nil xs), rw e (ground arith))
]

-- If no score is NaN, the reranker keeps its candidates in an order of falling vector scores and
-- cuts that order off: with a positive topK it returns topK of them, or all if there are no more,
-- else all; none that it leaves out scores higher than one that it returns.
pub rerank-best :
    ⦃floats : Floats⦄
    → IsRanking floats
    → (query : String) (candidates : List RankedChunk) (top_k : ℕ)
    → (rest : List RankedChunk) × Perm (rerank query candidates top_k ++ rest) candidates
      × Falling (λ c. c.vec_score) (rerank query candidates top_k ++ rest)
      × (length (rerank query candidates top_k)
          ≡ (if ltb 0 top_k then min top_k (length candidates) else length candidates))
unfolding rerank
rerank-best r query candidates top_k =
    let sorted = best_first (λ c. c.vec_score) candidates in
    let (rest, whole, size) = cut-append top_k sorted in
    (
      rest,
      subst (λ l. Perm l candidates) (sym whole) (best_first-perm (λ c. c.vec_score) candidates),
      subst (Falling (λ c. c.vec_score)) (sym whole)
          (best_first-Falling (λ c. c.vec_score) r candidates),
      size
          ∙ ap (λ n. if ltb 0 top_k then min top_k n else n)
              (length-best_first (λ c. c.vec_score) candidates),
    )

-- ===== src/Channel/Broadcaster/Delivery.antt =====
-- The states of pkg/channel/web/broadcaster.go, one by one: which are sound, and which are reached.
use ragivka.Prelude.{
  ℕ, suc, ◌<◌, ◌≤◌, ◌≡◌, refl, inl, inr, true, false, String, List, [], ◌∷◌, length, length-append,
  arith, Bool-cases, All, ltb, ◌==◌,
}
use ragivka.Errors.{ok}
use ragivka.Channel.Broadcaster.{
  MemoryBroadcaster, new_memory_broadcaster, buffer_size, is_closed, subscribes, any_closed, offer,
  publish, subscribe, cancel,
}

-- The subscribed channels were made, are open, and no two subscriptions share one.
abbrev pub IsOpen : ℕ → List ℕ → (ℕ × ℕ) → Type 0
IsOpen made closed sub = (sub.1 < made) × (is_closed closed sub.1 ≡ false)

abbrev pub Apart : List (ℕ × ℕ) → Type 0
Apart [] = Unit
Apart (sub ∷ rest) = All (λ other. (other.1 == sub.1) ≡ false) rest × Apart rest

abbrev pub IsSound : MemoryBroadcaster → Type 0
IsSound b =
    All (IsOpen b.made b.closed) b.subs
    × Apart b.subs
    × All (λ c. c < b.made) b.closed
    × ((c : ℕ) → length (b.buffers c) ≤ buffer_size)

-- The operations in any order; a cancel is that of a subscription that is there.
pub data Reachable : MemoryBroadcaster → Type 0 where
  fresh : Reachable new_memory_broadcaster
  published :
      {b b' : MemoryBroadcaster} (session : ℕ) (msg : String)
      → Reachable b
      → publish session msg b ≡ ok b'
      → Reachable b'
  subscribed : {b : MemoryBroadcaster} (session : ℕ) → Reachable b → Reachable (subscribe session b)
  cancelled :
      {b b' : MemoryBroadcaster} (session c : ℕ)
      → Reachable b
      → subscribes session c b.subs ≡ true
      → cancel session c b ≡ ok b'
      → Reachable b'

pub open-any_closed :
    (session made : ℕ) (closed : List ℕ) (subs : List (ℕ × ℕ))
    → All (IsOpen made closed) subs
    → any_closed session closed subs ≡ false
unfolding any_closed
open-any_closed session made closed [] h = refl
open-any_closed session made closed (sub ∷ rest) h =
    let ih = open-any_closed session made closed rest h.1 in let here = h.0.1 in ground arith

pub offer-bound :
    (msg : String) (buffer : List String)
    → length buffer ≤ buffer_size
    → length (offer msg buffer) ≤ buffer_size
unfolding offer
offer-bound msg buffer h = elim (Bool-cases (ltb (length buffer) buffer_size)) [
  | inl e ↦ rw e (omega (arith, length-append buffer (msg ∷ []), lt e))
  | inr e ↦ rw e h
]
  where
    lt : ltb (length buffer) buffer_size ≡ true → length buffer < buffer_size
    lt e = ground arith

pub weaken_made :
    (made : ℕ) (closed : List ℕ) (subs : List (ℕ × ℕ))
    → All (IsOpen made closed) subs
    → All (IsOpen (suc made) closed) subs
weaken_made made closed [] h = tt
weaken_made made closed (sub ∷ rest) h =
    ((omega (arith, h.0.0), h.0.1), weaken_made made closed rest h.1)

pub old_below :
    (made : ℕ) (closed : List ℕ) → All (λ c. c < made) closed → All (λ c. c < suc made) closed
old_below made [] h = tt
old_below made (c ∷ rest) h = (omega (arith, h.0), old_below made rest h.1)

pub not_yet_closed :
    (made : ℕ) (closed : List ℕ) → All (λ c. c < made) closed → is_closed closed made ≡ false
unfolding is_closed
not_yet_closed made [] h = refl
not_yet_closed made (c ∷ rest) h =
    let ih = not_yet_closed made rest h.1 in let here = h.0 in ground arith

pub none_has_made :
    (made : ℕ) (closed : List ℕ) (subs : List (ℕ × ℕ))
    → All (IsOpen made closed) subs
    → All (λ other. (other.1 == made) ≡ false) subs
none_has_made made closed [] h = tt
none_has_made made closed (sub ∷ rest) h =
    let here = h.0.0 in (ground arith, none_has_made made closed rest h.1)

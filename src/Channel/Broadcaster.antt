-- ===== src/Channel/Broadcaster.antt =====
-- pkg/channel/web/broadcaster.go: subscribers of sessions, each with a buffered channel. The mutex
-- makes each operation one step.
pub mod Delivery
pub mod Sound
mod Tests
use ragivka.Prelude.{
  ℕ, suc, Bool, true, false, ◌&&◌, ◌||◌, String, List, [], ◌∷◌, ◌++◌, length, ltb, ◌==◌,
  if◌then◌else◌,
}
use ragivka.Errors.{Result, ok, panic}

-- A channel is the number of the `make` that made it.
pub record MemoryBroadcaster : Type 0 where
  -- The sessions with their channels.
  pub subs : List (ℕ × ℕ)
  pub buffers : ℕ → List String
  pub closed : List ℕ
  pub made : ℕ

pub new_memory_broadcaster : MemoryBroadcaster
new_memory_broadcaster = record { subs = []; buffers = λ c. []; closed = []; made = 0 }

abbrev pub buffer_size : ℕ
buffer_size = 16

pub is_closed : List ℕ → ℕ → Bool
is_closed [] c = false
is_closed (d ∷ rest) c = d == c || is_closed rest c

pub subscribes : ℕ → ℕ → List (ℕ × ℕ) → Bool
subscribes session c [] = false
subscribes session c (sub ∷ rest) = (sub.0 == session && sub.1 == c) || subscribes session c rest

-- A send on a closed channel panics, in a select too.
pub any_closed : ℕ → List ℕ → List (ℕ × ℕ) → Bool
unfolding is_closed
any_closed session closed [] = false
any_closed session closed (sub ∷ rest) =
    (sub.0 == session && is_closed closed sub.1) || any_closed session closed rest

-- select { case ch <- msg: default: }
pub offer : String → List String → List String
offer msg buffer = if ltb (length buffer) buffer_size then buffer ++ msg ∷ [] else buffer

pub publish : ℕ → String → MemoryBroadcaster → Result MemoryBroadcaster
unfolding any_closed subscribes offer
publish session msg b =
    if any_closed session b.closed b.subs
    then panic "send on closed channel"
    else ok (record b {
      buffers = λ c. if subscribes session c b.subs then offer msg (b.buffers c) else b.buffers c;
    })

-- The channel of the new subscription is `made`.
pub subscribe : ℕ → MemoryBroadcaster → MemoryBroadcaster
subscribe session b = record b { subs = (session, b.made) ∷ b.subs; made = suc b.made }

pub without : ℕ → ℕ → List (ℕ × ℕ) → List (ℕ × ℕ)
without session c [] = []
without session c (sub ∷ rest) =
    let others = without session c rest in
    if sub.0 == session && sub.1 == c then others else sub ∷ others

-- The cancel function of a subscription.
pub cancel : ℕ → ℕ → MemoryBroadcaster → Result MemoryBroadcaster
unfolding without is_closed
cancel session c b =
    if is_closed b.closed c
    then panic "close of closed channel"
    else ok (record b { subs = without session c b.subs; closed = c ∷ b.closed })

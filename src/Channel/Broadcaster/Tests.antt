-- ===== src/Channel/Broadcaster/Tests.antt =====
-- Two subscribers of two sessions.
use ragivka.Prelude.{ℕ, ◌≡◌, ◌≤◌, ◌<◌, refl, true, false, [], ◌∷◌, ◌++◌, length}
use ragivka.Errors.{ok}
use ragivka.Channel.Broadcaster.{
  MemoryBroadcaster, new_memory_broadcaster, buffer_size, subscribes, is_closed, publish, subscribe,
  without, cancel,
}
use ragivka.Channel.Broadcaster.Delivery.{Reachable, fresh, subscribed}
use ragivka.Channel.Broadcaster.Sound.{publish-delivers}

abbrev two : MemoryBroadcaster
two = subscribe 8 (subscribe 7 new_memory_broadcaster)

reached : Reachable two
reached = subscribed 8 (subscribed 7 fresh)

publish-delivers_example :
    (b' : MemoryBroadcaster) × (publish 7 "hi" two ≡ ok b')
    × ((c : ℕ)
        → (length (b'.buffers c) ≤ buffer_size)
          × (subscribes 7 c two.subs ≡ true
              → length (two.buffers c) < buffer_size
              → b'.buffers c ≡ (two.buffers c ++ "hi" ∷ []))
          × (subscribes 7 c two.subs ≡ false → b'.buffers c ≡ two.buffers c))
publish-delivers_example = publish-delivers 7 "hi" reached

abbrev one_left : MemoryBroadcaster
one_left = record two { subs = without 7 0 two.subs; closed = 0 ∷ [] }

is_there : subscribes 7 0 two.subs ≡ true
unfolding subscribe new_memory_broadcaster subscribes
is_there = refl

closing : cancel 7 0 two ≡ ok one_left
unfolding subscribe new_memory_broadcaster cancel is_closed
closing = refl

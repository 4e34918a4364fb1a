-- ===== src/Channel/Broadcaster/Sound.antt =====
-- The states of pkg/channel/web/broadcaster.go that the operations reach.
use ragivka.Prelude.{
  if◌then◌else◌, ℕ, ◌<◌, ◌≤◌, ◌≡◌, refl, true, false, ◌&&◌, String, List, [], ◌∷◌, ◌++◌, length,
  arith, Bool-cases, inl, inr, All, ltb, ◌==◌, sym, ◌∙◌,
}
use mathlib.Core.Path.{subst}
use ragivka.Errors.{ok, panic, ok-injective}
use ragivka.Channel.Broadcaster.{
  MemoryBroadcaster, new_memory_broadcaster, buffer_size, is_closed, subscribes, offer, publish,
  subscribe, without, cancel,
}
use ragivka.Channel.Broadcaster.Delivery.{
  IsOpen, Apart, IsSound, Reachable, fresh, published, subscribed, cancelled, open-any_closed,
  offer-bound, weaken_made, old_below, not_yet_closed, none_has_made,
}

All-without :
    (P : ℕ × ℕ → Type 0) (session c : ℕ) (subs : List (ℕ × ℕ))
    → All P subs
    → All P (without session c subs)
unfolding without
All-without P session c [] h = tt
All-without P session c (sub ∷ rest) h = elim (Bool-cases (sub.0 == session && sub.1 == c)) [
  | inl e ↦ rw e (All-without P session c rest h.1)
  | inr e ↦ rw e (h.0, All-without P session c rest h.1)
]

Apart-without : (session c : ℕ) (subs : List (ℕ × ℕ)) → Apart subs → Apart (without session c subs)
unfolding without
Apart-without session c [] h = tt
Apart-without session c (sub ∷ rest) h = elim (Bool-cases (sub.0 == session && sub.1 == c)) [
  | inl e ↦ rw e (Apart-without session c rest h.1)
  | inr e ↦ rw e (
    All-without (λ other. (other.1 == sub.1) ≡ false) session c rest h.0,
    Apart-without session c rest h.1,
  )
]

differs_from :
    (session c d : ℕ) (subs : List (ℕ × ℕ))
    → subscribes session c subs ≡ true
    → All (λ other. (other.1 == d) ≡ false) subs
    → (d == c) ≡ false
unfolding subscribes
differs_from session c d [] h apart = absurd (ground arith)
differs_from session c d (sub ∷ rest) h apart = elim (Bool-cases (sub.0 == session && sub.1 == c)) [
  | inl e ↦ let here = apart.0 in ground arith
  | inr e ↦ differs_from session c d rest (rw e at h) apart.1
]

-- No other subscription has the channel of the one that is removed.
no_other_has :
    (session c : ℕ) (subs : List (ℕ × ℕ))
    → Apart subs
    → subscribes session c subs ≡ true
    → All (λ other. (other.1 == c) ≡ false) (without session c subs)
unfolding subscribes without
no_other_has session c [] apart h = tt
no_other_has session c (sub ∷ rest) apart h = elim (Bool-cases (sub.0 == session && sub.1 == c)) [
  | inl e ↦
      let same : sub.1 ≡ c = ground arith in
      rw e (
        All-without (λ other. (other.1 == c) ≡ false) session c rest
          (subst (λ d. All (λ other. (other.1 == d) ≡ false) rest) same apart.0))
  | inr e ↦
      let later : subscribes session c rest ≡ true = rw e at h in
      rw e
        (differs_from session c sub.1 rest later apart.0, no_other_has session c rest apart.1 later)
]

IsOpen-closed :
    (made c : ℕ) (closed : List ℕ) (subs : List (ℕ × ℕ))
    → All (IsOpen made closed) subs
    → All (λ other. (other.1 == c) ≡ false) subs
    → All (IsOpen made (c ∷ closed)) subs
unfolding is_closed
IsOpen-closed made c closed [] h apart = tt
IsOpen-closed made c closed (sub ∷ rest) h apart =
    let shut = h.0.1 in
    let other = apart.0 in ((h.0.0, ground arith), IsOpen-closed made c closed rest h.1 apart.1)

subscribed_made :
    (session c made : ℕ) (closed : List ℕ) (subs : List (ℕ × ℕ))
    → subscribes session c subs ≡ true
    → All (IsOpen made closed) subs
    → IsOpen made closed (session, c)
unfolding subscribes
subscribed_made session c made closed [] h all = absurd (ground arith)
subscribed_made session c made closed (sub ∷ rest) h all =
    elim (Bool-cases (sub.0 == session && sub.1 == c)) [
      | inl e ↦
          let same : sub.1 ≡ c = ground arith in
          subst (λ d. IsOpen made closed (session, d)) same all.0
      | inr e ↦ subscribed_made session c made closed rest (rw e at h) all.1
    ]

publish-ok :
    (session : ℕ) (msg : String) (b : MemoryBroadcaster)
    → IsSound b
    → publish session msg b
      ≡ ok (record b {
        buffers = λ c. if subscribes session c b.subs then offer msg (b.buffers c) else b.buffers c;
      })
unfolding publish
publish-ok session msg b sound = rw (open-any_closed session b.made b.closed b.subs sound.0) refl

cancel-ok :
    (session c : ℕ) (b : MemoryBroadcaster)
    → IsSound b
    → subscribes session c b.subs ≡ true
    → cancel session c b ≡ ok (record b { subs = without session c b.subs; closed = c ∷ b.closed })
unfolding cancel
cancel-ok session c b sound h =
    rw (subscribed_made session c b.made b.closed b.subs h sound.0).1 refl

buffers-bound :
    (session : ℕ) (msg : String) (b : MemoryBroadcaster) (c : ℕ)
    → IsSound b
    → length (if subscribes session c b.subs then offer msg (b.buffers c) else b.buffers c)
      ≤ buffer_size
buffers-bound session msg b c sound = elim (Bool-cases (subscribes session c b.subs)) [
  | inl e ↦ rw e (offer-bound msg (b.buffers c) (sound.3 c))
  | inr e ↦ rw e (sound.3 c)
]

pub Reachable-IsSound : {b : MemoryBroadcaster} → Reachable b → IsSound b
unfolding new_memory_broadcaster subscribe
Reachable-IsSound fresh = (tt, tt, tt, λ c. omega arith)
Reachable-IsSound (published {b} {b'} session msg r e) =
    let sound = Reachable-IsSound r in
    let same = ok-injective (sym (publish-ok session msg b sound) ∙ e) in
    subst IsSound same (sound.0, sound.1, sound.2, λ c. buffers-bound session msg b c sound)
Reachable-IsSound (subscribed {b} session r) =
    let sound = Reachable-IsSound r in
    (
      (
        (omega arith, not_yet_closed b.made b.closed sound.2),
        weaken_made b.made b.closed b.subs sound.0,
      ),
      (none_has_made b.made b.closed b.subs sound.0, sound.1),
      old_below b.made b.closed sound.2,
      sound.3,
    )
Reachable-IsSound (cancelled {b} {b'} session c r h e) =
    let sound = Reachable-IsSound r in
    let same = ok-injective (sym (cancel-ok session c b sound h) ∙ e) in
    subst IsSound same (
      IsOpen-closed b.made c b.closed (without session c b.subs)
          (All-without (IsOpen b.made b.closed) session c b.subs sound.0)
          (no_other_has session c b.subs sound.1 h),
      Apart-without session c b.subs sound.1,
      ((subscribed_made session c b.made b.closed b.subs h sound.0).0, sound.2),
      sound.3,
    )

-- In every state that the operations reach, with each subscription cancelled at most once, Publish
-- does not panic: a subscriber of the session with room in its buffer gets the message last, every
-- other channel is as it was, and no buffer holds more than 16.
pub publish-delivers :
    {b : MemoryBroadcaster} (session : ℕ) (msg : String)
    → Reachable b
    → (b' : MemoryBroadcaster) × (publish session msg b ≡ ok b')
      × ((c : ℕ)
          → (length (b'.buffers c) ≤ buffer_size)
            × (subscribes session c b.subs ≡ true
                → length (b.buffers c) < buffer_size
                → b'.buffers c ≡ (b.buffers c ++ msg ∷ []))
            × (subscribes session c b.subs ≡ false → b'.buffers c ≡ b.buffers c))
unfolding offer
publish-delivers {b} session msg r =
    let sound = Reachable-IsSound r in
    (
      record b {
        buffers = λ c. if subscribes session c b.subs then offer msg (b.buffers c) else b.buffers c;
      },
      publish-ok session msg b sound,
      λ c. (
        buffers-bound session msg b c sound,
        λ e room.
            let fits : ltb (length (b.buffers c)) buffer_size ≡ true = ground arith in
            rw (e, fits) refl,
        λ e. rw e refl,
      ),
    )

-- A second call of a subscription's cancel panics, in every state that the operations reach.
pub cancel_twice :
    {b b' : MemoryBroadcaster} (session c : ℕ)
    → Reachable b
    → subscribes session c b.subs ≡ true
    → cancel session c b ≡ ok b'
    → cancel session c b' ≡ panic "close of closed channel"
unfolding cancel is_closed
cancel_twice {b} {b'} session c r h e =
    let same = ok-injective (sym (cancel-ok session c b (Reachable-IsSound r) h) ∙ e) in
    subst (λ q. cancel session c q ≡ panic "close of closed channel") same (ground arith)

-- ===== src/Runtime/Messages/Tenants.antt =====
-- What the INSERT of pkg/runtime/message_repo.go leaves of other tenants.
use ragivka.Prelude.{ℕ, ◌≡◌, ◌≢◌, refl, Bool, Bool-cases, inl, inr, List, ◌∷◌, arith, ◌==◌}
use ragivka.Errors.{ok}
use ragivka.Tenant.{Ctx, Uuid, tenant_id_from_ctx}
use ragivka.Runtime.Types.{Message}
use ragivka.Runtime.Messages.{
  create_message, insert_message, accepts_message, filled_message, filter_messages,
}
use ragivka.World.{World}
use ragivka.World.Keeps.{Keeps, statement-Keeps}

abbrev pub messages_of : ℕ → List Message → List Message
messages_of t = filter_messages (λ m. m.tenant_id == t)

-- A message of one tenant is none of another's.
pub messages_of-cons :
    (t : ℕ) (m : Message) (table : List Message)
    → m.tenant_id ≢ t
    → messages_of t (m ∷ table) ≡ messages_of t table
unfolding filter_messages
messages_of-cons t m table h = ground arith

module _ {S : Type 0} (view : World → S) (tenant : ℕ)
    (blind : (w : World) (fs : List Bool) → view (record w { faults = fs }) ≡ view w)
    (own : (w : World) (m : Message)
      → m.tenant_id ≡ tenant
      → view (record w { messages = m ∷ w.messages }) ≡ view w) where
  insert_message_own-Keeps : (m : Message) → m.tenant_id ≡ tenant → Keeps view (insert_message m)
  unfolding insert_message
  insert_message_own-Keeps m mine w = elim (Bool-cases (accepts_message w m)) [
    | inr bad ↦ rw bad refl
    | inl good ↦ rw good (own w _ mine)
  ]

  pub create_message_own-Keeps :
      ⦃uuid : Uuid⦄ (ctx : Ctx) (fresh : ℕ) (m : Message)
      → tenant_id_from_ctx ctx ≡ ok tenant
      → Keeps view (create_message ctx fresh m)
  unfolding create_message
  create_message_own-Keeps ctx fresh m et w = rw et (
      statement-Keeps view (insert_message (filled_message tenant fresh m)) blind
        (insert_message_own-Keeps (filled_message tenant fresh m) refl) w)

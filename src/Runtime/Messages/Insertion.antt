-- ===== src/Runtime/Messages/Insertion.antt =====
-- What the INSERT and the listing of pkg/runtime/message_repo.go leave as it was.
use ragivka.Prelude.{ℕ, ◌≡◌, ◌≢◌, refl, sym, List, ◌∷◌, Bool, Bool-cases, inl, inr, ℤ}
use ragivka.Errors.{ok, ok-injective, failed}
use ragivka.Tenant.{Ctx, Uuid, tenant_id_from_ctx}
use ragivka.Runtime.Types.{Message}
use ragivka.Runtime.Messages.{
  filled_message, insert_message, accepts_message, create_message, list_for_session,
}
use ragivka.World.{World, lift}
use ragivka.World.Keeps.{Keeps, >>=-Keeps, statement-Keeps}
use ragivka.World.Laws.{statement-cases}

insert_message-Keeps :
    {S : Type 0} (view : World → S) (row : Message)
    → ((w : World) (ms : List Message) → view (record w { messages = ms }) ≡ view w)
    → Keeps view (insert_message row)
unfolding insert_message
insert_message-Keeps view row apart w = elim (Bool-cases (accepts_message w row)) [
  | inl e ↦ rw e (apart w _)
  | inr e ↦ rw e refl
]

module _ ⦃uuid : Uuid⦄ (ctx : Ctx) where
  module _ {S : Type 0} (view : World → S)
      (blind : (w : World) (fs : List Bool) → view (record w { faults = fs }) ≡ view w) where
    -- An INSERT leaves everything but the messages and the schedule of failures.
    pub create_message-Keeps :
        (fresh : ℕ) (row : Message)
        → ((w : World) (ms : List Message) → view (record w { messages = ms }) ≡ view w)
        → Keeps view (create_message ctx fresh row)
    unfolding create_message
    create_message-Keeps fresh row apart =
        >>=-Keeps view (lift (tenant_id_from_ctx ctx)) _ (λ w. refl)
          λ tenant.
            statement-Keeps view (insert_message (filled_message tenant fresh row)) blind
              (insert_message-Keeps view (filled_message tenant fresh row) apart)

    pub list_for_session-Keeps :
        (session : ℕ) (max_tokens : ℤ) → Keeps view (list_for_session ctx session max_tokens)
    unfolding list_for_session
    list_for_session-Keeps session max_tokens =
        >>=-Keeps view (lift (tenant_id_from_ctx ctx)) _ (λ w. refl)
          λ tenant. statement-Keeps view _ blind (λ w. refl)

  -- The stored row is the caller's, with the tenant of the context and the time of the INSERT.
  pub create_message-inserted :
      (fresh tenant : ℕ) (row n : Message) (w : World)
      → tenant_id_from_ctx ctx ≡ ok tenant
      → (create_message ctx fresh row w).0 ≡ ok n
      → (n ≡ filled_message tenant fresh row)
        × ((create_message ctx fresh row w).1.messages
            ≡ (record n { created_at = w.now } ∷ w.messages))
  unfolding create_message insert_message
  create_message-inserted fresh tenant row n w et h = rw et (
      statement-cases (insert_message (filled_message tenant fresh row)) w
        (λ out.
          out.0 ≡ ok n
          → (n ≡ filled_message tenant fresh row)
            × (out.1.messages ≡ (record n { created_at = w.now } ∷ w.messages)))
        (λ fs e.
          elim (Bool-cases
            (accepts_message (record w { faults = fs }) (filled_message tenant fresh row))) [
              | inl good ↦
                  let same : n ≡ filled_message tenant fresh row =
                    sym (ok-injective (rw good at e)) in
                  rw good (same, rw same refl)
              | inr bad ↦ absurd (failed (rw bad at e))
            ])
        (λ fs e. absurd (failed e)) (rw et at h))

  -- An INSERT that fails stores nothing.
  pub create_message-refused :
      (fresh tenant : ℕ) (row : Message) (w : World)
      → tenant_id_from_ctx ctx ≡ ok tenant
      → ((n : Message) → (create_message ctx fresh row w).0 ≢ ok n)
      → (create_message ctx fresh row w).1.messages ≡ w.messages
  unfolding create_message insert_message
  create_message-refused fresh tenant row w et h = rw et (
      statement-cases (insert_message (filled_message tenant fresh row)) w
        (λ out. ((n : Message) → out.0 ≢ ok n) → out.1.messages ≡ w.messages)
        (λ fs none_ok.
          elim (Bool-cases
            (accepts_message (record w { faults = fs }) (filled_message tenant fresh row))) [
              | inl good ↦ absurd (none_ok (filled_message tenant fresh row) (rw good refl))
              | inr bad ↦ rw bad refl
            ])
        (λ fs none_ok. refl) (rw et at h))

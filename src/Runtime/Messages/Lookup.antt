-- ===== src/Runtime/Messages/Lookup.antt =====
-- The INSERT and the lookup by job of pkg/runtime/message_repo.go.
use ragivka.Prelude.{
  ℕ, ◌≡◌, refl, ◌⊎◌, inl, inr, true, Option, some, none, is_some, arith, Option-cases, List,
  Bool-cases, Bool, false, ap,
}
use ragivka.Errors.{ok, err, other, failed}
use ragivka.Tenant.{Ctx, Uuid, tenant_id_from_ctx}
use ragivka.Runtime.Types.{Message}
use ragivka.Runtime.Messages.{
  find_message, from_job, filled_message, insert_message, accepts_message, create_message,
  message_or_not_found, get_by_job_id,
}
use ragivka.World.{World, lift}
use ragivka.World.Keeps.{Keeps, >>=-Keeps, statement-Keeps}
use ragivka.World.Laws.{statement-cases}

-- The job has left a message.
abbrev pub IsAnswered : ℕ → ℕ → List Message → Type 0
IsAnswered job tenant table = is_some (find_message (from_job job tenant) table) ≡ true

message_or_not_found-same : (row : Option Message) (w : World) → (message_or_not_found row w).1 ≡ w
unfolding message_or_not_found
message_or_not_found-same none w = refl
message_or_not_found-same (some m) w = refl

module _ ⦃uuid : Uuid⦄ (ctx : Ctx) where
  -- The lookup changes nothing but the schedule of failures.
  pub get_by_job_id-Keeps :
      {S : Type 0} (view : World → S) (job : ℕ)
      → ((w : World) (fs : List Bool) → view (record w { faults = fs }) ≡ view w)
      → Keeps view (get_by_job_id ctx job)
  unfolding get_by_job_id
  get_by_job_id-Keeps view job blind =
      >>=-Keeps view (lift (tenant_id_from_ctx ctx)) _ (λ w. refl)
        λ tenant.
          statement-Keeps view _ blind λ w.
            ap view (message_or_not_found-same (find_message (from_job job tenant) w.messages) w)

  pub get_by_job_id-found :
      (job tenant : ℕ) (w : World) {m : Message}
      → tenant_id_from_ctx ctx ≡ ok tenant
      → (get_by_job_id ctx job w).0 ≡ ok m
      → IsAnswered job tenant w.messages
  unfolding get_by_job_id message_or_not_found
  get_by_job_id-found job tenant w {m} et h =
      statement-cases (λ u. message_or_not_found (find_message (from_job job tenant) u.messages) u)
        w (λ out. out.0 ≡ ok m → IsAnswered job tenant w.messages)
        (λ fs e. elim (Option-cases (find_message (from_job job tenant) w.messages)) [
          | inl gone ↦ absurd (failed (rw gone at e))
          | inr (n, found) ↦ rw found refl
        ])
        (λ fs e. absurd (failed e)) (rw et at h)

  pub get_by_job_id-answered :
      (job tenant : ℕ) (w : World)
      → tenant_id_from_ctx ctx ≡ ok tenant
      → IsAnswered job tenant w.messages
      → ((m : Message) × ((get_by_job_id ctx job w).0 ≡ ok m))
        ⊎ ((get_by_job_id ctx job w).0 ≡ err (other "database error"))
  unfolding get_by_job_id message_or_not_found
  get_by_job_id-answered job tenant w et h = rw et (
      statement-cases (λ u. message_or_not_found (find_message (from_job job tenant) u.messages) u)
        w (λ out. ((m : Message) × (out.0 ≡ ok m)) ⊎ (out.0 ≡ err (other "database error")))
        (λ fs. elim (Option-cases (find_message (from_job job tenant) w.messages)) [
          | inl gone ↦ absurd (let never : ◌≡◌ false true = rw gone at h in ground arith)
          | inr (n, found) ↦ rw found (inl (n, refl))
        ])
        (λ fs. inr refl))

  -- A message that was created under a job's id answers the job.
  pub create_message-answers :
      (fresh job tenant : ℕ) (row n : Message) (w : World)
      → tenant_id_from_ctx ctx ≡ ok tenant
      → row.job_id ≡ some job
      → (create_message ctx fresh row w).0 ≡ ok n
      → IsAnswered job tenant (create_message ctx fresh row w).1.messages
  unfolding create_message insert_message find_message
  create_message-answers fresh job tenant row n w et ej h = rw et (
      statement-cases (insert_message (filled_message tenant fresh row)) w
        (λ out. out.0 ≡ ok n → IsAnswered job tenant out.1.messages)
        (λ fs e.
          elim (Bool-cases
            (accepts_message (record w { faults = fs }) (filled_message tenant fresh row))) [
              | inl good ↦ rw good (rw ej (ground arith))
              | inr gone ↦ absurd (failed (rw gone at e))
            ])
        (λ fs e. absurd (failed e)) (rw et at h))

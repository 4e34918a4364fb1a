-- ===== src/Runtime/Messages/Listing.antt =====
-- What ListForSession of pkg/runtime/message_repo.go returns.
use ragivka.Prelude.{ℕ, ◌≤◌, ◌≡◌, ◌↔◌, true, List, ◌++◌, reverse, arith, ℤ, is_positive, to_nat, In}
use ragivka.Errors.{ok, Result-Cases, Cases}
use ragivka.Tenant.{Ctx, Uuid, tenant_id_from_ctx}
use ragivka.Runtime.Types.{Message}
use ragivka.Runtime.Messages.{filter_messages, newest_first, windowed, in_session, list_for_session}
use ragivka.Runtime.Messages.Window.{total_cost, Overflows, windowed-Split}
use ragivka.Runtime.Messages.History.{
  NewestFirst, newest_first-NewestFirst, In-newest_first, In-filter_messages,
}
use ragivka.World.{World}
use ragivka.World.Laws.{statement-cases, err-ne-ok, panic-ne-ok}

-- The rows of a session, the newest first.
abbrev pub history : ℕ → ℕ → List Message → List Message
history session tenant table = newest_first (filter_messages (in_session session tenant) table)

pub In-history :
    (session tenant : ℕ) (table : List Message) (m : Message)
    → In m (history session tenant table) ↔ (In m table × (in_session session tenant m ≡ true))
In-history session tenant table m =
    let sorted = In-newest_first m (filter_messages (in_session session tenant) table) in
    let kept = In-filter_messages (in_session session tenant) m table in
    (λ h. kept.0 (sorted.0 h), λ h. sorted.1 (kept.1 h))

module _ ⦃uuid : Uuid⦄ (ctx : Ctx) (session : ℕ) (max_tokens : ℤ) (w : World) where
  pub list_for_session-ok :
      {l : List Message} {v : World}
      → list_for_session ctx session max_tokens w ≡ (ok l, v)
      → (tenant : ℕ) × (tenant_id_from_ctx ctx ≡ ok tenant)
        × (l ≡ reverse (windowed max_tokens (history session tenant w.messages)))
  unfolding list_for_session
  list_for_session-ok {l} {v} h = elim (Result-Cases (tenant_id_from_ctx ctx)) [
    | Cases.is_ok t et ↦
        let rows = reverse (windowed max_tokens (history session t w.messages)) in
        statement-cases
          (λ u. (ok (reverse (windowed max_tokens (history session t u.messages))), u)) w
          (λ out.
            out ≡ (ok l, v)
            → (tenant : ℕ) × (tenant_id_from_ctx ctx ≡ ok tenant)
              × (l ≡ reverse (windowed max_tokens (history session tenant w.messages))))
          (λ fs e. (t, et, ground arith)) (λ fs e. err-ne-ok e) (rw et at h)
    | Cases.is_err e et ↦ err-ne-ok (rw et at h)
    | Cases.is_panic p et ↦ panic-ne-ok (rw et at h)
  ]

  -- If ListForSession returns messages under a positive limit, then they are the newest part of
  -- the session's history, in chronological order: the history, from the newest message back, is
  -- the returned messages reversed and then the older ones, it holds the session's and tenant's
  -- rows and no others, and the limit covers the returned messages but not the next older one.
  pub list_for_session-Window :
      {l : List Message} {v : World}
      → list_for_session ctx session max_tokens w ≡ (ok l, v)
      → is_positive max_tokens ≡ true
      → (tenant : ℕ) × (recent : List Message) × (older : List Message) × (tenant_id_from_ctx ctx
          ≡ ok tenant)
        × (l ≡ reverse recent)
        × NewestFirst (recent ++ older)
        × ((m : Message)
            → In m (recent ++ older) ↔ (In m w.messages × (in_session session tenant m ≡ true)))
        × (total_cost recent ≤ to_nat max_tokens)
        × Overflows (to_nat max_tokens) (total_cost recent) older
  list_for_session-Window h limited =
      let (tenant, et, e) = list_for_session-ok h in
      let rows = history session tenant w.messages in
      let (older, split, fits, over) = windowed-Split max_tokens rows limited in
      (
        tenant,
        windowed max_tokens rows,
        older,
        et,
        e,
        rw split
            (newest_first-NewestFirst (filter_messages (in_session session tenant) w.messages)),
        λ m. rw split (In-history session tenant w.messages m),
        fits,
        over,
      )

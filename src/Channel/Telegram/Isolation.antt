-- ===== src/Channel/Telegram/Isolation.antt =====
-- What the webhook of pkg/channel/telegram/handler.go leaves of the other tenants.
use ragivka.Prelude.{
  ℕ, ◌+◌, ◌≡◌, ◌≢◌, refl, sym, ◌∙◌, ap, Bool-cases, inl, inr, Option, some, none, Option-cases,
  reverse, String, str_eq, not, ◌||◌, ℤ, pos,
}
use ragivka.Errors.{Result, ok, err, panic, is, not_found, ok-injective}
use ragivka.Tenant.{
  Ctx, Uuid, with_tenant_id, tenant_id_from_ctx, tenant_id_from_ctx-with_tenant_id,
}
use ragivka.Orchestrator.Endpoint.{HttpRequest}
use ragivka.Runtime.Types.{Session}
use ragivka.Runtime.Sessions.{get_by_id, get_active_by_user_id}
use ragivka.Runtime.Messages.{list_for_session}
use ragivka.Runtime.Sessions.Calls.{get_by_id-Keeps, get_active_by_user_id-Keeps}
use ragivka.Runtime.Messages.Insertion.{list_for_session-Keeps}
use ragivka.Runtime.Users.{resolve_or_create}
use ragivka.Runtime.Isolation.{seen_by, create_session-seen_by, resolve_or_create-seen_by}
use ragivka.Channel.Respond.{ttl_or_default}
use ragivka.Channel.Respond.Keeps.{handled-Keeps}
use ragivka.Channel.Telegram.{
  Update, Sender, webhook, for_tenant, decoded, of_update, from_sender, turn, reply, send_found,
  latest_assistant, format_int, reply_with_latest_assistant_message, resolve_or_create_session,
  found_or_create, new_session, extract_tenant_id,
}
use ragivka.World.{World, Exec, attempt, context}
use ragivka.World.Keeps.{Keeps, >>=-Keeps}

module _ (t tenant : ℕ) (apart : tenant ≢ t) where
  module _ ⦃uuid : Uuid⦄ (ctx : Ctx) (et : tenant_id_from_ctx ctx ≡ ok tenant) where
    found_or_create-seen_by :
        (fresh user ttl : ℕ) (r : Result Session)
        → Keeps (seen_by t) (found_or_create ctx fresh tenant user ttl r)
    unfolding found_or_create
    found_or_create-seen_by fresh user ttl (ok s) w = refl
    found_or_create-seen_by fresh user ttl (panic p) w = refl
    found_or_create-seen_by fresh user ttl (err e) w = elim (Bool-cases (is e not_found)) [
      | inr not_so ↦ rw not_so refl
      | inl so ↦ rw so (
          create_session-seen_by t tenant apart ctx et fresh
            (new_session fresh tenant user (w.now + ttl)) w)
    ]

    resolve_or_create_session-seen_by :
        (fresh user ttl : ℕ)
        → Keeps (seen_by t) (resolve_or_create_session ctx fresh tenant user ttl)
    unfolding resolve_or_create_session
    resolve_or_create_session-seen_by fresh user ttl =
        >>=-Keeps (seen_by t) (attempt (get_active_by_user_id ctx user))
          (found_or_create ctx fresh tenant user ttl)
          (get_active_by_user_id-Keeps ctx (seen_by t) user (λ w fs. refl))
          (found_or_create-seen_by fresh user ttl)

    module _ (run : Ctx → ℕ → String → Exec (Unit {0})) (sender : Sender)
        (runs : (id : ℕ) (text : String) → Keeps (seen_by t) (run ctx id text))
        (sends : (chat : ℤ) (text : String) → Keeps (seen_by t) (sender ctx chat text)) where
      send_found-seen_by :
          (chat : ℤ) (text : Option String) → Keeps (seen_by t) (send_found sender ctx chat text)
      unfolding send_found
      send_found-seen_by chat none w = refl
      send_found-seen_by chat (some text) w = sends chat text w

      latest-seen_by :
          (session : ℕ) (chat : ℤ)
          → Keeps (seen_by t) (reply_with_latest_assistant_message ctx session chat sender)
      unfolding reply_with_latest_assistant_message
      latest-seen_by session chat =
          >>=-Keeps (seen_by t) (context "load history" (list_for_session ctx session (pos 0)))
            (λ history. send_found sender ctx chat (latest_assistant (reverse history)))
            (list_for_session-Keeps ctx (seen_by t) (λ v fs. refl) session (pos 0))
            (λ history. send_found-seen_by chat (latest_assistant (reverse history)))

      module _ (decode : ℕ → String → Option Update) (ttl : ℤ) (fresh_user fresh_session : ℕ) where
        reply-seen_by :
            (session : ℕ) (chat : ℤ)
            → Keeps
                (seen_by t)
                (reply run sender decode ttl fresh_user fresh_session ctx session chat)
        unfolding reply
        reply-seen_by session chat =
            handled-Keeps (seen_by t) 200 (get_by_id ctx session) _
              (get_by_id-Keeps ctx (seen_by t) session (λ w fs. refl))
              λ current w.
                elim (Bool-cases (str_eq current.tier "L0" || str_eq current.tier "L1")) [
                  | inr not_so ↦ rw not_so refl
                  | inl so ↦ rw so (
                      handled-Keeps (seen_by t) 200
                        (reply_with_latest_assistant_message ctx session chat sender) _
                        (latest-seen_by session chat) (λ u v. refl) w)
                ]

        turn-seen_by :
            (from chat : ℤ) (text : String)
            → Keeps
                (seen_by t)
                (turn run sender decode ttl fresh_user fresh_session ctx tenant from chat text)
        unfolding turn
        turn-seen_by from chat text =
            handled-Keeps (seen_by t) 500
              (resolve_or_create ctx fresh_user "telegram" (format_int from)) _
              (resolve_or_create-seen_by t tenant apart ctx et fresh_user "telegram"
                (format_int from))
              λ user.
                handled-Keeps (seen_by t) 500
                  (resolve_or_create_session ctx fresh_session tenant user (ttl_or_default ttl)) _
                  (resolve_or_create_session-seen_by fresh_session user (ttl_or_default ttl))
                  λ session.
                    handled-Keeps (seen_by t) 500 (run ctx session.id text) _ (runs session.id text)
                      (λ u. reply-seen_by session.id chat)

        from_sender-seen_by :
            (from : Option ℤ) (chat : ℤ) (text : String)
            → Keeps (seen_by t) (
                from_sender run sender decode ttl fresh_user fresh_session ctx tenant from chat
                  text)
        unfolding from_sender
        from_sender-seen_by none chat text w = refl
        from_sender-seen_by (some from) chat text w = elim (Bool-cases (str_eq text "")) [
          | inl empty ↦ rw empty refl
          | inr some_text ↦ rw some_text (turn-seen_by from chat text w)
        ]

-- A tenant whom the path of the request does not name sees after the webhook what it saw before,
-- whatever the update says and whatever fails, provided that the orchestrator leaves what every
-- tenant but its context's sees, and the sender what all see.
pub webhook-isolation :
    ⦃uuid : Uuid⦄ (run : Ctx → ℕ → String → Exec (Unit {0})) (sender : Sender)
    (decode : ℕ → String → Option Update) (ttl : ℤ) (fresh_user fresh_session : ℕ) (ctx : Ctx)
    (req : HttpRequest) (t : ℕ)
    → extract_tenant_id req.path ≢ some t
    → ((c : Ctx) (id : ℕ) (text : String)
        → tenant_id_from_ctx c ≢ ok t
        → Keeps (seen_by t) (run c id text))
    → ((c : Ctx) (chat : ℤ) (text : String) → Keeps (seen_by t) (sender c chat text))
    → (w : World)
    → seen_by t (webhook run sender decode ttl fresh_user fresh_session ctx req w).1 ≡ seen_by t w
unfolding webhook for_tenant decoded of_update
webhook-isolation ⦃uuid⦄ run sender decode ttl fresh_user fresh_session ctx req t not_named runs
      sends w =
    elim (Bool-cases (not (str_eq req.method "POST"))) [
      | inl other_method ↦ rw other_method refl
      | inr post ↦ elim (Option-cases (extract_tenant_id req.path)) [
        | inl e ↦ rw (post, e) refl
        | inr (tenant, e) ↦ elim (Option-cases (decode 1048576 req.body)) [
          | inl d ↦ rw (post, e, d) refl
          | inr (update, d) ↦ elim (Option-cases update.message) [
            | inl m ↦ rw (post, e, d, m) refl
            | inr (incoming, m) ↦
                let apart : tenant ≢ t = λ same. not_named (e ∙ ap some same) in
                let et = tenant_id_from_ctx-with_tenant_id ctx tenant in
                let tctx = with_tenant_id ctx (uuid.to_string tenant) in
                rw (post, e, d, m)
                  (from_sender-seen_by t tenant apart tctx et run sender
                    (λ id text. runs tctx id text (λ h. apart (ok-injective (sym et ∙ h))))
                    (sends tctx) decode ttl fresh_user fresh_session incoming.from incoming.chat
                    incoming.text w)
          ]
        ]
      ]
    ]

-- ===== src/Channel/Telegram/Replies.antt =====
-- Which message the webhook of pkg/channel/telegram/handler.go sends.
use mathlib.Core.List.{reverse-append, append_assoc}
use ragivka.Prelude.{
  ℕ, ◌≡◌, refl, ◌∙◌, ap, true, false, some, List, [], ◌∷◌, ◌++◌, reverse, All, str_eq, ℤ, pos,
}
use ragivka.Errors.{ok}
use ragivka.Tenant.{Ctx, Uuid}
use ragivka.Runtime.Types.{Message}
use ragivka.Runtime.Messages.{list_for_session}
use ragivka.Channel.Telegram.{
  Sender, latest_assistant, send_found, reply_with_latest_assistant_message,
}
use ragivka.World.{World}

abbrev NotAssistant : Message → Type 0
NotAssistant m = str_eq m.role "assistant" ≡ false

All-append_both :
    {A : Type 0} (P : A → Type 0) (xs ys : List A) → All P xs → All P ys → All P (xs ++ ys)
All-append_both P [] ys h k = k
All-append_both P (x ∷ xs) ys h k = (h.0, All-append_both P xs ys h.1 k)

All-reverse : {A : Type 0} (P : A → Type 0) (xs : List A) → All P xs → All P (reverse xs)
All-reverse P [] h = tt
All-reverse P (x ∷ xs) h =
    rw (reverse-append (x ∷ []) xs)
      (All-append_both P (reverse xs) (x ∷ []) (All-reverse P xs h.1) (h.0, tt))

reverse-middle :
    {A : Type 0} (older newer : List A) (m : A)
    → reverse (older ++ m ∷ newer) ≡ reverse newer ++ m ∷ reverse older
reverse-middle older newer m =
    reverse-append older (m ∷ newer)
    ∙ ap (λ r. r ++ reverse older) (reverse-append (m ∷ []) newer)
    ∙ append_assoc (reverse newer) (m ∷ []) (reverse older)

latest_assistant-append :
    (newer older : List Message) (m : Message)
    → All NotAssistant newer
    → str_eq m.role "assistant" ≡ true
    → latest_assistant (newer ++ m ∷ older) ≡ some m.content
unfolding latest_assistant
latest_assistant-append [] older m h e = rw e refl
latest_assistant-append (n ∷ newer) older m h e =
    rw h.0 (latest_assistant-append newer older m h.1 e)

module _ ⦃uuid : Uuid⦄ (ctx : Ctx) (session : ℕ) (chat : ℤ) (sender : Sender) where
  -- The reply is the text of the assistant's last message in the history of the session, however
  -- many messages of others came after it.
  pub reply-latest :
      (older newer : List Message) (m : Message) (w v : World)
      → list_for_session ctx session (pos 0) w ≡ (ok (older ++ m ∷ newer), v)
      → str_eq m.role "assistant" ≡ true
      → All (λ n. str_eq n.role "assistant" ≡ false) newer
      → reply_with_latest_assistant_message ctx session chat sender w ≡ sender ctx chat m.content v
  unfolding reply_with_latest_assistant_message send_found
  reply-latest older newer m w v listed e h =
      let found : latest_assistant (reverse (older ++ m ∷ newer)) ≡ some m.content =
        ap latest_assistant (reverse-middle older newer m)
        ∙ latest_assistant-append (reverse newer) (reverse older) m
            (All-reverse NotAssistant newer h) e in
      rw listed (ap (λ o. send_found sender ctx chat o v) found)

-- ===== src/Runtime/Isolation.antt =====
-- What a tenant sees of the program's tables and of the queue, and what the repositories of
-- pkg/runtime leave of a tenant that is not their context's.
use ragivka.Prelude.{
  ℕ, ◌==◌, ◌≡◌, ◌≢◌, refl, sym, ◌∙◌, ap, List, [], ◌∷◌, In, String, ℤ, if◌then◌else◌, Bool-cases,
  inl, inr, arith,
}
use ragivka.Errors.{ok, ok-injective}
use ragivka.Tenant.{Ctx, Uuid, tenant_id_from_ctx}
use ragivka.Runtime.Fsm.{State}
use ragivka.Aicore.Types.{GenerateRequest, PromptVersion}
use ragivka.Storage.Types.{Artifact}
use ragivka.Tools.Types.{AuditRecord}
use ragivka.Knowledge.Types.{Document, ChunkRow}
use ragivka.Knowledge.Documents.Tenants.{documents_of}
use ragivka.Knowledge.Retrieval.Hybrid.{chunks_of}
use ragivka.Runtime.Types.{Session, Message, User, GenerateResponseArgs}
use ragivka.Runtime.Sessions.{create_session, transition}
use ragivka.Runtime.Sessions.Calls.{transition-Keeps}
use ragivka.Runtime.Sessions.Transition.{rows_of, transition-isolation}
use ragivka.Runtime.Sessions.Tenants.{rows_of-cons, create_session-Keeps}
use ragivka.Runtime.Messages.{create_message}
use ragivka.Runtime.Messages.Tenants.{messages_of, messages_of-cons, create_message_own-Keeps}
use ragivka.Runtime.Users.{resolve_or_create}
use ragivka.Runtime.Users.Tenants.{users_of, users_of-cons, resolve_or_create-Keeps}
use ragivka.World.{World, Call}
use ragivka.World.Keeps.{Keeps}

-- The jobs of a tenant among the calls.
unfoldable pub jobs_of : ℕ → List Call → List GenerateResponseArgs
jobs_of t [] = []
jobs_of t (Call.enqueue args ∷ rest) =
    let others = jobs_of t rest in if args.tenant_id == t then args ∷ others else others
jobs_of t (_ ∷ rest) = jobs_of t rest

-- A tenant's part of the world: its sessions, users, messages, documents, chunks and jobs, and the
-- tables of prompts, artifacts and audit records as they are.
abbrev pub Seen : Type 0
Seen =
    List Session
    × List User
    × List Message
    × List Document
    × List ChunkRow
    × List GenerateResponseArgs
    × List PromptVersion
    × List Artifact
    × List AuditRecord

abbrev seen_with : ℕ → List Session → World → Seen
seen_with t rows w = (
  rows,
  users_of t w.users,
  messages_of t w.messages,
  documents_of t w.documents,
  chunks_of t w.chunks,
  jobs_of t w.calls,
  w.prompts,
  w.artifacts,
  w.audit_log,
)

abbrev pub seen_by : ℕ → World → Seen
seen_by t w = seen_with t (rows_of t w.sessions) w

module _ (t : ℕ) where
  -- Neither a call of a model nor one of an embedder is a job.
  pub ask-seen_by :
      (w : World) (req : GenerateRequest)
      → seen_by t (record w { calls = Call.generate req ∷ w.calls }) ≡ seen_by t w
  unfolding jobs_of
  ask-seen_by w req = refl

  pub embed-seen_by :
      (w : World) (texts : List String)
      → seen_by t (record w { calls = Call.embed texts ∷ w.calls }) ≡ seen_by t w
  unfolding jobs_of
  embed-seen_by w texts = refl

  pub send-seen_by :
      (w : World) (chat : ℤ) (text : String)
      → seen_by t (record w { calls = Call.send chat text ∷ w.calls }) ≡ seen_by t w
  unfolding jobs_of
  send-seen_by w chat text = refl

  -- A job of one tenant is none of another's.
  pub enqueue-seen_by :
      (w : World) (args : GenerateResponseArgs)
      → args.tenant_id ≢ t
      → seen_by t (record w { calls = Call.enqueue args ∷ w.calls }) ≡ seen_by t w
  unfolding jobs_of
  enqueue-seen_by w args apart = elim (Bool-cases (args.tenant_id == t)) [
    | inl same ↦ absurd (apart (ground (arith, same)))
    | inr other ↦ rw other refl
  ]

  no_job_first :
      (args : GenerateResponseArgs) (rest : List Call)
      → jobs_of t (Call.enqueue args ∷ rest) ≡ []
      → args.tenant_id ≢ t
  unfolding jobs_of
  no_job_first args rest idle same = ground (arith, idle, same)

  no_job_later : (c : Call) (rest : List Call) → jobs_of t (c ∷ rest) ≡ [] → jobs_of t rest ≡ []
  unfolding jobs_of
  no_job_later (Call.generate req) rest idle = idle
  no_job_later (Call.execute tool input) rest idle = idle
  no_job_later (Call.embed texts) rest idle = idle
  no_job_later (Call.upload key bytes kind) rest idle = idle
  no_job_later (Call.send chat text) rest idle = idle
  no_job_later (Call.enqueue args) rest idle = elim (Bool-cases (args.tenant_id == t)) [
    | inl same ↦ absurd (no_job_first args rest idle (ground (arith, same)))
    | inr other ↦ rw other at idle
  ]

  -- Where a tenant has no jobs, a job among the calls is another's.
  pub jobs_of-foreign :
      (calls : List Call) (args : GenerateResponseArgs)
      → jobs_of t calls ≡ []
      → In (Call.enqueue args) calls
      → args.tenant_id ≢ t
  jobs_of-foreign [] args idle queued = absurd queued
  jobs_of-foreign (c ∷ rest) args idle (inl now) = no_job_first args rest (rw (sym now) at idle)
  jobs_of-foreign (c ∷ rest) args idle (inr later) =
      jobs_of-foreign rest args (no_job_later c rest idle) later

module _ ⦃uuid : Uuid⦄ (t tenant : ℕ) (apart : tenant ≢ t) (ctx : Ctx)
    (et : tenant_id_from_ctx ctx ≡ ok tenant) where
  pub create_session-seen_by :
      (fresh : ℕ) (s : Session) → Keeps (seen_by t) (create_session ctx fresh s)
  create_session-seen_by fresh s =
      create_session-Keeps (seen_by t) tenant (λ v fs. refl)
        (λ v row mine. rw (rows_of-cons t row v.sessions (λ e. apart (sym mine ∙ e))) refl) ctx
        fresh s et

  pub resolve_or_create-seen_by :
      (fresh : ℕ) (channel_type channel_id : String)
      → Keeps (seen_by t) (resolve_or_create ctx fresh channel_type channel_id)
  resolve_or_create-seen_by fresh channel_type channel_id =
      resolve_or_create-Keeps (seen_by t) tenant (λ v fs. refl)
        (λ v u mine. rw (users_of-cons t u v.users (λ e. apart (sym mine ∙ e))) refl) ctx fresh
        channel_type channel_id et

  pub create_message-seen_by :
      (fresh : ℕ) (m : Message) → Keeps (seen_by t) (create_message ctx fresh m)
  create_message-seen_by fresh m =
      create_message_own-Keeps (seen_by t) tenant (λ v fs. refl)
        (λ v row mine. rw (messages_of-cons t row v.messages (λ e. apart (sym mine ∙ e))) refl) ctx
        fresh m et

  pub transition-seen_by :
      (id : ℕ) (from to : State) (version : ℕ)
      → Keeps (seen_by t) (transition ctx id from to version)
  transition-seen_by id from to version w =
      let rows =
        transition-isolation ctx id from to version w t (λ e. apart (ok-injective (sym et ∙ e))) in
      let others =
        transition-Keeps ctx (seen_with t []) id from to version (λ v fs. refl) (λ v ss. refl) w in
      rw rows (ap (λ (seen : Seen). record seen { 0 = rows_of t w.sessions }) others)

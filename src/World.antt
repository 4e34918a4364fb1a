-- ===== src/World.antt =====
-- What the components share: the tables of the database, the calls that leave the process, and
-- the monad of a call that may fail. What was written before an error stays written.
pub mod Laws
pub mod Keeps
pub mod Sample
use ragivka.Prelude.{
  ℕ, ◌+◌, Bool, true, false, String, Option, none, some, List, [], ◌∷◌, if◌then◌else◌, ℤ,
}
use ragivka.Errors
use ragivka.Errors.{Err, Result, ok, err, panic, other, wrap}
use ragivka.Aicore.Types.{GenerateRequest, PromptVersion}
use ragivka.Knowledge.Types.{Document, ChunkRow}
use ragivka.Runtime.Types.{Session, Message, GenerateResponseArgs, User}
use ragivka.Storage.Types.{Artifact}
use ragivka.Tools.Types.{AuditRecord}

-- A call that leaves the process: a request to a model, a tool with its arguments, a job that
-- is enqueued, texts to embed, bytes to put under a key of the object store, or a text to send to
-- a chat.
pub data Call : Type 0 where
  generate : GenerateRequest → Call
  execute : String → String → Call
  enqueue : GenerateResponseArgs → Call
  embed : List String → Call
  upload : String → List ℕ → String → Call
  send : ℤ → String → Call

pub record World : Type 0 where
  pub sessions : List Session
  pub messages : List Message
  pub audit_log : List AuditRecord
  pub prompts : List PromptVersion
  pub documents : List Document
  pub chunks : List ChunkRow
  pub artifacts : List Artifact
  pub users : List User
  -- The calls made so far, the last one first.
  pub calls : List Call
  -- The schedule of database failures: the n-th statement fails if the n-th entry is true.
  pub faults : List Bool
  -- NOW() in SQL and time.Now() in Go.
  pub now : ℕ

abbrev pub Exec : Type 0 → Type 0
Exec A = World → Result A × World

module _ {A B : Type 0} where
  abbrev pub continue : Result A → (A → Exec B) → Exec B
  continue (ok a) f w = f a w
  continue (err e) f w = (err e, w)
  continue (panic p) f w = (panic p, w)

  infixl 5 ◌>>=◌ ◌>>◌
  abbrev pub ◌>>=◌ : Exec A → (A → Exec B) → Exec B
  ◌>>=◌ m f w = let (r, w') = m w in continue r f w'

  abbrev pub ◌>>◌ : Exec A → Exec B → Exec B
  m >> n = m >>= λ _. n

module _ {A : Type 0} where
  abbrev pub pure : A → Exec A
  pure a w = (ok a, w)

  abbrev pub fail : Err → Exec A
  fail e w = (err e, w)

  abbrev pub lift : Result A → Exec A
  lift r w = (r, w)

  -- if err := m; err != nil { return fmt.Errorf("text: %w", err) }
  abbrev pub context : String → Exec A → Exec A
  context text m w = let (r, w') = m w in (Errors.wrapped text r, w')

  -- The call's result as a value, for code that looks at the error itself.
  abbrev pub attempt : Exec A → Exec (Result A)
  attempt m w = let (r, w') = m w in (ok r, w')

  -- A statement that the database refuses has no effect.
  abbrev faulty : List Bool → Exec A → Exec A
  faulty [] m w = m w
  faulty (false ∷ rest) m w = m (record w { faults = rest })
  faulty (true ∷ rest) m w = (err (other "database error"), record w { faults = rest })

  abbrev pub statement : Exec A → Exec A
  statement m w = faulty w.faults m w

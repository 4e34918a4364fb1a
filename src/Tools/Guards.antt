-- ===== src/Tools/Guards.antt =====
-- pkg/tools/hitl.go and pkg/tools/audit.go: the confidence gate, and the log of write tools.
pub mod Fulfilled
use ragivka.Prelude.{ℕ, ◌≡◌, ◌≢◌, Bool, true, false, String, List, if◌then◌else◌}
use ragivka.Errors.{Result, ok, err, wrap, sentinel, hitl_required}
use ragivka.Tenant.{Ctx}
use ragivka.Tools.Types.{AuditRecord}
use ragivka.World.{World, Exec, Call, context}

-- Go's float64 with its `<` and its arithmetic, of which nothing is assumed, and its constants
-- with one digit after the point.
pub record Floats : Type 1 where
  pub Float : Type 0
  pub less : Float → Float → Bool
  pub of_tenths : ℕ → Float
  pub add : Float → Float → Float
  pub sub : Float → Float → Float
  pub mul : Float → Float → Float

module _ ⦃floats : Floats⦄ where
  pub record HitlGate : Type 0 where
    pub threshold : floats.Float

  unfoldable pub evaluate : HitlGate → floats.Float → Result (Unit {0})
  evaluate gate confidence =
      if floats.less confidence gate.threshold
      then err (wrap "confidence below the threshold" (sentinel hitl_required))
      else ok tt

-- The persistence of the audit log, which the program takes as an interface.
pub record AuditWriter : Type 0 where
  pub is_executed : Ctx → String → Exec Bool
  pub write : Ctx → AuditRecord → Exec (Unit {0})

-- What the interface's comments promise: a check writes nothing and neither method calls a tool,
-- and a key that was written stays recorded, whatever becomes of the rest of the world.
pub record IsDurable (db : AuditWriter) : Type 1 where
  pub recorded : World → String → Type 0
  pub check_calls :
      (ctx : Ctx) (key : String) (w : World) → (db.is_executed ctx key w).1.calls ≡ w.calls
  pub write_calls :
      (ctx : Ctx) (rec : AuditRecord) (w : World) → (db.write ctx rec w).1.calls ≡ w.calls
  pub write_recorded :
      (ctx : Ctx) (rec : AuditRecord) (w : World)
      → (db.write ctx rec w).0 ≡ ok tt
      → recorded (db.write ctx rec w).1 rec.idempotency_key
  pub recorded_executed :
      (ctx : Ctx) (key : String) (w : World)
      → recorded w key
      → (db.is_executed ctx key w).0 ≢ ok false

-- AuditLogger, over the writer and SHA-256.
module _ (db : AuditWriter) (hash_json : String → String) where
  unfoldable pub is_executed : Ctx → String → Exec Bool
  is_executed ctx key = context "audit: check idempotency" (db.is_executed ctx key)

  unfoldable pub log : Ctx → String → String → String → String → String → String → Exec (Unit {0})
  log ctx key tool_name tenant_id session_id args result = context "audit: write" (
      db.write ctx (record {
        idempotency_key = key;
        tool_name = tool_name;
        tenant_id = tenant_id;
        session_id = session_id;
        request_hash = hash_json args;
        response_hash = hash_json result;
      }))

-- ===== src/Tools/Guards/Fulfilled.antt =====
-- The audit log of the model's world, beside the promises of pkg/tools/audit.go.
use ragivka.Prelude.{
  ◌≡◌, ◌≢◌, refl, Bool, true, false, String, List, [], ◌∷◌, str_eq, eq_refl, ◌||◌, arith,
}
use ragivka.Errors.{ok}
use ragivka.Tenant.{Ctx}
use ragivka.Tools.Types.{AuditRecord}
use ragivka.Tools.Guards.{AuditWriter, IsDurable}
use ragivka.World.{World, Exec, statement}
use ragivka.World.Laws.{statement-cases}

abbrev has_record : String → List AuditRecord → Bool
has_record key [] = false
has_record key (r ∷ rest) = str_eq r.idempotency_key key || has_record key rest

abbrev read_log : String → Exec Bool
read_log key w = (ok (has_record key w.audit_log), w)

abbrev append_log : AuditRecord → Exec (Unit {0})
append_log rec w = (ok tt, record w { audit_log = rec ∷ w.audit_log })

abbrev pub table_writer : AuditWriter
table_writer = record {
  is_executed = λ ctx key. statement (read_log key);
  write = λ ctx rec. statement (append_log rec);
}

abbrev Recorded : World → String → Type 0
Recorded w key = has_record key w.audit_log ≡ true

written :
    (ctx : Ctx) (rec : AuditRecord) (w : World)
    → (table_writer.write ctx rec w).0 ≡ ok tt
    → Recorded (table_writer.write ctx rec w).1 rec.idempotency_key
written ctx rec w =
    statement-cases (append_log rec) w (λ out. out.0 ≡ ok tt → Recorded out.1 rec.idempotency_key)
      (λ fs h. ground (arith, eq_refl rec.idempotency_key)) (λ fs h. absurd (ground arith))

pub table_writer-IsDurable : IsDurable table_writer
table_writer-IsDurable = record {
  recorded = Recorded;
  check_calls = λ ctx key w.
      statement-cases (read_log key) w (λ out. out.1.calls ≡ w.calls) (λ fs. refl) (λ fs. refl);
  write_calls = λ ctx rec w.
      statement-cases (append_log rec) w (λ out. out.1.calls ≡ w.calls) (λ fs. refl) (λ fs. refl);
  write_recorded = written;
  recorded_executed = λ ctx key w r.
      statement-cases (read_log key) w (λ out. out.0 ≢ ok false) (λ fs h. absurd (ground arith))
        (λ fs h. absurd (ground arith));
}

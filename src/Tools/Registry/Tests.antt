-- ===== src/Tools/Registry/Tests.antt =====
-- The registry of pkg/tools at concrete tools.
use ragivka.Prelude.{◌≡◌, ◌≢◌, ◌≤◌, some, [], ◌∷◌, lookup, arith}
use ragivka.Errors.{ok}
use ragivka.Tenant.Sample.{tenant_ctx}
use ragivka.Tools.Types.{kind_read, kind_write, Tool, rank}
use ragivka.Tools.Registry.{Registry, get, execute, within, found}
use ragivka.Tools.Registry.Boundary.{execute-kind}
use ragivka.World.{World}

abbrev reader : Tool
reader = record { name = "search"; kind = kind_read; run = λ ctx args n. ok args }

abbrev one_reader : Registry
one_reader = ("search", reader) ∷ []

abbrev quiet : World
quiet = record {
  sessions = [];
  messages = [];
  audit_log = [];
  prompts = [];
  documents = [];
  chunks = [];
  artifacts = [];
  users = [];
  calls = [];
  faults = [];
  now = 1;
}

made_a_call :
    (execute one_reader (tenant_ctx 5) "search" "{}" kind_write quiet).1.calls ≢ quiet.calls
unfolding execute get found within lookup
made_a_call h = absurd (ground arith)

execute-kind_example :
    (t : Tool) × (lookup "search" one_reader ≡ some t) × (rank t.kind ≤ rank kind_write)
execute-kind_example =
    execute-kind one_reader (tenant_ctx 5) "search" "{}" kind_write quiet made_a_call

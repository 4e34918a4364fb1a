-- ===== src/Tools/Registry.antt =====
-- pkg/tools/registry.go: the tools by name, and the bound on a caller's tool kinds. The mutex
-- makes each operation one step.
pub mod Boundary
mod Tests
use ragivka.Prelude.{
  ◌+◌, String, Option, none, some, List, [], ◌∷◌, lookup, insert, length, ltb, if◌then◌else◌,
}
use ragivka.Errors.{Result, ok, err, wrap, sentinel, tool_not_found, already_exists, kind_violation}
use ragivka.Tenant.{Ctx}
use ragivka.Tools.Types.{ToolKind, Tool, rank}
use ragivka.World.{World, Exec, Call, ◌>>=◌, fail, lift}

abbrev pub Registry : Type 0
Registry = List (String × Tool)

pub new_registry : Registry
new_registry = []

add_unless : Option Tool → Tool → Registry → Result Registry
add_unless (some taken) t r = err (wrap t.name (sentinel already_exists))
add_unless none t r = ok (insert t.name t r)

unfoldable pub register : Registry → Tool → Result Registry
unfolding add_unless
register r t = add_unless (lookup t.name r) t r

found : String → Option Tool → Result Tool
found name none = err (wrap name (sentinel tool_not_found))
found name (some t) = ok t

unfoldable pub get : Registry → String → Result Tool
unfolding found
get r name = found name (lookup name r)

-- t.Execute(ctx, args): a call that leaves the process.
call : Tool → Ctx → String → Exec String
call t ctx args w =
    (t.run ctx args (length w.calls), record w { calls = Call.execute t.name args ∷ w.calls })

within : ToolKind → Ctx → String → Tool → Exec String
unfolding call
within max_kind ctx args t =
    if ltb (rank max_kind) (rank t.kind)
    then fail (wrap t.name (sentinel kind_violation))
    else call t ctx args

unfoldable pub execute : Registry → Ctx → String → String → ToolKind → Exec String
unfolding within
execute r ctx name args max_kind = do t ← lift (get r name); within max_kind ctx args t

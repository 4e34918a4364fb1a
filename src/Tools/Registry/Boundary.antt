-- ===== src/Tools/Registry/Boundary.antt =====
-- Which tools pkg/tools/registry.go lets a caller run, and what registering does to a lookup.
use ragivka.Prelude.{
  ◌≡◌, ◌≢◌, ◌≤◌, refl, String, none, some, lookup, insert, lookup-insert, arith, Option-cases,
  Bool-cases, inl, inr, eq_iff, eq_refl, ltb,
}
use ragivka.Errors.{ok}
use ragivka.Tenant.{Ctx}
use ragivka.Tools.Types.{ToolKind, Tool, rank}
use ragivka.Tools.Registry.{Registry, register, get, execute, within, found, add_unless}
use ragivka.World.{World}

call_within :
    (t : Tool) (max_kind : ToolKind) (ctx : Ctx) (args : String) (w : World)
    → (within max_kind ctx args t w).1.calls ≢ w.calls
    → rank t.kind ≤ rank max_kind
unfolding within
call_within t max_kind ctx args w h = elim (Bool-cases (ltb (rank max_kind) (rank t.kind))) [
  | inl e ↦ absurd (h (rw e refl))
  | inr e ↦ ground arith
]

-- Whatever the registry and the tools do, if an execution makes a call, then a tool is
-- registered under that name and its kind does not exceed the kind that the caller allows.
pub execute-kind :
    (r : Registry) (ctx : Ctx) (name args : String) (max_kind : ToolKind) (w : World)
    → (execute r ctx name args max_kind w).1.calls ≢ w.calls
    → (t : Tool) × (lookup name r ≡ some t) × (rank t.kind ≤ rank max_kind)
unfolding execute get found
execute-kind r ctx name args max_kind w h = elim (Option-cases (lookup name r)) [
  | inl e ↦ absurd (h (rw e refl))
  | inr (t, e) ↦ (t, e, call_within t max_kind ctx args w (rw e at h))
]

-- If a tool was registered, its name was free before, Get finds the tool under its name
-- afterwards, and finds under every other name what it found before.
pub get-register :
    (r r' : Registry) (t : Tool)
    → register r t ≡ ok r'
    → (lookup t.name r ≡ none)
      × (get r' t.name ≡ ok t)
      × ((name : String) → name ≢ t.name → get r' name ≡ get r name)
unfolding register add_unless get found
get-register r r' t h = elim (Option-cases (lookup t.name r)) [
  | inr (u, e) ↦ absurd (ground arith)
  | inl e ↦
      let same : r' ≡ insert t.name t r = ground arith in
      (
        e,
        rw same (rw (lookup-insert t.name t.name t r) (rw (eq_refl t.name) refl)),
        λ name other.
            rw same (rw (lookup-insert t.name name t r) (ground (arith, eq_iff t.name name))),
      )
]

-- ===== src/Errors.antt =====
-- Go's error values: the sentinels of the packages, the FSM's error type, and the chains that
-- `fmt.Errorf` builds with `%w` and `errors.Is` walks. The formatted arguments are not kept.
use ragivka.Prelude.{arith, ℕ, ◌≡◌, ◌≢◌, refl, ap, String, Bool, false, ◌==◌}
use ragivka.Runtime.Fsm.{State}

pub data Sentinel : Type 0 where
  no_tenant not_found optimistic_lock document_not_found : Sentinel
  tool_not_found already_exists kind_violation hitl_required : Sentinel
  node_not_found cycle_detected max_iterations_exceeded : Sentinel
  prompt_not_found unsupported_type missing_tenant_claim : Sentinel
  artifact_not_found unsupported_artifact : Sentinel

-- Each sentinel is a pointer of its own.
abbrev pub address : Sentinel → ℕ
address no_tenant = 0
address not_found = 1
address optimistic_lock = 2
address document_not_found = 3
address tool_not_found = 4
address already_exists = 5
address kind_violation = 6
address hitl_required = 7
address node_not_found = 8
address cycle_detected = 9
address max_iterations_exceeded = 10
address prompt_not_found = 11
address unsupported_type = 12
address missing_tenant_claim = 13
address artifact_not_found = 14
address unsupported_artifact = 15

pub data Err : Type 0 where
  sentinel : Sentinel → Err
  invalid_transition : State → State → Err
  other : String → Err
  wrap : String → Err → Err

-- errors.Is(err, target)
abbrev pub is : Err → Sentinel → Bool
is (sentinel s) t = address s == address t
is (invalid_transition from to) t = false
is (other text) t = false
is (wrap text e) t = is e t

-- What a call comes back with: a value and a nil error, an error, or a panic.
pub data Result {ℓ} (A : Type ℓ) : Type ℓ where
  ok : A → Result A
  err : Err → Result A
  panic : String → Result A

-- fmt.Errorf("text: %w", err)
abbrev pub wrapped {ℓ} : {A : Type ℓ} → String → Result A → Result A
wrapped text (ok a) = ok a
wrapped text (err e) = err (wrap text e)
wrapped text (panic p) = panic p

-- The three ways, with the equation.
pub data Cases {ℓ} {A : Type ℓ} (r : Result A) : Type ℓ where
  is_ok : (a : A) → r ≡ ok a → Cases r
  is_err : (e : Err) → r ≡ err e → Cases r
  is_panic : (p : String) → r ≡ panic p → Cases r

pub Result-Cases {ℓ} : {A : Type ℓ} (r : Result A) → Cases r
Result-Cases (ok a) = is_ok a refl
Result-Cases (err e) = is_err e refl
Result-Cases (panic p) = is_panic p refl

-- if err != nil { return err }
abbrev pub on_ok {ℓ κ} : {B : Type κ} {A : Type ℓ} → (A → Result B) → Result A → Result B
on_ok next (panic p) = panic p
on_ok next (err e) = err e
on_ok next (ok a) = next a

infixl 5 ◌>>=◌
abbrev pub ◌>>=◌ {ℓ κ} : {A : Type ℓ} {B : Type κ} → Result A → (A → Result B) → Result B
m >>= next = on_ok next m

-- A sequence that returned a value got one from its first call.
pub >>=-returned {ℓ κ} :
    {B : Type κ} {A : Type ℓ} {value : B} (next : A → Result B) (first : Result A)
    → on_ok next first ≡ ok value
    → (given : A) × (first ≡ ok given) × (next given ≡ ok value)
>>=-returned next first h = elim (Result-Cases first) [
  | is_ok given e ↦ (given, e, rw e at h)
  | is_err x e ↦ let never : ◌≡◌ {A = Result _} (err x) (ok _) = rw e at h in absurd (ground arith)
  | is_panic p e ↦
      let never : ◌≡◌ {A = Result _} (panic p) (ok _) = rw e at h in absurd (ground arith)
]

abbrev ok_or {ℓ} : {A : Type ℓ} → A → Result A → A
ok_or d (ok a) = a
ok_or d (err e) = d
ok_or d (panic p) = d

pub ok-injective {ℓ} : {A : Type ℓ} {a b : A} → ok a ≡ ok b → a ≡ b
ok-injective {a} h = ap (ok_or a) h

-- An error that is wrapped is no value.
pub wrapped-ok :
    {A : Type 0} {a : A} (text : String) (r : Result A) → wrapped text r ≡ ok a → r ≡ ok a
wrapped-ok text (ok b) h = h
wrapped-ok text (err e) h = absurd (ground arith)
wrapped-ok text (panic p) h = absurd (ground arith)

-- No panic.
abbrev pub Returns {ℓ} : {A : Type ℓ} → Result A → Type ℓ
Returns r = (p : String) → r ≢ panic p

pub wrapped-Returns :
    {A : Type 0} (text : String) (r : Result A) → Returns r → Returns (wrapped text r)
wrapped-Returns text (ok a) h p never = absurd (ground arith)
wrapped-Returns text (err e) h p never = absurd (ground arith)
wrapped-Returns text (panic q) h p never = absurd (h q refl)

pub on_ok-Returns :
    {A B : Type 0} (next : A → Result B) (r : Result A)
    → Returns r
    → ((a : A) → Returns (next a))
    → Returns (on_ok next r)
on_ok-Returns next (ok a) h k p never = k a p never
on_ok-Returns next (err e) h k p never = absurd (ground arith)
on_ok-Returns next (panic q) h k p never = absurd (h q refl)

-- A call that failed or panicked has no value.
pub failed : {A : Type 0} {e : Err} {a : A} → ◌≢◌ {A = Result A} (err e) (ok a)
failed h = absurd (ground arith)

pub panicked : {A : Type 0} {p : String} {a : A} → ◌≢◌ {A = Result A} (panic p) (ok a)
panicked h = absurd (ground arith)

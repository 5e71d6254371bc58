-- ===== src/Outcome.antt =====
-- The results of the C functions, and the monad over the state that they change.
use Prim.Native.String.{String}
use metal_graph.Base.{ℕ, Bool, true, false, word64, ◌-◌}
use metal_graph.Types.{Status, Stage}

-- MG_NODE_ID_INVALID.
abbrev pub node_id_invalid : ℕ
node_id_invalid = word64 - 1

-- The arguments of the call of `mg_set_error` with which a function returns. `Errors.set_error` says
-- what that call leaves in the caller's `out_error`.
pub record Failure : Type 0 where
  pub status : Status
  pub stage : Stage
  pub node_id : ℕ
  pub message : String

-- A function returns MG_STATUS_OK with its outputs, or an error status, or it reads through a
-- pointer to no live object.
pub data Outcome {ℓ} (A : Type ℓ) : Type ℓ where
  done : A → Outcome A
  failed : Failure → Outcome A
  fault : Outcome A

abbrev pub M : Type 0 → Type 0 → Type 0
M S A = S → Outcome A × S

abbrev pub pure : {S A : Type 0} → A → M S A
pure a s = (done a, s)

abbrev pub fail : {S A : Type 0} → Failure → M S A
fail e s = (failed e, s)

abbrev pub after : {S A B : Type 0} → Outcome A × S → (A → M S B) → Outcome B × S
after (done a, s) f = f a s
after (failed e, s) f = (failed e, s)
after (fault, s) f = (fault, s)

infixl 5 ◌>>=◌ ◌>>◌
abbrev pub ◌>>=◌ : {S A B : Type 0} → M S A → (A → M S B) → M S B
◌>>=◌ m f s = after (m s) f

abbrev pub ◌>>◌ : {S B : Type 0} → M S (Unit {0}) → M S B → M S B
m >> k = m >>= λ _. k

-- `if (!test) return mg_set_error(...)`.
abbrev pub require : {S : Type 0} → Bool → Failure → M S (Unit {0})
require true e s = (done tt, s)
require false e s = (failed e, s)

-- MG_STATUS_INVALID_ARGUMENT at stage create, with no node.
abbrev pub invalid_at : Stage → ℕ → String → Failure
invalid_at stage id text = record {
  status = Status.invalid_argument;
  stage = stage;
  node_id = id;
  message = text;
}

-- mg_set_oom.
abbrev pub oom_at : Stage → Failure
oom_at stage = record {
  status = Status.out_of_memory;
  stage = stage;
  node_id = node_id_invalid;
  message = "out of memory";
}

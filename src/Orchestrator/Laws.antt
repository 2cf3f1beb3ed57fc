-- ===== src/Orchestrator/Laws.antt =====
-- Which requests crates/orchestrator/src/main.rs accepts.
use hivebus.Prelude.{ℕ, ◌≡◌, ◌⊎◌, List}
use hivebus.Result.{Result, ok}
use hivebus.Bincode.{Codec}
use hivebus.Std.Text.{Str, str}
use hivebus.Proto.Message
use hivebus.Proto.Message.{ControlReply, error}
use hivebus.Orchestrator.{WorkloadSpec, Kvm, create_vm}

-- A payload that is read as a specification.
abbrev pub IsSpec : Codec WorkloadSpec → List ℕ → Type 0
IsSpec codec inner = (spec : WorkloadSpec) × (used : ℕ) × (codec.decode inner ≡ ok (spec, used))

-- A request is done: a machine that could be created, or a container.
abbrev pub IsDone : Codec WorkloadSpec → Kvm → Str → List ℕ → Type 0
IsDone codec device tag inner =
    ((tag ≡ str "vm.create") × IsSpec codec inner × (create_vm device ≡ ok tt))
    ⊎ ((tag ≡ str "lxc.create") × IsSpec codec inner)

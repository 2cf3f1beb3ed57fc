-- ===== src/Orchestrator.antt =====
-- crates/orchestrator/src/main.rs: the requests of the virtualization daemon, as built for Linux. The
-- kvm-ioctls crate is a parameter; the other backends are stubs in the code that succeed.
pub mod Laws
pub mod Start
use hivebus.Prelude.{
  ℕ, Option, Bool, true, false, List, [], ◌∷◌, ◌++◌, ◌==◌, bytes_eq, if◌then◌else◌,
}
use hivebus.Result.{Result, ok, err, ◌>>=◌}
use hivebus.Bincode.{Codec}
use hivebus.Std.Text.{Str, str}
use hivebus.Proto.Message
use hivebus.Proto.Message.{
  ControlOp, ControlReply, ping, get_nodes, get_master, step_down, shutdown, custom, error,
}
use hivebus.Socket.{ControlCodecs, Answer, reply, exit, Connection, serve}

pub data VirtKind : Type 0 where
  kvm lxc container : VirtKind

pub record WorkloadSpec : Type 0 where
  pub id : Str
  pub kind : VirtKind
  pub image : Str
  pub cpus : ℕ
  pub memory_mb : ℕ
  pub extra : List (Str × Str)

pub record WorkloadStatus : Type 0 where
  pub id : Str
  pub kind : VirtKind
  pub running : Bool
  pub pid : Option ℕ

-- What `Kvm::new()` and `kvm.create_vm()` give.
pub record Kvm : Type 0 where
  pub new : Result (Unit {0})
  pub vm_created : Result (Unit {0})

unfoldable pub is_available : Kvm → Bool
is_available device = elim device.new [ ok _ ↦ true | err e ↦ false ]

unfoldable pub create_vm : Kvm → Result (Unit {0})
create_vm device = do _ ← device.new; _ ← device.vm_created; ok tt

abbrev pub reply_of : Result (Unit {0}) → ControlReply
reply_of (ok _) = Message.ok
reply_of (err e) = error e

module _ (codec : Codec WorkloadSpec) (device : Kvm) where
  unfoldable pub handle_command : Str → List ℕ → ControlReply
  unfolding create_vm
  handle_command tag inner =
      if tag == str "vm.create"
      then (elim (codec.decode inner) [
        | err e ↦ error (str "invalid payload")
        | ok (spec, _) ↦ reply_of (create_vm device)
      ])
      else if tag == str "lxc.create"
      then (elim (codec.decode inner) [
        | err e ↦ error (str "invalid payload")
        | ok (spec, _) ↦ Message.ok
      ])
      else error (str "unknown tag: " ++ tag)

  unfoldable pub answer_orchestrator : Result ControlOp → Answer
  unfolding handle_command
  answer_orchestrator (ok ping) = reply Message.ok
  answer_orchestrator (ok (custom tag inner)) = reply (handle_command tag inner)
  answer_orchestrator (ok shutdown) = exit
  answer_orchestrator (err e) = reply (error e)
  answer_orchestrator (ok get_nodes) = reply (error (str "unsupported op"))
  answer_orchestrator (ok get_master) = reply (error (str "unsupported op"))
  answer_orchestrator (ok step_down) = reply (error (str "unsupported op"))

-- One connection; the daemon keeps no state.
unfoldable pub serve_orchestrator :
    ControlCodecs → Codec WorkloadSpec → Kvm → List ℕ → Unit {0} → Connection × Unit {0}
serve_orchestrator control codec device =
    serve control (λ op s. (answer_orchestrator codec device op, s))

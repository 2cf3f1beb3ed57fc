-- ===== src/Netop/Laws.antt =====
-- What can change the desired state of crates/netop/src/main.rs.
use hivebus.Prelude.{ℕ, ◌≡◌, ◌⊎◌, inl, inr, refl, arith, ◌==◌, bytes_eq, Bool-cases, ne_of_beq}
use hivebus.Result.{Result, ok, err, Result-cases}
use hivebus.Bincode.{Codec}
use hivebus.Std.Text.{str}
use hivebus.Proto.Message.{ControlOp, ping, get_nodes, get_master, step_down, shutdown, custom}
use hivebus.Proto.Message
use hivebus.Socket.{reply}
use hivebus.Netop.{DesiredState, state_set, answer_netop}

-- A request that sets the state, with the state that it carries.
abbrev pub Sets : Codec DesiredState → Result ControlOp → DesiredState → Type 0
Sets codec (ok (custom tag inner)) new_state =
    (tag ≡ str "state.set") × (used : ℕ) × (codec.decode inner ≡ ok (new_state, used))
Sets codec _ new_state = ⊥

-- A `state.set` request whose payload is read replaces the desired state by exactly the state in
-- that payload, and the reply is `Ok`. Every other request leaves the desired state.
pub answer_netop_lem :
    (codec : Codec DesiredState) (op : Result ControlOp) (s : DesiredState)
    → ((s' : DesiredState) × Sets codec op s' × (answer_netop codec op s ≡ (reply Message.ok, s')))
      ⊎ (((s' : DesiredState) → ¬ Sets codec op s') × ((answer_netop codec op s).1 ≡ s))
unfolding answer_netop
answer_netop_lem codec (ok (custom tag inner)) s = elim (Bool-cases (tag == str "state.set")) [
  | inr e ↦
      let other = ne_of_beq tag (str "state.set") e in inr ((λ s' sets. other sets.0), rw e refl)
  | inl e ↦
      let is_set : tag ≡ str "state.set" = (bytes_eq.decides tag (str "state.set")).0 e in
      elim (Result-cases (codec.decode inner)) [
        | inl (m, d) ↦ inr ((λ s' sets. ground (arith, sets.2)), rw (e, state_set, d) refl)
        | inr ((new_state, used), d) ↦ inl (new_state, (is_set, used, d), rw (e, state_set, d))
      ]
]
answer_netop_lem codec (ok ping) s = inr ((λ s' sets. sets), refl)
answer_netop_lem codec (ok _) s = inr ((λ s' sets. sets), refl)
answer_netop_lem codec (err e) s = inr ((λ s' sets. sets), refl)

-- ===== src/Tests/Sockets.antt =====
-- A daemon that starts while an older one has its socket.
use hivebus.Prelude.{
  ◌≡◌, ◌≢◌, ◌↔◌, refl, inr, none, some, [], ◌∷◌, ◌==◌, bytes_eq, bytes_beq, if◌then◌else◌, arith,
  All,
}
use hivebus.Result.{ok}
use hivebus.Std.Fs.{directory, socket, FileSystem, Process}
use hivebus.Std.HashMap
use hivebus.Std.Net.Udp.{set_reuse_address, set_broadcast, Refusals, UdpSocket, first_refusal}
use hivebus.Std.Text.{Str, str}
use hivebus.Socket.Setup.{socket_path, socket_dirs, socket_mode, open_control}
use hivebus.Socket.Setup.Laws.{is_one_of, IsPassable, open_control_lem}
use hivebus.Socket.Setup.Laws.Refusal.{open_control_iff}
use hivebus.Pxeboot.Dhcp.Listen.{open_dhcp, listening, needed, open_dhcp_iff}

abbrev daemon : Process
daemon = record { id = 7; bound_mode = 493; refused = λ call. none }

-- Process 3 listens on the socket of netop.
abbrev running : FileSystem
running =
    (str "/var", directory)
    ∷ (str "/var/run", directory)
    ∷ (str "/var/run/hivebus", directory)
    ∷ (socket_path (str "netop.sock"), socket 3 socket_mode)
    ∷ []

taken : HashMap.get running (socket_path (str "netop.sock")) ≡ some (socket 3 socket_mode)
unfolding HashMap.get bytes_beq
taken = refl

no_directory : HashMap.get running (socket_path (str "netop.sock")) ≢ some directory
no_directory h = absurd (ground (arith, taken))

passable : All (IsPassable running) socket_dirs
unfolding HashMap.get bytes_beq
passable = (inr refl, (inr refl, (inr refl, tt)))

open_control_lem_example :
    (fs' : FileSystem) × (open_control daemon (str "netop.sock") running ≡ ok fs')
    × ((k : Str)
        → HashMap.get fs' k ≡ (
            if socket_path (str "netop.sock") == k
            then some (socket 7 socket_mode)
            else if is_one_of socket_dirs k
            then some directory
            else HashMap.get running k))
open_control_lem_example =
    open_control_lem daemon (λ call. refl) (str "netop.sock") running no_directory passable

open_control_iff_example :
    ((fs' : FileSystem) × (open_control daemon (str "netop.sock") running ≡ ok fs')) ↔ (
      (HashMap.get running (socket_path (str "netop.sock")) ≢ some directory)
      × All (IsPassable running) socket_dirs)
open_control_iff_example = open_control_iff daemon (λ call. refl) (str "netop.sock") running

-- The options of the DHCP server's socket are refused.
abbrev options_refused : Refusals
options_refused (set_reuse_address _) = some (str "Protocol not available")
options_refused (set_broadcast _) = some (str "Permission denied")
options_refused _ = none

open_dhcp_iff_example :
    ((sock : UdpSocket) × (open_dhcp options_refused ≡ listening sock))
    ↔ (first_refusal options_refused needed ≡ none)
open_dhcp_iff_example = open_dhcp_iff options_refused

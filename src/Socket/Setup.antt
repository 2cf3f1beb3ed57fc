-- ===== src/Socket/Setup.antt =====
-- How `control_plane` of every daemon comes to its socket before it accepts connections. The code
-- is the same in all; the name of the socket is an argument.
pub mod Laws
use hivebus.Prelude.{ℕ, Option, none, some, Bool, List, [], ◌∷◌, ◌++◌, bytes_eq, if◌then◌else◌}
use hivebus.Result.{Result, ok, err, ◌>>=◌}
use hivebus.Std.Fs.{
  FileSystem, Process, exists, remove_file, create_dir, create_dirs, bind, set_permissions,
}
use hivebus.Std.HashMap
use hivebus.Std.Text.{Str, str}
use hivebus.Proto.{socket_dir}

-- `format!("{SOCKET_DIR}/{name}")`
abbrev pub socket_path : Str → Str
socket_path name = socket_dir ++ str "/" ++ name

-- The directories above a socket, the outermost first.
abbrev pub socket_dirs : List Str
socket_dirs = str "/var" ∷ str "/var/run" ∷ socket_dir ∷ []

-- `0o660`
abbrev pub socket_mode : ℕ
socket_mode = 432

unfoldable pub open_control : Process → Str → FileSystem → Result FileSystem
unfolding remove_file create_dirs bind set_permissions
open_control process name fs = do
  let path = socket_path name
  cleared ← if exists fs path then remove_file process path fs else ok fs
  within ← create_dirs process socket_dirs cleared
  bound ← bind process socket_dir path within
  set_permissions process path socket_mode bound

-- ===== src/Std/Fs.antt =====
-- The tree of files as the calls of `std::fs` and of a Unix listener see it, by absolute paths, and
-- what each call does to it. A symbolic link counts as what it leads to.
use hivebus.Prelude.{ℕ, Option, none, some, Bool, true, false, List, [], ◌∷◌, bytes_eq}
use hivebus.Result.{Result, ok, err}
use hivebus.Std.HashMap
use hivebus.Std.HashMap.{HashMap}
use hivebus.Std.Text.{Str, str}

-- A socket has the process that listens on it and its mode.
pub data Entry : Type 0 where
  directory : Entry
  file : Entry
  socket : ℕ → ℕ → Entry

abbrev pub FileSystem : Type 0
FileSystem = HashMap Str Entry

pub data Call : Type 0 where
  remove_file_call : Str → Call
  create_dir_call : Str → Call
  bind_call : Str → Call
  set_permissions_call : Str → Call

-- The process that calls, the mode that its umask leaves to a socket, and which calls the system
-- refuses it, with the error.
pub record Process : Type 0 where
  pub id : ℕ
  pub bound_mode : ℕ
  pub refused : Call → Option Str

abbrev unless_refused {ℓ} : {A : Type ℓ} → Option Str → Result A → Result A
unless_refused none r = r
unless_refused (some e) r = err e

abbrev pub exists : FileSystem → Str → Bool
exists fs path = elim (HashMap.get fs path) [ none ↦ false | some entry ↦ true ]

module _ (process : Process) where
  unfoldable pub remove_file : Str → FileSystem → Result FileSystem
  remove_file path fs =
      unless_refused (process.refused (remove_file_call path)) (elim (HashMap.get fs path) [
        | none ↦ err (str "No such file or directory (os error 2)")
        | some entry ↦ elim entry [
          | directory ↦ err (str "Is a directory (os error 21)")
          | file ↦ ok (HashMap.remove fs path)
          | socket owner mode ↦ ok (HashMap.remove fs path)
        ]
      ])

  -- One directory of `create_dir_all`: it is there or it is made.
  unfoldable pub create_dir : Str → Str → FileSystem → Result FileSystem
  create_dir in_the_way path fs = elim (HashMap.get fs path) [
    | none ↦
        unless_refused (process.refused (create_dir_call path))
          (ok (HashMap.insert fs path directory))
    | some entry ↦ elim entry [
      | directory ↦ ok fs
      | file ↦ err in_the_way
      | socket owner mode ↦ err in_the_way
    ]
  ]

  -- `create_dir_all` of the last of these directories, each in the one before it.
  unfoldable pub create_dirs : List Str → FileSystem → Result FileSystem
  unfolding create_dir
  create_dirs [] fs = ok fs
  create_dirs (path ∷ []) fs = create_dir (str "File exists (os error 17)") path fs
  create_dirs (path ∷ next ∷ paths) fs =
      elim (create_dir (str "Not a directory (os error 20)") path fs) [
        | err e ↦ err e
        | ok made ↦ create_dirs (next ∷ paths) made
      ]

  -- `UnixListener::bind` of a path in the directory.
  unfoldable pub bind : Str → Str → FileSystem → Result FileSystem
  bind parent path fs =
      unless_refused (process.refused (bind_call path)) (elim (HashMap.get fs path) [
        | some entry ↦ err (str "Address already in use (os error 98)")
        | none ↦ elim (HashMap.get fs parent) [
          | none ↦ err (str "No such file or directory (os error 2)")
          | some entry ↦ elim entry [
            | directory ↦ ok (HashMap.insert fs path (socket process.id process.bound_mode))
            | file ↦ err (str "Not a directory (os error 20)")
            | socket owner mode ↦ err (str "Not a directory (os error 20)")
          ]
        ]
      ])

  -- The mode is kept for sockets only.
  unfoldable pub set_permissions : Str → ℕ → FileSystem → Result FileSystem
  set_permissions path mode fs =
      unless_refused (process.refused (set_permissions_call path)) (elim (HashMap.get fs path) [
        | none ↦ err (str "No such file or directory (os error 2)")
        | some entry ↦ elim entry [
          | directory ↦ ok fs
          | file ↦ ok fs
          | socket owner _ ↦ ok (HashMap.insert fs path (socket owner mode))
        ]
      ])

-- ===== src/Socket/Setup/Laws.antt =====
-- The tree of files after a daemon opened its socket.
pub mod Refusal
use hivebus.Prelude.{
  ℕ, ◌+◌, ◌≡◌, ◌≢◌, ◌⊎◌, refl, sym, ◌∙◌, inl, inr, Option, none, some, Bool, true, false, List, [],
  ◌∷◌, ◌++◌, ◌==◌, ◌||◌, bytes_eq, bytes_beq, if◌then◌else◌, arith, All, Option-cases, Bool-cases,
  beq_refl, length, length-append,
}
use hivebus.Result.{Result, ok, err, ◌>>=◌}
use hivebus.Std.Fs.{
  Entry, directory, file, socket, FileSystem, Process, Call, exists, remove_file, create_dir,
  create_dirs, bind, set_permissions,
}
use hivebus.Std.HashMap
use hivebus.Std.HashMap.{get-insert, get-remove}
use hivebus.Std.Text.{Str, str}
use hivebus.Proto.{socket_dir}
use hivebus.Socket.Setup.{socket_path, socket_dirs, socket_mode, open_control}

unfoldable pub is_one_of : List Str → Str → Bool
is_one_of [] path = false
is_one_of (p ∷ ps) path = p == path || is_one_of ps path

-- No file or socket stands where a directory must be.
abbrev pub IsPassable : FileSystem → Str → Type 0
IsPassable fs path = (HashMap.get fs path ≡ none) ⊎ (HashMap.get fs path ≡ some directory)

-- Nothing is refused to the process.
abbrev pub IsAllowed : Process → Type 0
IsAllowed process = (c : Call) → process.refused c ≡ none

-- The path of a socket is none of the directories above it: it is longer.
pub socket_path_outside : (name : Str) → is_one_of socket_dirs (socket_path name) ≡ false
unfolding is_one_of bytes_beq
socket_path_outside name = refl

socket_dir_inside : is_one_of socket_dirs socket_dir ≡ true
unfolding is_one_of bytes_beq
socket_dir_inside = refl

module _ (process : Process) (allowed : IsAllowed process) where
  pub create_dir_lem :
      (in_the_way path : Str) (fs : FileSystem)
      → IsPassable fs path
      → (fs' : FileSystem) × (create_dir process in_the_way path fs ≡ ok fs')
        × ((k : Str) → HashMap.get fs' k ≡ (if path == k then some directory else HashMap.get fs k))
  unfolding create_dir
  create_dir_lem in_the_way path fs (inl e) =
      (_, rw (create_dir, e, allowed) refl, λ k. get-insert fs path k directory)
  create_dir_lem in_the_way path fs (inr e) =
      (fs, rw (create_dir, e) refl, λ k. ground (arith, bytes_eq.decides path k, e))

  IsPassable-after :
      (fs made : FileSystem) (path k : Str)
      → HashMap.get made k ≡ (if path == k then some directory else HashMap.get fs k)
      → IsPassable fs k
      → IsPassable made k
  IsPassable-after fs made path k e h = elim (Bool-cases (path == k)) [
    | inl p ↦ inr (e ∙ (rw p refl))
    | inr p ↦ rw (e, p) h
  ]

  All-IsPassable_after :
      (fs made : FileSystem) (path : Str) (paths : List Str)
      → ((k : Str) → HashMap.get made k ≡ (if path == k then some directory else HashMap.get fs k))
      → All (IsPassable fs) paths
      → All (IsPassable made) paths
  All-IsPassable_after fs made path [] e h = tt
  All-IsPassable_after fs made path (k ∷ paths) e h =
      (IsPassable-after fs made path k (e k) h.0, All-IsPassable_after fs made path paths e h.1)

  create_dirs_lem :
      (paths : List Str) (fs : FileSystem)
      → All (IsPassable fs) paths
      → (fs' : FileSystem) × (create_dirs process paths fs ≡ ok fs')
        × ((k : Str)
            → HashMap.get fs' k ≡ (if is_one_of paths k then some directory else HashMap.get fs k))
  unfolding create_dirs is_one_of
  create_dirs_lem [] fs h = (fs, refl, λ k. refl)
  create_dirs_lem (path ∷ []) fs h =
      let (fs', made, after) = create_dir_lem _ path fs h.0 in
      (fs', made, λ k. ground (arith, after k))
  create_dirs_lem (path ∷ next ∷ paths) fs h =
      let (made, e, after) = create_dir_lem (str "Not a directory (os error 20)") path fs h.0 in
      let (fs', rest, after') =
        create_dirs_lem (next ∷ paths) made
          (All-IsPassable_after fs made path (next ∷ paths) after h.1) in
      (fs', rw (create_dirs, e) rest, λ k. ground (arith, after k, after' k))

  -- The two calls on the bound path.
  bind_lem :
      (parent path : Str) (fs : FileSystem)
      → HashMap.get fs path ≡ none
      → HashMap.get fs parent ≡ some directory
      → bind process parent path fs
        ≡ ok (HashMap.insert fs path (socket process.id process.bound_mode))
  unfolding bind
  bind_lem parent path fs fresh within = rw (bind, allowed, fresh, within) refl

  set_permissions_lem :
      (path : Str) (mode owner old : ℕ) (fs : FileSystem)
      → HashMap.get fs path ≡ some (socket owner old)
      → set_permissions process path mode fs ≡ ok (HashMap.insert fs path (socket owner mode))
  unfolding set_permissions
  set_permissions_lem path mode owner old fs at = rw (set_permissions, allowed, at) refl

  All-IsPassable_cleared :
      (fs cleared : FileSystem) (path : Str) (paths : List Str)
      → ((k : Str) → HashMap.get cleared k ≡ (if path == k then none else HashMap.get fs k))
      → All (IsPassable fs) paths
      → All (IsPassable cleared) paths
  All-IsPassable_cleared fs cleared path [] e h = tt
  All-IsPassable_cleared fs cleared path (k ∷ paths) e h = (
    elim (Bool-cases (path == k)) [ inl p ↦ inl (e k ∙ (rw p refl)) | inr p ↦ rw (e k, p) h.0 ],
    All-IsPassable_cleared fs cleared path paths e h.1,
  )

  pub exists-get :
      (path : Str) (fs : FileSystem) (o : Option Entry)
      → HashMap.get fs path ≡ o
      → exists fs path ≡ elim o [ none ↦ false | some entry ↦ true ]
  exists-get path fs o e = rw (exists, e) refl

  -- The path is free after its file was removed.
  pub cleared_lem :
      (path : Str) (fs : FileSystem)
      → HashMap.get fs path ≢ some directory
      → (fs' : FileSystem) × ((if exists fs path then remove_file process path fs else ok fs)
          ≡ ok fs')
        × ((k : Str) → HashMap.get fs' k ≡ (if path == k then none else HashMap.get fs k))
  unfolding remove_file
  cleared_lem path fs free = elim (Option-cases (HashMap.get fs path)) [
    | inl e ↦
        (fs, rw (exists-get path fs none e) refl, λ k. ground (arith, bytes_eq.decides path k, e))
    | inr (directory, e) ↦ absurd (free e)
    | inr (file, e) ↦ (
      HashMap.remove fs path,
      rw (exists-get path fs (some file) e, remove_file, allowed, e) refl,
      get-remove fs path,
    )
    | inr (socket owner mode, e) ↦ (
      HashMap.remove fs path,
      rw (exists-get path fs (some (socket owner mode)) e, remove_file, allowed, e) refl,
      get-remove fs path,
    )
  ]

  -- A daemon gets its socket whatever stands at the path but a directory, also the socket of
  -- another daemon that is running, if the directories above can be gone through and nothing is
  -- refused. Afterwards the path is the daemon's socket of mode 0660, the directories above are
  -- there, and every other path is as it was.
  pub open_control_lem :
      (name : Str) (fs : FileSystem)
      → HashMap.get fs (socket_path name) ≢ some directory
      → All (IsPassable fs) socket_dirs
      → (fs' : FileSystem) × (open_control process name fs ≡ ok fs')
        × ((k : Str)
            → HashMap.get fs' k ≡ (
                if socket_path name == k
                then some (socket process.id socket_mode)
                else if is_one_of socket_dirs k
                then some directory
                else HashMap.get fs k))
  unfolding open_control
  open_control_lem name fs free above =
      let path = socket_path name in
      let (fs1, cleared, after1) = cleared_lem path fs free in
      let (fs2, made, after2) =
        create_dirs_lem socket_dirs fs1
          (All-IsPassable_cleared fs fs1 path socket_dirs after1 above) in
      let bound = socket process.id process.bound_mode in
      let fs3 = HashMap.insert fs2 path bound in
      let is_bound =
        bind_lem socket_dir path fs2
          (after2 path ∙ (rw (socket_path_outside name, after1 path, beq_refl path) refl))
          (after2 socket_dir ∙ (rw socket_dir_inside refl)) in
      let moded =
        set_permissions_lem path socket_mode process.id process.bound_mode fs3
          (HashMap.get-insert_self fs2 path bound) in
      (
        HashMap.insert fs3 path (socket process.id socket_mode),
        rw (open_control, cleared, made, is_bound) moded,
        λ k. ground (
          arith,
          get-insert fs3 path k (socket process.id socket_mode),
          get-insert fs2 path k bound,
          after2 k,
          after1 k,
        ),
      )

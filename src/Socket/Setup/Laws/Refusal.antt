-- ===== src/Socket/Setup/Laws/Refusal.antt =====
-- When a daemon does not get its socket.
use hivebus.Prelude.{
  ◌≡◌, ◌≢◌, ◌↔◌, refl, sym, ◌∙◌, inl, inr, none, some, false, List, [], ◌∷◌, ◌==◌, bytes_eq,
  if◌then◌else◌, arith, All, Option-cases, Bool-cases,
}
use hivebus.Result.{ok, Result-cases}
use hivebus.Std.Fs.{
  directory, file, socket, FileSystem, Process, remove_file, create_dir, create_dirs,
}
use hivebus.Std.HashMap
use hivebus.Std.Text.{Str, str}
use hivebus.Socket.Setup.{socket_path, socket_dirs, open_control}
use hivebus.Socket.Setup.Laws.{
  is_one_of, IsPassable, IsAllowed, socket_path_outside, exists-get, cleared_lem, create_dir_lem,
  open_control_lem,
}

All-IsPassable_uncleared :
    (fs cleared : FileSystem) (path : Str) (paths : List Str)
    → is_one_of paths path ≡ false
    → ((k : Str) → HashMap.get cleared k ≡ (if path == k then none else HashMap.get fs k))
    → All (IsPassable cleared) paths
    → All (IsPassable fs) paths
unfolding is_one_of
All-IsPassable_uncleared fs cleared path [] outside e all = tt
All-IsPassable_uncleared fs cleared path (k ∷ paths) outside e all =
    let other : (path == k) ≡ false =
      ground (arith, bytes_eq.decides path k, bytes_eq.decides k path) in
    let kept : HashMap.get cleared k ≡ HashMap.get fs k = e k ∙ (rw other refl) in
    (rw (sym kept) all.0, All-IsPassable_uncleared fs cleared path paths (ground arith) e all.1)

module _ (process : Process) (allowed : IsAllowed process) where
  create_dir-ok :
      (in_the_way path : Str) (fs fs' : FileSystem)
      → create_dir process in_the_way path fs ≡ ok fs'
      → IsPassable fs path
  unfolding create_dir
  create_dir-ok in_the_way path fs fs' made = elim (Option-cases (HashMap.get fs path)) [
    | inl e ↦ inl e
    | inr (directory, e) ↦ inr e
    | inr (file, e) ↦ absurd (ground (arith, made))
    | inr (socket owner mode, e) ↦ absurd (ground (arith, made))
  ]

  -- What is passable after a directory was made was so before.
  IsPassable-before :
      (fs made : FileSystem) (path k : Str)
      → IsPassable fs path
      → HashMap.get made k ≡ (if path == k then some directory else HashMap.get fs k)
      → IsPassable made k
      → IsPassable fs k
  IsPassable-before fs made path k h e h' = elim (Bool-cases (path == k)) [
    | inl p ↦ let same : path ≡ k = (bytes_eq.decides path k).0 p in rw (sym same) h
    | inr p ↦ let kept : HashMap.get made k ≡ HashMap.get fs k = e ∙ (rw p refl) in rw (sym kept) h'
  ]

  All-IsPassable_before :
      (fs made : FileSystem) (path : Str) (paths : List Str)
      → IsPassable fs path
      → ((k : Str) → HashMap.get made k ≡ (if path == k then some directory else HashMap.get fs k))
      → All (IsPassable made) paths
      → All (IsPassable fs) paths
  All-IsPassable_before fs made path [] h e all = tt
  All-IsPassable_before fs made path (k ∷ paths) h e all = (
    IsPassable-before fs made path k h (e k) all.0,
    All-IsPassable_before fs made path paths h e all.1,
  )

  create_dirs-ok :
      (paths : List Str) (fs fs' : FileSystem)
      → create_dirs process paths fs ≡ ok fs'
      → All (IsPassable fs) paths
  unfolding create_dirs
  create_dirs-ok [] fs fs' made = tt
  create_dirs-ok (path ∷ []) fs fs' made =
      (create_dir-ok (str "File exists (os error 17)") path fs fs' made, tt)
  create_dirs-ok (path ∷ next ∷ paths) fs fs' made =
      let first = create_dir process (str "Not a directory (os error 20)") path fs in
      elim (Result-cases first) [
        | inl (e, failed) ↦ absurd (ground (arith, made, failed))
        | inr (one, is_made) ↦
            let h = create_dir-ok (str "Not a directory (os error 20)") path fs one is_made in
            let (one', is_made', after) =
              create_dir_lem process allowed (str "Not a directory (os error 20)") path fs h in
            let rest : create_dirs process (next ∷ paths) one' ≡ ok fs' =
              rw (create_dirs, is_made') at made in
            (
              h,
              All-IsPassable_before fs one' path (next ∷ paths) h after
                  (create_dirs-ok (next ∷ paths) one' fs' rest),
            )
      ]

  opened_free :
      (name : Str) (fs fs' : FileSystem)
      → open_control process name fs ≡ ok fs'
      → HashMap.get fs (socket_path name) ≢ some directory
  unfolding open_control remove_file
  opened_free name fs fs' opened at =
      let failed =
        rw
          (
            open_control,
            exists-get process allowed (socket_path name) fs (some directory) at,
            remove_file,
            allowed,
            at,
          )
          at opened in
      ground arith

  opened-IsPassable :
      (name : Str) (fs fs' : FileSystem)
      → HashMap.get fs (socket_path name) ≢ some directory
      → open_control process name fs ≡ ok fs'
      → All (IsPassable fs) socket_dirs
  unfolding open_control
  opened-IsPassable name fs fs' free opened =
      let (fs1, cleared, after) = cleared_lem process allowed (socket_path name) fs free in
      elim (Result-cases (create_dirs process socket_dirs fs1)) [
        | inl (e, failed) ↦
            let stopped = rw (open_control, cleared, failed) at opened in absurd (ground arith)
        | inr (fs2, made) ↦
            All-IsPassable_uncleared fs fs1 (socket_path name) socket_dirs
              (socket_path_outside name) after (create_dirs-ok socket_dirs fs1 fs2 made)
      ]

  -- A process that is refused nothing gets its socket exactly if no directory stands at the path
  -- and no file or socket where a directory above it must be.
  pub open_control_iff :
      (name : Str) (fs : FileSystem)
      → ((fs' : FileSystem) × (open_control process name fs ≡ ok fs'))
        ↔ ((HashMap.get fs (socket_path name) ≢ some directory) × All (IsPassable fs) socket_dirs)
  open_control_iff name fs = (
    λ opened.
        let free = opened_free name fs opened.0 opened.1 in
        (free, opened-IsPassable name fs opened.0 free opened.1),
    λ clear.
        let (fs', opened, _) = open_control_lem process allowed name fs clear.0 clear.1 in
        (fs', opened),
  )

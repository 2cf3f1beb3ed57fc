-- ===== src/Std/Path.antt =====
-- `std::path` on Unix: the components of a path, and `PathBuf::push`.
pub mod Laws
use hivebus.Prelude.{
  ℕ, Option, none, some, Bool, true, false, List, [], ◌∷◌, ◌++◌, ◌==◌, nat_eq, bytes_eq,
  if◌then◌else◌, not,
}
use hivebus.Std.Text.{Str, str, split}

pub data Component : Type 0 where
  root_dir cur_dir parent_dir : Component
  normal : Str → Component

abbrev pub slash : ℕ
slash = b'/'

-- What one piece between slashes adds, anywhere but at the beginning.
unfoldable pub piece_components : Str → List Component
piece_components piece =
    if piece == []
    then []
    else if piece == str "."
    then []
    else if piece == str ".."
    then parent_dir ∷ []
    else normal piece ∷ []

unfoldable pub pieces_components : List Str → List Component
unfolding piece_components
pieces_components [] = []
pieces_components (p ∷ ps) = piece_components p ++ pieces_components ps

-- A dot is a component only where it begins the path.
unfoldable pub relative_components : List Str → List Component
unfolding pieces_components
relative_components [] = []
relative_components (p ∷ ps) =
    if p == str "." then cur_dir ∷ pieces_components ps else pieces_components (p ∷ ps)

-- `Path::new(s).components()`
unfoldable pub components : Str → List Component
unfolding relative_components split
components [] = []
components (c ∷ s) =
    if c == slash
    then root_dir ∷ pieces_components (split slash s)
    else relative_components (split slash (c ∷ s))

abbrev starts_absolute : Str → Bool
starts_absolute [] = false
starts_absolute (c ∷ s) = c == slash

abbrev needs_separator : Str → Bool
needs_separator [] = false
needs_separator (c ∷ []) = not (c == slash)
needs_separator (c ∷ d ∷ s) = needs_separator (d ∷ s)

-- `path.push(segment)`
unfoldable pub push : Str → Str → Str
push path segment =
    if starts_absolute segment
    then segment
    else if needs_separator path
    then path ++ slash ∷ segment
    else path ++ segment

-- ===== src/Configuration.antt =====
-- How the daemons come to their configurations: the command's argument, the file system and the
-- toml crate with serde's derived reader, which are parameters.
use hivebus.Prelude.{Option, none, some, Bool, if◌then◌else◌}
use hivebus.Result.{Result, ok, err, ◌>>=◌}
use hivebus.Std.Text.{Str}

-- `F` are the fields of the file, an absent one with a default being `none`.
pub record ConfigFiles (F : Type 0) : Type 0 where
  -- `Path::new(path).exists()`
  pub exists : Str → Bool
  pub read_to_string : Str → Result Str
  pub parse : Str → Result F

-- `read` of a path in the file system, then the reader of the toml crate.
module _ {F : Type 0} (files : ConfigFiles F) where
  unfoldable pub read_file : Str → Result F
  read_file path = do raw ← files.read_to_string path; files.parse raw

  -- The file if it is there, and the default otherwise.
  unfoldable pub read_or : {C : Type 0} → (F → C) → C → Str → Result C
  unfolding read_file
  read_or of_fields absent path =
      let read = (do f ← read_file path; ok (of_fields f)) in
      if files.exists path then read else ok absent

-- `.context(text)`, of which `to_string` gives the text.
abbrev pub with_context {ℓ} : {A : Type ℓ} → Str → Result A → Result A
with_context text (ok a) = ok a
with_context text (err e) = err text

-- `#[serde(default = "...")]`, and an argument that may be missing.
abbrev pub or_default {ℓ} : {A : Type ℓ} → Option A → A → A
or_default none d = d
or_default (some a) d = a

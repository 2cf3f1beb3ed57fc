-- ===== src/Pxeboot/Boot/Script.antt =====
-- Which files of crates/pxeboot/src/main.rs a requested path can name.
use hivebus.Prelude.{
  ℕ, ◌≡◌, ◌≢◌, ◌↔◌, refl, none, some, List, [], ◌∷◌, ◌++◌, map, arith, All, All-append, ap,
  bytes_beq, ◌/◌, ◌%◌,
}
use hivebus.Std.Text.{Str, str, join, split, split_from}
use hivebus.Std.Text.Hex.{hex_byte, hex_digit}
use hivebus.Std.Path.{
  Component, root_dir, cur_dir, parent_dir, normal, components, push, slash, relative_components,
  pieces_components, piece_components,
}
use hivebus.Std.Path.Laws.{IsName, NormalIsName, components-IsName, Lacks, split_from_whole}
use hivebus.Proto.Mac.{Mac, octets}
use hivebus.Pxeboot.Boot.{push_components, sanitize_tftp_path, fmt_mac, default_script_path}

-- The path that is reached from a directory through some names, one below the other.
pub below : Str → List Str → Str
below path [] = path
below path (s ∷ segments) = below (push path s) segments

push_components-below :
    (path : Str) (cs : List Component) (p : Str)
    → All NormalIsName cs
    → push_components path cs ≡ some p
    → (segments : List Str) × (p ≡ below path segments) × All IsName segments
unfolding push_components below
push_components-below path [] p names h = ([], ground arith, tt)
push_components-below path (normal s ∷ cs) p names h =
    let (segments, e, all) = push_components-below (push path s) cs p names.1 h in
    (s ∷ segments, e, (names.0, all))
push_components-below path (cur_dir ∷ cs) p names h = push_components-below path cs p names.1 h
push_components-below path (parent_dir ∷ cs) p names h = absurd (ground arith)
push_components-below path (root_dir ∷ cs) p names h = absurd (ground arith)

-- A path that is accepted is reached from the root directory through names only, none of them
-- empty, a dot, two dots or with a slash in it.
pub sanitize_tftp_path-below :
    (root requested p : Str)
    → sanitize_tftp_path root requested ≡ some p
    → (segments : List Str) × (p ≡ below root segments) × All IsName segments
unfolding sanitize_tftp_path
sanitize_tftp_path-below root requested p h =
    push_components-below root (components requested) p (components-IsName requested) h

-- A path goes up or begins at the root directory.
abbrev pub Escapes : List Component → Type 0
Escapes [] = ⊥
Escapes (parent_dir ∷ cs) = Unit
Escapes (root_dir ∷ cs) = Unit
Escapes (cur_dir ∷ cs) = Escapes cs
Escapes (normal s ∷ cs) = Escapes cs

push_components-none :
    (path : Str) (cs : List Component) → (push_components path cs ≡ none) ↔ Escapes cs
unfolding push_components
push_components-none path [] = ((λ h. absurd (ground arith)), (λ e. absurd e))
push_components-none path (normal s ∷ cs) = push_components-none (push path s) cs
push_components-none path (cur_dir ∷ cs) = push_components-none path cs
push_components-none path (parent_dir ∷ cs) = ((λ h. tt), (λ e. refl))
push_components-none path (root_dir ∷ cs) = ((λ h. tt), (λ e. refl))

-- A path is refused exactly when one of its components is the parent directory or the root.
pub sanitize_tftp_path_refuses :
    (root requested : Str)
    → (sanitize_tftp_path root requested ≡ none) ↔ Escapes (components requested)
unfolding sanitize_tftp_path
sanitize_tftp_path_refuses root requested = push_components-none root (components requested)

hex_digit-ne : (n : ℕ) → hex_digit n ≢ slash
hex_digit-ne n = ground arith

hex_byte-Lacks : (b : ℕ) → Lacks slash (hex_byte b)
unfolding hex_byte
hex_byte-Lacks b = (hex_digit-ne (b / 16), (hex_digit-ne (b % 16), tt))

join-Lacks : (ps : List Str) → All (Lacks slash) ps → Lacks slash (join (str ":") ps)
unfolding join
join-Lacks [] h = tt
join-Lacks (p ∷ []) h = h.0
join-Lacks (p ∷ q ∷ ps) h =
    All-append (λ c. c ≢ slash) (p ++ str ":") (join (str ":") (q ∷ ps))
      (All-append (λ c. c ≢ slash) p (str ":") h.0 (omega arith)) (join-Lacks (q ∷ ps) h.1)

-- The file of a script, within the directory of the scripts.
pub script_name : Mac → Str
script_name mac = fmt_mac mac ++ str ".ipxe"

hex_bytes-Lacks : (bytes : List ℕ) → All (Lacks slash) (map hex_byte bytes)
hex_bytes-Lacks [] = tt
hex_bytes-Lacks (b ∷ bytes) = (hex_byte-Lacks b, hex_bytes-Lacks bytes)

script_name-Lacks : (mac : Mac) → Lacks slash (script_name mac)
unfolding script_name fmt_mac
script_name-Lacks mac =
    All-append (λ c. c ≢ slash) (fmt_mac mac) (str ".ipxe")
      (join-Lacks (map hex_byte (octets mac)) (hex_bytes-Lacks (octets mac))) (omega arith)

-- A piece of three bytes or more is a name.
piece_long : (a b c : ℕ) (s : Str) → piece_components (a ∷ b ∷ c ∷ s) ≡ normal (a ∷ b ∷ c ∷ s) ∷ []
unfolding piece_components bytes_beq
piece_long a b c s = ground arith

script_name-component :
    (mac : Mac) → piece_components (script_name mac) ≡ normal (script_name mac) ∷ []
unfolding script_name fmt_mac join hex_byte
script_name-component mac = piece_long _ _ _ _

script_pieces :
    (mac : Mac) → pieces_components (split slash (script_name mac)) ≡ normal (script_name mac) ∷ []
unfolding split pieces_components
script_pieces mac =
    rw (
      split_from_whole slash [] (script_name mac) (script_name-Lacks mac),
      script_name-component mac,
    )

script_components :
    (mac : Mac)
    → components (default_script_path mac) ≡ normal (str "scripts") ∷ normal (script_name mac) ∷ []
unfolding components relative_components split split_from default_script_path script_name bytes_beq
script_components mac = ap (◌∷◌ (normal (str "scripts"))) (script_pieces mac)

-- The path that is made up for a node that is not registered is accepted for every MAC address:
-- it is a file in the directory `scripts` of the root, named after the address.
pub sanitize_tftp_path-default_script_path :
    (root : Str) (mac : Mac)
    → sanitize_tftp_path root (default_script_path mac)
      ≡ some (push (push root (str "scripts")) (script_name mac))
unfolding sanitize_tftp_path push_components
sanitize_tftp_path-default_script_path root mac = rw (script_components mac)

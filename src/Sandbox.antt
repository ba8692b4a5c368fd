-- ===== src/Sandbox.antt =====
-- fileops.go: the sandbox of roots that every file operation passes. A clean absolute path, as
-- `filepath.Clean` and `filepath.Abs` give it, is the list of its names, the last name first: its
-- tail is `filepath.Dir`, its head `filepath.Base`, and the root is the empty list. The tests on
-- texts that the code makes are made on the text of such a path.
pub mod Names
pub mod Prefix
pub mod Escape
pub mod Leads
use remote_cli.Common.{
  ℕ, ◌+◌, Bool, true, false, not, ◌&&◌, ◌||◌, Option, none, some, List, [], ◌∷◌, ◌++◌, reverse,
  bytes_eq, codes, split, if◌then◌else◌, ◌==◌, zero, suc,
}

abbrev pub Name : Type 0
Name = List ℕ

abbrev pub FilePath : Type 0
FilePath = List Name

-- The names behind the first slash, each with the slash in front of it.
unfoldable pub slashed : FilePath → List ℕ
slashed [] = []
slashed (n ∷ parent) = slashed parent ++ b'/' ∷ n

-- The path as the code has it.
unfoldable pub text : FilePath → List ℕ
text [] = b'/' ∷ []
text (n ∷ parent) = slashed (n ∷ parent)

-- One element in `filepath.Clean` of an absolute path.
unfoldable pub enter : FilePath → Name → FilePath
enter at name =
    if bytes_eq name [] || bytes_eq name (codes ".")
    then at
    else if bytes_eq name (codes "..")
    then elim at [ [] ↦ [] | _ ∷ parent ↦ parent ]
    else name ∷ at

unfoldable pub enter_all : FilePath → List Name → FilePath
enter_all at [] = at
enter_all at (name ∷ names) = enter_all (enter at name) names

-- `filepath.Abs`: `cwd` is the working directory.
unfoldable pub absolute : FilePath → List ℕ → FilePath
absolute cwd [] = cwd
absolute cwd (c ∷ s) =
    if c == b'/' then enter_all [] (split b'/' s) else enter_all cwd (split b'/' (c ∷ s))

unfoldable pub has_prefix : List ℕ → List ℕ → Bool
has_prefix [] s = true
has_prefix (c ∷ p) [] = false
has_prefix (c ∷ p) (d ∷ s) = c == d && has_prefix p s

-- `prefix` of `underRoots`: only the text of `/` ends in a slash.
unfoldable pub root_prefix : FilePath → List ℕ
root_prefix [] = text []
root_prefix (n ∷ parent) = text (n ∷ parent) ++ b'/' ∷ []

unfoldable pub under_root : FilePath → FilePath → Bool
under_root path root = bytes_eq (text path) (text root) || has_prefix (root_prefix root) (text path)

-- `underRoots`
unfoldable pub under_roots : FilePath → List FilePath → Bool
under_roots path [] = false
under_roots path (root ∷ roots) = if under_root path root then true else under_roots path roots

-- What the file system says of a path: `filepath.EvalSymlinks`, and `os.Lstat` with `os.Readlink`.
pub data Evaluated : Type 0 where
  evaluated : FilePath → Evaluated
  missing eval_failed : Evaluated

pub data Link : Type 0 where
  no_link unreadable : Link
  target_at : List ℕ → Link

pub record Links : Type 0 where
  pub eval : FilePath → Evaluated
  pub link : FilePath → Link

pub data Resolved : Type 0 where
  resolved : FilePath → Resolved
  unresolved : Resolved

-- What `filepath.EvalSymlinks` gives stands, unless the path does not exist.
unfoldable pub unless_missing : Evaluated → Resolved → Resolved
unless_missing (evaluated real) otherwise = resolved real
unless_missing eval_failed otherwise = unresolved
unless_missing missing otherwise = otherwise

unfoldable pub below : Name → Resolved → Resolved
below name (resolved parent) = resolved (name ∷ parent)
below name unresolved = unresolved

abbrev pub max_symlink_hops : ℕ
max_symlink_hops = 40

unfoldable pub resolved_or : FilePath → Resolved → FilePath
resolved_or path (resolved real) = real
resolved_or path unresolved = path

pub data Validated : Type 0 where
  valid : FilePath → Validated
  empty_path escapes cannot_resolve leads_outside : Validated

-- The loop of `validateLinkPath`, and of `DeleteFile`, over the roots.
unfoldable pub is_root : FilePath → List FilePath → Bool
is_root abs [] = false
is_root abs (root ∷ roots) = if bytes_eq (text abs) (text root) then true else is_root abs roots

-- `filepath.Dir`
unfoldable pub dir : FilePath → FilePath
dir [] = []
dir (name ∷ parent) = parent

module _ (fs : Links) where
  -- The path that a dangling link leads to, and where to go on with it.
  unfoldable pub follow_link : (FilePath → Resolved) → FilePath → Link → Resolved → Resolved
  follow_link follow parent no_link up = up
  follow_link follow parent unreadable up = unresolved
  follow_link follow parent (target_at target) up = follow (absolute parent target)

  -- `resolvePath`, where `follow` is its call for the target of a dangling link.
  unfoldable pub resolve_with : (FilePath → Resolved) → FilePath → Resolved
  resolve_with follow [] =
      unless_missing (fs.eval []) (follow_link follow [] (fs.link []) (resolved []))
  resolve_with follow (name ∷ parent) =
      let up = resolve_with follow parent in
      unless_missing (fs.eval (name ∷ parent))
        (follow_link follow parent (fs.link (name ∷ parent)) (below name up))

  -- `resolvePath`, with the number of hops that are left.
  unfoldable pub resolve_path : ℕ → FilePath → Resolved
  resolve_path zero = resolve_with (λ _. unresolved)
  resolve_path (suc left) = resolve_with (resolve_path left)

  -- `resolveRoots`
  unfoldable pub resolve_roots : List FilePath → List FilePath
  resolve_roots [] = []
  resolve_roots (root ∷ roots) =
      resolved_or root (resolve_path max_symlink_hops root) ∷ resolve_roots roots

  -- `validatePath` behind the test of the path as it is written.
  unfoldable pub check_real : FilePath → List FilePath → Resolved → Validated
  check_real abs roots unresolved = cannot_resolve
  check_real abs roots (resolved real) =
      if not (bytes_eq (text real) (text abs)) && not (under_roots real (resolve_roots roots))
      then leads_outside
      else valid abs

  -- `validatePath`
  unfoldable pub validate_path : FilePath → List ℕ → List FilePath → Validated
  validate_path cwd [] roots = empty_path
  validate_path cwd (c ∷ s) [] = valid (absolute cwd (c ∷ s))
  validate_path cwd (c ∷ s) (root ∷ roots) =
      let abs = absolute cwd (c ∷ s) in
      if not (under_roots abs (root ∷ roots))
      then escapes
      else check_real abs (root ∷ roots) (resolve_path max_symlink_hops abs)

  unfoldable pub check_parent : FilePath → List FilePath → Resolved → Validated
  check_parent abs roots unresolved = cannot_resolve
  check_parent abs roots (resolved parent) =
      if not (under_roots parent (resolve_roots roots)) then leads_outside else valid abs

  -- `validateLinkPath`
  unfoldable pub validate_link_path : FilePath → List ℕ → List FilePath → Validated
  validate_link_path cwd [] roots = empty_path
  validate_link_path cwd (c ∷ s) [] = valid (absolute cwd (c ∷ s))
  validate_link_path cwd (c ∷ s) (root ∷ roots) =
      let abs = absolute cwd (c ∷ s) in
      if not (under_roots abs (root ∷ roots))
      then escapes
      else if is_root abs (root ∷ roots)
      then valid abs
      else check_parent abs (root ∷ roots) (resolve_path max_symlink_hops (dir abs))

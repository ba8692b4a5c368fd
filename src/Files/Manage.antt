-- ===== src/Files/Manage.antt =====
-- manageops.go: moving, copying and deleting files, and making directories.
pub mod Safety
pub mod Overwrite
use remote_cli.Files.{
  FileError, refused, not_exist, os_failed, Outcome, done, failed, Info, is_dir, is_regular,
  is_symlink, Host, Op, go_on, ◌>>=◌, return, fail, look, require, allowed, checked, parse_mode,
  blank,
}
use remote_cli.Common.{
  ℕ, ◌+◌, Bool, true, false, not, ◌&&◌, ◌||◌, Option, none, some, List, [], ◌∷◌, ◌++◌, String,
  if◌then◌else◌, length, ◌==◌, leb, ltb, map, bytes_eq, take,
}
use remote_cli.ReadOnly.{Process, guard_read_only, trim_left}
use remote_cli.Sandbox.{Name, FilePath, text, validate_path, validate_link_path, is_root, dir}

pub record MoveFileRequest : Type 0 where
  pub src : List ℕ
  pub dst : List ℕ
  pub overwrite : Bool

pub record MoveFileResult : Type 0 where
  pub src : FilePath
  pub dst : FilePath
  pub moved : Bool
  pub overwritten : Bool

pub record CopyFileRequest : Type 0 where
  pub src : List ℕ
  pub dst : List ℕ
  pub overwrite : Bool

pub record CopyFileResult : Type 0 where
  pub src : FilePath
  pub dst : FilePath
  pub copied : Bool
  pub bytes_copied : ℕ
  pub entries_copied : ℕ
  pub overwritten : Bool

pub record DeleteFileRequest : Type 0 where
  pub path : List ℕ
  pub recursive : Bool
  pub confirm : Bool
  pub dry_run : Bool

pub record DeleteFileResult : Type 0 where
  pub path : FilePath
  pub deleted : Bool
  pub dry_run : Bool
  pub entries : ℕ
  pub sample : List FilePath
  pub is_dir : Bool

pub record MakeDirRequest : Type 0 where
  pub path : List ℕ
  pub mode : List ℕ
  pub parents : Bool

pub record MakeDirResult : Type 0 where
  pub path : FilePath
  pub created : Bool
  pub mode : Option ℕ

abbrev pub delete_sample_limit : ℕ
delete_sample_limit = 100

-- A call succeeds.
unfoldable pub exists : {A : Type 0} → Outcome A → Bool
exists (done _) = true
exists (failed _) = false

-- What a walk below a directory visits, without the directory itself.
unfoldable pub visited : FilePath → List FilePath → List FilePath
visited abs [] = []
visited abs (p ∷ ps) =
    let rest = visited abs ps in if bytes_eq (text p) (text abs) then rest else p ∷ rest

-- A directory that cannot be listed passes for an empty one.
unfoldable pub not_empty : Outcome (List Name) → Bool
not_empty (done []) = false
not_empty (done (_ ∷ _)) = true
not_empty (failed e) = false

-- The permission bits that a result tells, if the file can be looked at.
unfoldable pub permissions : Outcome Info → Option ℕ
permissions (done info) = some (info.perm)
permissions (failed e) = none

module _ {D : Type 0} (os : Host D) where
  -- `copyOneFile`: the source is read once the destination is open, and so truncated.
  unfoldable pub copy_one_file : FilePath → FilePath → Op D ℕ
  copy_one_file src dst = do
    info ← look (λ d. os.stat d src)
    _ ← look (λ _. require (is_regular info) (refused "not a regular file"))
    _ ← look (λ d. os.open_read d src)
    _ ← λ d. os.open_truncate d dst (info.perm)
    λ d. os.copy d src dst

  -- A call whose error is dropped.
  unfoldable pub ignore_error : Outcome Unit × D → Outcome Unit × D
  ignore_error (r, d) = (done tt, d)

  -- One call of the function that `copyDirRecursive` gives to `filepath.Walk`.
  unfoldable pub copy_entry : FilePath → FilePath → List Name → Info → Op D Unit
  copy_entry src dst rel info =
      if is_dir info
      then (λ d. os.mkdir_all d (rel ++ dst) (info.perm))
      else if is_symlink info
      then (do
        link ← look (λ d. os.readlink d (rel ++ src))
        _ ← λ d. ignore_error (os.remove d (rel ++ dst))
        λ d. os.make_link d link (rel ++ dst))
      else (do _ ← copy_one_file (rel ++ src) (rel ++ dst); return tt)

  unfoldable pub copy_entries : FilePath → FilePath → List (Outcome (List Name × Info)) → ℕ → Op D ℕ
  copy_entries src dst [] count = return count
  copy_entries src dst (failed e ∷ entries) count = fail e
  copy_entries src dst (done (rel, info) ∷ entries) count = do
    _ ← copy_entry src dst rel info
    copy_entries src dst entries (count + 1)

  -- `copyDirRecursive`, where the walk visits what is there when it starts.
  unfoldable pub copy_dir_recursive : FilePath → FilePath → Op D ℕ
  copy_dir_recursive src dst d = copy_entries src dst (os.walk d src) 0 d

  -- The branches of `MoveFile` across file systems.
  unfoldable pub move_across : FilePath → FilePath → Info → Op D Unit
  move_across src dst info =
      if is_symlink info
      then (do
        target ← look (λ d. os.readlink d src)
        _ ← λ d. os.make_link d target dst
        λ d. os.remove d src)
      else if is_dir info
      then (do _ ← copy_dir_recursive src dst; λ d. os.remove_all d src)
      else (do _ ← copy_one_file src dst; λ d. os.remove d src)

  unfoldable pub rename_or_copy : FilePath → FilePath → Outcome Unit × D → Outcome Unit × D
  rename_or_copy src dst (done u, d) = (done tt, d)
  rename_or_copy src dst (failed e, d) = go_on (move_across src dst) (os.lstat d src, d)

  -- The removal of an existing destination in `MoveFile`: whether there was one.
  unfoldable pub clear_destination : Bool → FilePath → Bool → Op D Bool
  clear_destination overwrite dst false = return false
  clear_destination false dst true = fail (refused "destination exists")
  clear_destination true dst true = do _ ← λ d. os.remove_all d dst; return true

  -- The copies of `CopyFile`, once its guards have passed.
  unfoldable pub copy_tree : FilePath → FilePath → Bool → Op D CopyFileResult
  copy_tree src dst there = do
    _ ← look (λ _. require (not there) (refused "destination directory exists"))
    n ← copy_dir_recursive src dst
    return (record {
      src = src;
      dst = dst;
      copied = true;
      bytes_copied = 0;
      entries_copied = n;
      overwritten = false;
    })

  unfoldable pub copy_single : FilePath → FilePath → Bool → Op D CopyFileResult
  copy_single src dst there = do
    n ← copy_one_file src dst
    return (record {
      src = src;
      dst = dst;
      copied = true;
      bytes_copied = n;
      entries_copied = 0;
      overwritten = there;
    })

  -- The result of `DeleteFile` before anything is deleted.
  unfoldable pub affected : D → FilePath → Info → Bool → DeleteFileResult
  affected d abs info dry_run =
      let below = visited abs (os.walk_dir d abs) in
      if is_dir info
      then record {
        path = abs;
        deleted = false;
        dry_run = dry_run;
        entries = length below;
        sample = take delete_sample_limit below;
        is_dir = true;
      }
      else record {
        path = abs;
        deleted = false;
        dry_run = dry_run;
        entries = 1;
        sample = abs ∷ [];
        is_dir = false;
      }

  -- The end of `DeleteFile`.
  unfoldable pub delete_now :
      FilePath → DeleteFileRequest → DeleteFileResult → Op D DeleteFileResult
  delete_now abs req result =
      if req.dry_run
      then return result
      else if not (req.confirm)
      then fail (refused "confirm=true is required to delete")
      else (do _ ← λ d. os.remove_all d abs; return (record result { deleted = true }))

  -- The end of `MakeDir`: a directory that is there stays as it is.
  unfoldable pub make_missing : FilePath → Bool → ℕ → Outcome Info → Op D MakeDirResult
  make_missing abs parents mode (done info) =
      if not (is_dir info)
      then fail (refused "path exists and is not a directory")
      else return (record { path = abs; created = false; mode = some (info.perm) })
  make_missing abs parents mode (failed e) = do
    _ ← λ d. if parents then os.mkdir_all d abs mode else os.mkdir d abs mode
    λ d. (done (record { path = abs; created = true; mode = permissions (os.stat d abs) }), d)

  module _ (process : Process) (cwd : FilePath) (roots : List FilePath) where
    unfoldable pub guarded : String → Op D Unit
    guarded op = look (λ _. allowed (guard_read_only process op))

    -- `validatePath` and `validateLinkPath`, for the links on the disk.
    unfoldable pub path_in : List ℕ → Op D FilePath
    path_in path = look (λ d. checked (validate_path (os.links d) cwd path roots))

    unfoldable pub link_path_in : List ℕ → Op D FilePath
    link_path_in path = look (λ d. checked (validate_link_path (os.links d) cwd path roots))

    -- `MoveFile` behind the tests of the paths.
    unfoldable pub move_between : MoveFileRequest → FilePath → FilePath → Op D MoveFileResult
    move_between req src dst = do
      _ ← look (λ d. os.lstat d src)
      there ← look (λ d. done (exists (os.lstat d dst)))
      overwritten ← clear_destination (req.overwrite) dst there
      _ ← λ d. rename_or_copy src dst (os.rename d src dst)
      return (record { src = src; dst = dst; moved = true; overwritten = overwritten })

    -- `MoveFile`
    unfoldable pub move_file : MoveFileRequest → Op D MoveFileResult
    move_file req = do
      _ ← guarded "move_file"
      src ← link_path_in (req.src)
      dst ← path_in (req.dst)
      move_between req src dst

    -- `CopyFile` behind the tests of the paths.
    unfoldable pub copy_between : CopyFileRequest → FilePath → FilePath → Op D CopyFileResult
    copy_between req src dst = do
      info ← look (λ d. os.lstat d src)
      there ← look (λ d. done (exists (os.lstat d dst)))
      _ ← look (λ _. require (not there || req.overwrite) (refused "destination exists"))
      if is_dir info then copy_tree src dst there else copy_single src dst there

    -- `CopyFile`
    unfoldable pub copy_file : CopyFileRequest → Op D CopyFileResult
    copy_file req = do
      _ ← guarded "copy_file"
      src ← path_in (req.src)
      dst ← path_in (req.dst)
      copy_between req src dst

    -- `DeleteFile` behind the tests of the path.
    unfoldable pub delete_at : DeleteFileRequest → FilePath → Op D DeleteFileResult
    delete_at req abs = do
      _ ←
          look (λ _.
            require (not (is_root abs roots)) (refused "refusing to delete an FS root itself"))
      info ← look (λ d. os.lstat d abs)
      _ ← look (λ d.
          require (not (is_dir info && not_empty (os.read_dir d abs) && not (req.recursive)))
            (refused "directory is not empty"))
      result ← look (λ d. done (affected d abs info (req.dry_run)))
      delete_now abs req result

    -- `DeleteFile`
    unfoldable pub delete_file : DeleteFileRequest → Op D DeleteFileResult
    delete_file req = do _ ← guarded "delete_file"; abs ← link_path_in (req.path); delete_at req abs

    -- `MakeDir`; 493 is 0755.
    unfoldable pub make_dir : MakeDirRequest → Op D MakeDirResult
    make_dir req = do
      _ ← guarded "make_dir"
      abs ← path_in (req.path)
      parsed ← look (λ _. parse_mode (req.mode))
      info ← look (λ d. done (os.stat d abs))
      make_missing abs (req.parents) (if blank (req.mode) then 493 else parsed) info

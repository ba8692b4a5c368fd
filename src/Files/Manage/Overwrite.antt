-- ===== src/Files/Manage/Overwrite.antt =====
-- manageops.go: what moving and copying take.
use remote_cli.Files.{
  FileError, done, failed, return, Op, Info, is_dir, Host, go_on, require, allowed, checked,
}
use remote_cli.Files.Steps.{Outcome-cases, allowed_lem, checked_lem}
use remote_cli.Files.Manage.{
  MoveFileRequest, MoveFileResult, move_across, rename_or_copy, CopyFileRequest, exists, copy_tree,
  copy_between, copy_file, guarded, path_in,
}
use remote_cli.Common.{
  Bool, true, false, not, ◌&&◌, ◌||◌, List, if◌then◌else◌, ◌≡◌, refl, ◌⊎◌, inl, inr, Bool-cases,
}
use remote_cli.ReadOnly.{Process, guard_read_only}
use remote_cli.Sandbox.{FilePath, valid, validate_path, validate_link_path}

module _ {D : Type 0} (os : Host D) (process : Process) (cwd : FilePath)
    (roots : List FilePath) where
  -- The disk behind the removal of a destination that was there.
  abbrev pub ClearOf : D → FilePath → D
  ClearOf d dst = if exists (os.lstat d dst) then (os.remove_all d dst).1 else d

  -- The only changes: the destination is removed, the source renamed onto it, and where that fails
  -- copied across and then removed.
  abbrev pub MovedTo : D → FilePath → FilePath → D → Type 0
  MovedTo d src dst after =
      ((e : FileError) × (exists (os.lstat d dst) ≡ true)
        × ((os.remove_all d dst).0 ≡ failed e)
        × (after ≡ (os.remove_all d dst).1))
      ⊎ (((os.rename (ClearOf d dst) src dst).0 ≡ done tt)
          × (after ≡ (os.rename (ClearOf d dst) src dst).1))
      ⊎ ((e : FileError) × ((os.rename (ClearOf d dst) src dst).0 ≡ failed e)
          × (after
              ≡ (go_on (move_across os src dst) (
                os.lstat (os.rename (ClearOf d dst) src dst).1 src,
                (os.rename (ClearOf d dst) src dst).1,
              )).1))

  -- What was asked for and found before anything was moved, and what was then done.
  abbrev pub MoveAllowed : MoveFileRequest → D → D → Type 0
  MoveAllowed req d after =
      (src : FilePath) × (dst : FilePath) × (process.latch ≡ false)
      × (validate_link_path (os.links d) cwd (req.src) roots ≡ valid src)
      × (validate_path (os.links d) cwd (req.dst) roots ≡ valid dst)
      × (exists (os.lstat d src) ≡ true)
      × ((exists (os.lstat d dst) && not (req.overwrite)) ≡ false)
      × MovedTo d src dst after

  -- The end of the move, behind the removal of the destination.
  abbrev Ended : MoveFileRequest → FilePath → FilePath → Bool → Op D MoveFileResult
  Ended req src dst overwritten d =
      go_on
        (λ (_ : Unit).
          return (record { src = src; dst = dst; moved = true; overwritten = overwritten }))
        (rename_or_copy os src dst (os.rename d src dst))

  abbrev pub CopyAllowed : CopyFileRequest → D → Type 0
  CopyAllowed req d =
      (src : FilePath) × (dst : FilePath) × (info : Info) × (process.latch ≡ false)
      × (validate_path (os.links d) cwd (req.src) roots ≡ valid src)
      × (validate_path (os.links d) cwd (req.dst) roots ≡ valid dst)
      × (os.lstat d src ≡ done info)
      × ((exists (os.lstat d dst) && (is_dir info || not (req.overwrite))) ≡ false)

  copy_between-CopyAllowed :
      (req : CopyFileRequest) (d : D) (src dst : FilePath)
      → process.latch ≡ false
      → validate_path (os.links d) cwd (req.src) roots ≡ valid src
      → validate_path (os.links d) cwd (req.dst) roots ≡ valid dst
      → ((copy_between os process cwd roots req src dst d).1 ≡ d) ⊎ CopyAllowed req d
  unfolding copy_between copy_tree go_on require
  copy_between-CopyAllowed req d src dst latch from into = elim (Outcome-cases (os.lstat d src)) [
    | inl (_, o) ↦ rw o (inl refl)
    | inr (info, o) ↦ elim (Bool-cases (exists (os.lstat d dst))) [
      | inr t ↦ inr (src, dst, info, latch, from, into, o, rw t refl)
      | inl t ↦ elim (Bool-cases (req.overwrite)) [
        | inr w ↦ inl (rw (o, t, w) refl)
        | inl w ↦ elim (Bool-cases (is_dir info)) [
          | inl y ↦ inl (rw (o, t, w, y) refl)
          | inr y ↦ inr (src, dst, info, latch, from, into, o, rw (t, w, y) refl)
        ]
      ]
    ]
  ]

  -- A call of `remote_copy_file` leaves the disk as it is, unless read-only mode is off, both paths
  -- passed the sandbox, the source was there, and the destination was not there, or was with
  -- overwrite and a source that is no directory.
  pub copy_file-CopyAllowed :
      (req : CopyFileRequest) (d : D)
      → ((copy_file os process cwd roots req d).1 ≡ d) ⊎ CopyAllowed req d
  unfolding copy_file guarded path_in go_on
  copy_file-CopyAllowed req d =
      elim (Outcome-cases (allowed (guard_read_only process "copy_file"))) [
        | inl (_, o) ↦ rw o (inl refl)
        | inr (_, o) ↦
            elim (Outcome-cases (checked (validate_path (os.links d) cwd (req.src) roots))) [
              | inl (_, p) ↦ rw (o, p) (inl refl)
              | inr (src, p) ↦
                  elim (Outcome-cases (checked (validate_path (os.links d) cwd (req.dst) roots))) [
                    | inl (_, q) ↦ rw (o, p, q) (inl refl)
                    | inr (dst, q) ↦
                        elim (copy_between-CopyAllowed req d src dst (allowed_lem process _ _ o)
                          (checked_lem _ src p) (checked_lem _ dst q)) [
                            | inl same ↦ inl (rw (o, p, q) same)
                            | inr ok ↦ inr ok
                          ]
                  ]
            ]
      ]

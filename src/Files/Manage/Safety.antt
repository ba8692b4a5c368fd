-- ===== src/Files/Manage/Safety.antt =====
-- manageops.go: what deleting takes.
use remote_cli.Files.{
  Outcome, done, failed, Info, is_dir, Host, go_on, return, require, allowed, checked,
}
use remote_cli.Files.Steps.{Outcome-cases, allowed_lem, checked_lem}
use remote_cli.Files.Manage.{
  DeleteFileRequest, DeleteFileResult, affected, delete_at, not_empty, delete_now, delete_file,
  guarded, link_path_in,
}
use remote_cli.Common.{
  Bool, true, false, not, ◌&&◌, List, [], ◌∷◌, ◌≡◌, refl, ◌⊎◌, inl, inr, Bool-cases,
}
use remote_cli.ReadOnly.{Process, guard_read_only}
use remote_cli.Sandbox.{Name, FilePath, valid, validate_link_path, is_root}
use remote_cli.Sandbox.Leads.{OneOf, not_root}

abbrev reports_deleted : Outcome DeleteFileResult → Bool
reports_deleted (done r) = r.deleted
reports_deleted (failed e) = false

module _ {D : Type 0} (os : Host D) (process : Process) (cwd : FilePath)
    (roots : List FilePath) where
  -- Nothing is deleted, and no result says so.
  abbrev pub Untouched : D → Outcome DeleteFileResult × D → Type 0
  Untouched d out = (out.1 ≡ d) × (reports_deleted (out.0) ≡ false)

  -- What was asked for and found before a tree was removed.
  abbrev pub Licensed : DeleteFileRequest → D → Outcome DeleteFileResult × D → Type 0
  Licensed req d out =
      (abs : FilePath) × (info : Info) × (process.latch ≡ false)
      × (validate_link_path (os.links d) cwd (req.path) roots ≡ valid abs)
      × (OneOf abs roots → ⊥)
      × (os.lstat d abs ≡ done info)
      × ((names : List Name)
          → is_dir info ≡ true
          → os.read_dir d abs ≡ done names
          → req.recursive ≡ false
          → names ≡ [])
      × (req.confirm ≡ true)
      × (req.dry_run ≡ false)
      × (out.1 ≡ (os.remove_all d abs).1)

  negated : (b : Bool) → not b ≡ true → b ≡ false
  negated false h = refl
  negated true h = absurd (cc)

  affected-deleted :
      (d : D) (abs : FilePath) (info : Info) (dry : Bool)
      → (affected os d abs info dry).deleted ≡ false
  unfolding affected
  affected-deleted d abs info dry = elim (Bool-cases (is_dir info)) [
    | inl e ↦ rw e refl
    | inr e ↦ rw e refl
  ]

  -- The test of the names in a directory.
  empty :
      (info : Info) (o : Outcome (List Name)) (recursive : Bool)
      → (is_dir info && not_empty o && not recursive) ≡ false
      → (names : List Name) → is_dir info ≡ true
      → o ≡ done names
      → recursive ≡ false
      → names ≡ []
  unfolding not_empty
  empty info o recursive h [] dir listed flat = refl
  empty info o recursive h (n ∷ names) dir listed flat =
      let full : true ≡ false = rw (dir, listed, flat) at h in absurd (cc)

  -- Past the tests of the path.
  abbrev Removal : DeleteFileRequest → D → FilePath → Outcome DeleteFileResult × D → Type 0
  Removal req d abs out =
      (req.confirm ≡ true) × (req.dry_run ≡ false) × (out.1 ≡ (os.remove_all d abs).1)

  go_on-disk : (k : DeleteFileResult) (r : Outcome Unit × D) → (go_on (λ _. return k) r).1 ≡ r.1
  unfolding go_on
  go_on-disk k (done u, d) = refl
  go_on-disk k (failed e, d) = refl

  delete_now-safe :
      (abs : FilePath) (req : DeleteFileRequest) (result : DeleteFileResult) (d : D)
      → result.deleted ≡ false
      → Untouched d (delete_now os abs req result d)
        ⊎ Removal req d abs (delete_now os abs req result d)
  unfolding delete_now
  delete_now-safe abs req result d h = elim (Bool-cases (req.dry_run)) [
    | inl e ↦ inl (rw e (refl, h))
    | inr e ↦ elim (Bool-cases (req.confirm)) [
      | inl c ↦ inr (c, e, rw (e, c) (go_on-disk _ (os.remove_all d abs)))
      | inr c ↦ inl (rw (e, c) (refl, refl))
    ]
  ]

  past_path :
      (req : DeleteFileRequest) (d : D) (abs : FilePath)
      → process.latch ≡ false
      → validate_link_path (os.links d) cwd (req.path) roots ≡ valid abs
      → Untouched d (delete_at os process cwd roots req abs d)
        ⊎ Licensed req d (delete_at os process cwd roots req abs d)
  unfolding delete_at go_on require
  past_path req d abs latch path = elim (Bool-cases (is_root abs roots)) [
    | inl r ↦ rw r (inl (refl, refl))
    | inr r ↦ rw r (elim (Outcome-cases (os.lstat d abs)) [
      | inl (_, o) ↦ rw o (inl (refl, refl))
      | inr (info, o) ↦
          rw o
            (elim (Bool-cases
              (is_dir info && not_empty (os.read_dir d abs) && not (req.recursive))) [
                | inl b ↦ rw b (inl (refl, refl))
                | inr b ↦
                    rw b
                      (elim (delete_now-safe abs req (affected os d abs info (req.dry_run)) d
                        (affected-deleted d abs info (req.dry_run))) [
                          | inl same ↦ inl same
                          | inr (c, e, gone) ↦ inr (
                            abs,
                            info,
                            latch,
                            path,
                            not_root abs roots r,
                            o,
                            empty info (os.read_dir d abs) (req.recursive) b,
                            c,
                            e,
                            gone,
                          )
                        ])
              ])
    ])
  ]

  -- A call of `remote_delete_file` either leaves the disk as it is and does not say that anything
  -- was deleted, or it removes the tree at one path, and then: read-only mode is off, the path
  -- passed `validateLinkPath` and is none of the roots, it was there, the call had confirm and not
  -- dry_run, and a directory that lists any names was only removed with recursive.
  pub delete_file-Licensed :
      (req : DeleteFileRequest) (d : D)
      → Untouched d (delete_file os process cwd roots req d)
        ⊎ Licensed req d (delete_file os process cwd roots req d)
  unfolding delete_file guarded link_path_in go_on
  delete_file-Licensed req d =
      elim (Outcome-cases (allowed (guard_read_only process "delete_file"))) [
        | inl (_, o) ↦ rw o (inl (refl, refl))
        | inr (_, o) ↦
            rw o
              (elim (Outcome-cases
                (checked (validate_link_path (os.links d) cwd (req.path) roots))) [
                  | inl (_, p) ↦ rw p (inl (refl, refl))
                  | inr (abs, p) ↦
                      rw p (past_path req d abs (allowed_lem process _ _ o) (checked_lem _ abs p))
                ])
      ]

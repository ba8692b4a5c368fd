-- ===== src/Files/Edit/Atomic.antt =====
-- fileops.go: what a call of `EditFileContent` does to the disk.
use remote_cli.Files.{FileError, Outcome, done, failed, Host, go_on, allowed, checked}
use remote_cli.Files.Steps.{Outcome-cases, allowed_lem, checked_lem}
use remote_cli.Files.Manage.{guarded, path_in}
use remote_cli.Files.Edit.{
  EditPair, EditFileRequest, EditFileResult, Edited, Codecs, Regexps, apply_edits, apply_edit,
  after_edit, note_change, requested_edits, chosen_encoding, mode_or_default, edit_result,
  write_edited, edited_content, edit_file_content,
}
use remote_cli.Common.{
  ℕ, ◌+◌, Bool, true, false, List, [], ◌∷◌, String, none, ◌≡◌, refl, sym, ap, ◌∙◌, ◌⊎◌, inl, inr,
}
use remote_cli.ReadOnly.{Process, guard_read_only}
use remote_cli.Sandbox.{FilePath, valid, validate_path}

done-injective : {A : Type 0} (a b : A) → done a ≡ done b → a ≡ b
done-injective a b h = cc

module _ {D : Type 0} (os : Host D) (codecs : Codecs) (regexps : Regexps) (process : Process)
    (cwd : FilePath) (roots : List FilePath) where
  -- Every edit succeeded on the text that the one before it left.
  abbrev pub EachApplied : Bool → ℕ → List EditPair → List ℕ → List ℕ → Type 0
  EachApplied use_regex i [] text updated = text ≡ updated
  EachApplied use_regex i (e ∷ edits) text updated =
      (next : List ℕ) × (n : ℕ) × (apply_edit regexps use_regex i text e ≡ done (next, n))
      × EachApplied use_regex (i + 1) edits next updated

  apply_edits-EachApplied :
      (use_regex : Bool) (edits : List EditPair) (i : ℕ) (at after : Edited)
      → apply_edits regexps use_regex i edits at ≡ done after
      → EachApplied use_regex i edits (at.updated) (after.updated)
  unfolding apply_edits after_edit note_change
  apply_edits-EachApplied use_regex [] i at after h =
      ap (λ (x : Edited). x.updated) (done-injective at after h)
  apply_edits-EachApplied use_regex (e ∷ edits) i at after h =
      elim (Outcome-cases (apply_edit regexps use_regex i (at.updated) e)) [
        | inl (why, o) ↦ let no : failed why ≡ done after = rw o at h in absurd (cc)
        | inr ((next, n), o) ↦ (
          next,
          n,
          o,
          apply_edits-EachApplied use_regex edits (i + 1) (note_change i e at (next, n)) after
              (rw o at h),
        )
      ]

  -- The whole edit, read off the disk: the path passed the sandbox, the file was read and decoded,
  -- and every edit was applied to its text.
  abbrev pub AllApplied : EditFileRequest → D → FilePath → String → Edited → Type 0
  AllApplied req d abs encoding at =
      (content : List ℕ) × (text : List ℕ) × (edits : List EditPair) × (process.latch ≡ false)
      × (validate_path (os.links d) cwd (req.path) roots ≡ valid abs)
      × (requested_edits req ≡ done edits)
      × (os.read_file d abs ≡ done content)
      × (encoding ≡ chosen_encoding (req.encoding) (codecs.detect content))
      × (codecs.decode content encoding ≡ done text)
      × EachApplied (req.use_regex) 1 edits text (at.updated)

  edited_content-ends :
      (req : EditFileRequest) (d : D)
      → ((e : FileError) × (edited_content os codecs regexps process cwd roots req d
            ≡ (failed e, d)))
        ⊎ ((abs : FilePath) × (encoding : String) × (at : Edited) × (edited_content os codecs
                regexps process cwd roots req d
              ≡ (done (abs, encoding, at), d))
            × AllApplied req d abs encoding at)
  unfolding edited_content guarded path_in go_on
  edited_content-ends req d = elim (Outcome-cases (allowed (guard_read_only process "edit_file"))) [
    | inl (e, o) ↦ inl (e, rw o refl)
    | inr (_, o) ↦
        elim (Outcome-cases (checked (validate_path (os.links d) cwd (req.path) roots))) [
          | inl (e, p) ↦ inl (e, rw (o, p) refl)
          | inr (abs, p) ↦ elim (Outcome-cases (requested_edits req)) [
            | inl (e, q) ↦ inl (e, rw (o, p, q) refl)
            | inr (edits, q) ↦ elim (Outcome-cases (os.read_file d abs)) [
              | inl (e, r) ↦ inl (e, rw (o, p, q, r) refl)
              | inr (content, r) ↦
                  elim (Outcome-cases (
                    codecs.decode content
                      (chosen_encoding (req.encoding) (codecs.detect content)))) [
                        | inl (e, t) ↦ inl (e, rw (o, p, q, r, t) refl)
                        | inr (text, t) ↦
                            elim (Outcome-cases (
                              apply_edits regexps (req.use_regex) 1 edits
                                (record { updated = text; total = 0; changes = [] }))) [
                                  | inl (e, u) ↦ inl (e, rw (o, p, q, r, t, u) refl)
                                  | inr (at, u) ↦ inr (
                                    abs,
                                    chosen_encoding (req.encoding) (codecs.detect content),
                                    at,
                                    rw (o, p, q, r, t, u) refl,
                                    (
                                      content,
                                      text,
                                      edits,
                                      allowed_lem process _ _ o,
                                      checked_lem _ abs p,
                                      q,
                                      r,
                                      refl,
                                      t,
                                      apply_edits-EachApplied (req.use_regex) edits 1 _ at u,
                                    ),
                                  )
                                ]
                      ]
            ]
          ]
        ]
  ]

  abbrev pub OneWrite : EditFileRequest → D → D → Type 0
  OneWrite req d after =
      (abs : FilePath) × (encoding : String) × (at : Edited) × (out : List ℕ) × AllApplied req d abs
        encoding at
      × (req.dry_run ≡ false)
      × (codecs.encode (at.updated) encoding ≡ done out)
      × (after ≡ (os.write_file d abs out (mode_or_default (os.stat d abs))).1)

  -- What a dry run tells: the path, the encoding, and the changes with their counts.
  abbrev pub preview_of : EditFileResult → EditFileResult
  preview_of r = record r { dry_run = true; sha256 = []; mode = none }

  failed_done :
      (e : FileError) (r : EditFileResult) (d d' : D)
      → ◌≡◌ {A = Outcome EditFileResult × D} (failed e, d) (done r, d')
      → ⊥
  failed_done e r d d' h =
      let no : failed e ≡ done r = ap (λ (o : Outcome EditFileResult × D). o.0) h in cc

  finished :
      (k r : EditFileResult) (w : Outcome Unit × D) (d' : D)
      → go_on (λ (_ : Unit) (d : D). (done k, d)) w ≡ (done r, d')
      → k ≡ r
  unfolding go_on
  finished k r (done u, d) d' h =
      let same : done k ≡ done r = ap (λ (o : Outcome EditFileResult × D). o.0) h in cc
  finished k r (failed e, d) d' h = absurd (failed_done e r d d' h)

  write_edited-preview :
      (abs : FilePath) (encoding : String) (at : Edited) (d d' : D) (r : EditFileResult)
      → write_edited os codecs abs encoding false at d ≡ (done r, d')
      → preview_of r ≡ edit_result abs encoding true at
  unfolding write_edited go_on edit_result
  write_edited-preview abs encoding at d d' r h =
      elim (Outcome-cases (codecs.encode (at.updated) encoding)) [
        | inl (e, o) ↦ absurd (failed_done e r d d' (rw o at h))
        | inr (out, o) ↦ ap preview_of (
            sym (
              finished _ r (os.write_file d abs out (mode_or_default (os.stat d abs))) d'
                (rw o at h)))
      ]

  edited_content-dry_run :
      (req : EditFileRequest) (d : D)
      → edited_content os codecs regexps process cwd roots (record req { dry_run = true }) d
        ≡ edited_content os codecs regexps process cwd roots (record req { dry_run = false }) d
  unfolding edited_content requested_edits
  edited_content-dry_run req d = refl

  -- A dry run tells what the edit does: where a call succeeds, the same call with dry_run succeeds,
  -- leaves the disk as it is, and has the same path, encoding, replacements and changes.
  pub edit_file_content-dry_run :
      (req : EditFileRequest) (d d' : D) (r : EditFileResult)
      → edit_file_content os codecs regexps process cwd roots (record req { dry_run = false }) d
        ≡ (done r, d')
      → edit_file_content os codecs regexps process cwd roots (record req { dry_run = true }) d
        ≡ (done (preview_of r), d)
  unfolding edit_file_content go_on write_edited
  edit_file_content-dry_run req d d' r h =
      elim (edited_content-ends (record req { dry_run = false }) d) [
        | inl (e, o) ↦ absurd (failed_done e r d d' (rw o at h))
        | inr (abs, encoding, at, o, all) ↦ rw (edited_content-dry_run req d ∙ o) (
            ap (λ (k : EditFileResult). (done k, d))
              (sym (write_edited-preview abs encoding at d d' r (rw o at h))))
      ]

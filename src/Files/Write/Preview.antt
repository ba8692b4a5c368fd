-- ===== src/Files/Write/Preview.antt =====
-- fileops.go: what the dry run of a write tells, against the write.
use remote_cli.Files.{
  go_on, Op, read_only_mode, bad_path, refused, refused_edit, not_exist, os_failed, Outcome, done,
  failed, Info, is_dir, Host,
}
use remote_cli.Files.Manage.{guarded, path_in, exists}
use remote_cli.Files.Steps.{go_on-done, look-done}
use remote_cli.Files.Edit.{Codecs, chosen_encoding}
use remote_cli.Files.Transfer.{prepare_dir, store, is_created}
use remote_cli.Files.Write.{
  WriteFileRequest, WriteFileResult, UnifiedDiff, max_preview_file_bytes, with_note, preview_diff,
  preview_text, preview_decoded, preview_old, preview_start, preview_existing, preview_over,
  preview_write, write_now, write_file_content,
}
use remote_cli.Encoding.{looks_binary}
use remote_cli.Common.{
  ℕ, Bool, true, false, ◌||◌, List, [], ◌++◌, String, length, ltb, ◌==◌, ◌≡◌, refl, sym, ap, ◌∙◌,
  inl, inr, Bool-cases,
}
use remote_cli.ReadOnly.{Process}
use remote_cli.Sandbox.{FilePath, dir}

-- What the dry run and the write both know.
abbrev pub told : WriteFileResult → FilePath × Bool × String × List ℕ
told r = (r.path, r.created, r.encoding, r.sha256)

module _ (unified_diff : List ℕ → List ℕ → ℕ → UnifiedDiff) where
  told-preview_diff :
      (r : WriteFileResult) (old new : List ℕ) → told (preview_diff unified_diff r old new) ≡ told r
  unfolding preview_diff with_note
  told-preview_diff r old new = elim (Bool-cases (ltb max_preview_file_bytes (length new))) [
    | inl e ↦ rw e refl
    | inr e ↦ rw e refl
  ]

  told-preview_text :
      (req : WriteFileRequest) (r : WriteFileResult) (old : List ℕ)
      → told (preview_text unified_diff req r old) ≡ told r
  unfolding preview_text with_note
  told-preview_text req r old = elim (Bool-cases (req.append)) [
    | inl e ↦ rw e (told-preview_diff _ old (old ++ req.content))
    | inr e ↦ rw e (told-preview_diff r old (req.content))
  ]

  told-preview_decoded :
      (req : WriteFileRequest) (r : WriteFileResult) (o : Outcome (List ℕ))
      → told (preview_decoded unified_diff req r o) ≡ told r
  unfolding preview_decoded with_note
  told-preview_decoded req r (done old) = told-preview_text req r old
  told-preview_decoded req r (failed e) = refl

  told-preview_old :
      (codecs : Codecs) (req : WriteFileRequest) (r : WriteFileResult) (bytes old : List ℕ)
      → told (preview_old unified_diff codecs req r bytes old) ≡ told r
  unfolding preview_old with_note
  told-preview_old codecs req r bytes old = elim (Bool-cases (looks_binary old)) [
    | inl e ↦ rw e refl
    | inr e ↦ elim (Bool-cases (length old == 0)) [
      | inl z ↦ rw (e, z) (told-preview_text req _ [])
      | inr z ↦ rw (e, z) (told-preview_decoded req _ (codecs.decode old (codecs.detect old)))
    ]
  ]

done-injective : {A : Type 0} (a b : A) → done a ≡ done b → a ≡ b
done-injective a b h = cc

module _ {D : Type 0} (os : Host D) (codecs : Codecs)
    (unified_diff : List ℕ → List ℕ → ℕ → UnifiedDiff) where
  told-preview_existing :
      (req : WriteFileRequest) (r p : WriteFileResult) (bytes : List ℕ) (info : Info)
      (o : Outcome (List ℕ))
      → preview_existing os codecs unified_diff req r bytes info o ≡ done p
      → told p ≡ told r
  unfolding preview_existing with_note
  told-preview_existing req r p bytes info (failed e) h =
      elim (Bool-cases (ltb max_preview_file_bytes (info.size))) [
        | inl y ↦ ap told (sym (done-injective _ p (rw y at h)))
        | inr y ↦ let no : failed e ≡ done p = rw y at h in absurd (cc)
      ]
  told-preview_existing req r p bytes info (done old) h =
      elim (Bool-cases (ltb max_preview_file_bytes (info.size))) [
        | inl y ↦ ap told (sym (done-injective _ p (rw y at h)))
        | inr y ↦
            ap told (sym (done-injective _ p (rw y at h)))
            ∙ told-preview_old unified_diff codecs req r bytes old
      ]

  -- With the look at the file that the write takes too.
  told-preview_over :
      (req : WriteFileRequest) (abs : FilePath) (mode : ℕ) (r p : WriteFileResult) (bytes : List ℕ)
      (o : Outcome Info) (d : D) (c : Bool)
      → r.created ≡ false
      → preview_over os codecs unified_diff req abs mode r bytes o d ≡ done p
      → is_created o ≡ done c
      → told p ≡ (r.path, c, r.encoding, r.sha256)
  unfolding preview_over is_created
  told-preview_over req abs mode r p bytes (done info) d c old h new =
      elim (Bool-cases (is_dir info)) [
        | inl e ↦ let no : failed (refused "is a directory") ≡ done p = rw e at h in absurd (cc)
        | inr e ↦
            let same : false ≡ c = done-injective false c new in
            told-preview_existing req _ p bytes info (os.read_file d abs) (rw e at h)
            ∙ ap (λ b. (r.path, b, r.encoding, r.sha256)) (old ∙ same)
      ]
  told-preview_over req abs mode r p bytes (failed not_exist) d c old h new =
      elim (Bool-cases (req.make_dirs || exists (os.stat d (dir abs)))) [
        | inl e ↦
            let same : true ≡ c = done-injective true c new in
            ap told (sym (done-injective _ p (rw e at h)))
            ∙ told-preview_text unified_diff req _ []
            ∙ ap (λ b. (r.path, b, r.encoding, r.sha256)) same
        | inr e ↦
            let no : failed (refused "parent directory does not exist") ≡ done p = rw e at h in
            absurd (cc)
      ]
  told-preview_over req abs mode r p bytes (failed (os_failed n)) d c old h new = absurd (cc)
  told-preview_over req abs mode r p bytes (failed (read_only_mode m)) d c old h new = absurd (cc)
  told-preview_over req abs mode r p bytes (failed (bad_path v)) d c old h new = absurd (cc)
  told-preview_over req abs mode r p bytes (failed (refused m)) d c old h new = absurd (cc)
  told-preview_over req abs mode r p bytes (failed (refused_edit n m)) d c old h new = absurd (cc)

  told-preview_write :
      (req : WriteFileRequest) (abs : FilePath) (mode : ℕ) (d : D) (p : WriteFileResult) (d₁ : D)
      (bytes : List ℕ) (c : Bool)
      → codecs.encode (req.content) (chosen_encoding (req.encoding) "utf-8") ≡ done bytes
      → is_created (os.stat d abs) ≡ done c
      → preview_write os codecs unified_diff req abs mode d ≡ (done p, d₁)
      → (d₁ ≡ d) × (told p ≡ (abs, c, chosen_encoding (req.encoding) "utf-8", codecs.digest bytes))
  unfolding preview_write preview_start
  told-preview_write req abs mode d p d₁ bytes c coded new h =
      let (b, eb, h₁) = look-done _ _ d p d₁ h in
      let same : b ≡ bytes = done-injective b bytes (sym eb ∙ coded) in
      let out : preview_over os codecs unified_diff req abs mode
            (preview_start os codecs unified_diff req abs (chosen_encoding (req.encoding) "utf-8")
              b)
            b (os.stat d abs) d
          ≡ done p =
        ap (λ (o : Outcome WriteFileResult × D). o.0) h₁ in
      (
        sym (ap (λ (o : Outcome WriteFileResult × D). o.1) h₁),
        told-preview_over req abs mode _ p b (os.stat d abs) d c refl out new
            ∙ ap (λ x. (abs, c, chosen_encoding (req.encoding) "utf-8", codecs.digest x)) same,
      )

  told-write_now :
      (req : WriteFileRequest) (abs : FilePath) (mode : ℕ) (d : D) (w : WriteFileResult) (d' : D)
      → req.make_dirs ≡ false
      → write_now os codecs unified_diff req abs mode d ≡ (done w, d')
      → (bytes : List ℕ) × (c : Bool) × (codecs.encode
            (req.content)
            (chosen_encoding (req.encoding) "utf-8")
          ≡ done bytes)
        × (is_created (os.stat d abs) ≡ done c)
        × (told w ≡ (abs, c, chosen_encoding (req.encoding) "utf-8", codecs.digest bytes))
  unfolding write_now prepare_dir
  told-write_now req abs mode d w d' no_dirs h =
      let (u, d₁, e₁, h₁) = go_on-done _ (prepare_dir os codecs (req.make_dirs) abs d) w d' h in
      let ready : ◌≡◌ {A = Outcome Unit × D} (done tt, d) (done u, d₁) = rw no_dirs at e₁ in
      let unmoved : d₁ ≡ d = sym (ap (λ (o : Outcome Unit × D). o.1) ready) in
      let (c, new, h₂) = look-done _ _ d₁ w d' h₁ in
      let (bytes, coded, h₃) = look-done _ _ d₁ w d' h₂ in
      let (n, d₂, stored, h₄) =
        go_on-done _ (store os codecs (req.append) abs mode bytes d₁) w d' h₃ in
      let out = done-injective _ w (ap (λ (o : Outcome WriteFileResult × D). o.0) h₄) in
      (bytes, c, coded, ap (λ x. is_created (os.stat x abs)) (sym unmoved) ∙ new, ap told (sym out))

  -- Without `MakeDirs` a dry run leaves the disk as it is, and where it and the write from the
  -- same disk both succeed, it told the path, whether the file is created, the encoding and the
  -- checksum that the write returns.
  pub write_file_content-told :
      (process : Process) (cwd : FilePath) (roots : List FilePath) (req : WriteFileRequest)
      (d d₁ d' : D) (p w : WriteFileResult)
      → req.make_dirs ≡ false
      → write_file_content os codecs unified_diff process cwd roots
          (record req { dry_run = true })
          d
        ≡ (done p, d₁)
      → write_file_content os codecs unified_diff process cwd roots
          (record req { dry_run = false })
          d
        ≡ (done w, d')
      → (d₁ ≡ d) × (told p ≡ told w)
  unfolding write_file_content guarded path_in
  write_file_content-told process cwd roots req d d₁ d' p w no_dirs dry wet =
      let (u, ok, dry₁) = look-done _ _ d p d₁ dry in
      let (abs, at, dry₂) = look-done _ _ d p d₁ dry₁ in
      let (mode, parsed, dry₃) = look-done _ _ d p d₁ dry₂ in
      let (u', ok', wet₁) = look-done _ _ d w d' wet in
      let (abs', at', wet₂) = look-done _ _ d w d' wet₁ in
      let (mode', parsed', wet₃) = look-done _ _ d w d' wet₂ in
      let same_path : abs ≡ abs' = done-injective abs abs' (sym at ∙ at') in
      let (bytes, c, coded, new, told_w) =
        told-write_now (record req { dry_run = false }) abs' mode' d w d' no_dirs wet₃ in
      let new_here : is_created (os.stat d abs) ≡ done c =
        ap (λ x. is_created (os.stat d x)) same_path ∙ new in
      let (still, told_p) =
        told-preview_write (record req { dry_run = true }) abs mode d p d₁ bytes c coded new_here
          dry₃ in
      (
        still,
        told_p
            ∙ ap (λ x. (x, c, chosen_encoding (req.encoding) "utf-8", codecs.digest bytes))
                same_path
            ∙ sym told_w,
      )

  go_on-look :
      {A B : Type 0} (o : Outcome A) (k : A → Op D B) (d : D)
      → ((a : A) → (k a d).1 ≡ d)
      → (go_on k (o, d)).1 ≡ d
  unfolding go_on
  go_on-look (done a) k d h = h a
  go_on-look (failed e) k d h = refl

  -- A dry run of a write leaves the disk as it is, whatever is asked for and however it ends.
  pub write_file_content-dry_run :
      (process : Process) (cwd : FilePath) (roots : List FilePath) (req : WriteFileRequest) (d : D)
      → (write_file_content os codecs unified_diff process cwd roots
          (record req { dry_run = true })
          d).1
        ≡ d
  unfolding write_file_content guarded path_in preview_write
  write_file_content-dry_run process cwd roots req d =
      go_on-look _ _ d
        (λ _. go_on-look _ _ d (λ abs. go_on-look _ _ d (λ mode. go_on-look _ _ d (λ bytes. refl))))

-- ===== src/Files/Transfer/Chunks.antt =====
-- fileops.go: `UploadBase64` called chunk by chunk.
use remote_cli.Files.{Outcome, done, Host, Op, ◌>>=◌, return}
use remote_cli.Files.Steps.{go_on-done, look-done, checked_lem}
use remote_cli.Files.Manage.{guarded, path_in}
use remote_cli.Files.Edit.{Codecs}
use remote_cli.Files.Base64
use remote_cli.Files.Transfer.{
  UploadBase64Request, UploadBase64Result, decoded, prepare_dir, store, upload_base64,
}
use remote_cli.Common.{
  ℕ, ◌<◌, Bool, true, false, Option, none, some, List, [], ◌∷◌, ◌++◌, if◌then◌else◌, ◌≡◌, refl, sym,
  ap, ap₂, ◌∙◌, append-nil, append_assoc,
}
use remote_cli.Common.Sort.{All}
use remote_cli.ReadOnly.{Process}
use remote_cli.Sandbox.{FilePath, absolute}
use remote_cli.Sandbox.Escape.{validate_path-absolute}

-- What the operating system says of a file that is open: truncating leaves nothing in it, opening
-- to append leaves what was there, and writing adds behind it.
pub record FileLaws {D : Type 0} (os : Host D) : Type 0 where
  pub truncated :
      (d : D) (p : FilePath) (m : ℕ) (d' : D)
      → os.open_truncate d p m ≡ (done tt, d')
      → os.read_file d' p ≡ done []
  pub appended :
      (d : D) (p : FilePath) (m : ℕ) (d' : D) (s : List ℕ)
      → os.read_file d p ≡ done s
      → os.open_append d p m ≡ (done tt, d')
      → os.read_file d' p ≡ done s
  pub written :
      (d : D) (p : FilePath) (b : List ℕ) (n : ℕ) (d' : D) (s : List ℕ)
      → os.read_file d p ≡ done s
      → os.write d p b ≡ (done n, d')
      → os.read_file d' p ≡ done (s ++ b)

some-injective : (a b : List ℕ) → some a ≡ some b → a ≡ b
some-injective a b h = cc

decoded_lem : (o : Option (List ℕ)) (b : List ℕ) → decoded o ≡ done b → o ≡ some b
unfolding decoded
decoded_lem (some c) b h = cc
decoded_lem none b h = absurd (cc)

abbrev chunk : List ℕ → List ℕ → Bool → List ℕ → UploadBase64Request
chunk path mode append part = record {
  path = path;
  data_b64 = Base64.encode part;
  append = append;
  make_dirs = false;
  mode = mode;
}

abbrev pub joined : List (List ℕ) → List ℕ
joined [] = []
joined (part ∷ parts) = part ++ joined parts

module _ {D : Type 0} (os : Host D) (codecs : Codecs) (process : Process) (cwd : FilePath)
    (roots : List FilePath) where
  -- The calls of a client that uploads a file in parts: the first overwrites, the others append.
  abbrev pub upload_parts : List ℕ → List ℕ → Bool → List (List ℕ) → Op D Unit
  upload_parts path mode append [] = return tt
  upload_parts path mode append (part ∷ parts) = do
    _ ← upload_base64 os codecs process cwd roots (chunk path mode append part)
    upload_parts path mode true parts

module _ {D : Type 0} (os : Host D) (laws : FileLaws os) (codecs : Codecs) (process : Process)
    (cwd : FilePath) (roots : List FilePath) where
  store-reads :
      (append : Bool) (p : FilePath) (m : ℕ) (b : List ℕ) (d : D) (n : ℕ) (d' : D) (s : List ℕ)
      → (if append then os.read_file d p else done []) ≡ done s
      → store os codecs append p m b d ≡ (done n, d')
      → os.read_file d' p ≡ done (s ++ b)
  unfolding store
  store-reads true p m b d n d' s e h =
      let (u, d₁, opened, h₁) = go_on-done _ _ n d' h in
      laws.written d₁ p b n d' s (laws.appended d p m d₁ s e opened) h₁
  store-reads false p m b d n d' s e h =
      let (u, d₁, opened, h₁) = go_on-done _ _ n d' h in
      laws.written d₁ p b n d' s (laws.truncated d p m d₁ opened ∙ e) h₁

  prepare_dir-same :
      (dirs : Bool) (p : FilePath) (d : D) (u : Unit) (d' : D)
      → dirs ≡ false
      → prepare_dir os codecs dirs p d ≡ (done u, d')
      → d' ≡ d
  unfolding prepare_dir
  prepare_dir-same false p d u d' e h = sym (ap (λ (o : Outcome Unit × D). o.1) h)
  prepare_dir-same true p d u d' e h = absurd (cc)

  store-moved :
      (append : Bool) (m : ℕ) (b : List ℕ) (n : ℕ) (p p' : FilePath) (d₁ d d₂ d' : D)
      → p ≡ p'
      → d₁ ≡ d
      → d₂ ≡ d'
      → store os codecs append p m b d₁ ≡ (done n, d₂)
      → store os codecs append p' m b d ≡ (done n, d')
  store-moved append m b n p p' d₁ d d₂ d' e e' e'' h =
      let moved : store os codecs append p' m b d ≡ (done n, d₂) =
        ap₂ (λ (q : FilePath) (x : D). store os codecs append q m b x) (sym e) (sym e') ∙ h in
      moved ∙ ap (λ (x : D). (done n, x)) e''

  -- An upload that succeeds, without make_dirs.
  upload_base64-store :
      (req : UploadBase64Request) (d : D) (r : UploadBase64Result) (d' : D)
      → req.make_dirs ≡ false
      → upload_base64 os codecs process cwd roots req d ≡ (done r, d')
      → (bytes : List ℕ) × (m : ℕ) × (n : ℕ) × (Base64.decode (req.data_b64) ≡ some bytes)
        × (store os codecs (req.append) (absolute cwd (req.path)) m bytes d ≡ (done n, d'))
  unfolding upload_base64 guarded path_in
  upload_base64-store req d r d' dirs h =
      let (u, o, h₁) = look-done _ _ d r d' h in
      let (abs, p, h₂) = look-done _ _ d r d' h₁ in
      let (bytes, q, h₃) = look-done _ _ d r d' h₂ in
      let (m, t, h₄) = look-done _ _ d r d' h₃ in
      let (v, d₁, made, h₅) = go_on-done _ _ r d' h₄ in
      let (new, w, h₆) = look-done _ _ d₁ r d' h₅ in
      let (n, d₂, stored, h₇) = go_on-done _ _ r d' h₆ in
      let at : abs ≡ absolute cwd (req.path) =
        validate_path-absolute (os.links d) cwd (req.path) roots abs (checked_lem _ abs p) in
      let same : d₁ ≡ d = prepare_dir-same (req.make_dirs) abs d v d₁ dirs made in
      let last : d₂ ≡ d' = ap (λ (o : Outcome UploadBase64Result × D). o.1) h₇ in
      (
        bytes,
        m,
        n,
        decoded_lem _ bytes q,
        store-moved (req.append) m bytes n abs (absolute cwd (req.path)) d₁ d d₂ d' at same last
            stored,
      )

  chunk-reads :
      (path mode part s : List ℕ) (append : Bool) (d : D) (r : UploadBase64Result) (d' : D)
      → All (λ c. c < 256) part
      → (if append then os.read_file d (absolute cwd path) else done []) ≡ done s
      → upload_base64 os codecs process cwd roots (chunk path mode append part) d ≡ (done r, d')
      → os.read_file d' (absolute cwd path) ≡ done (s ++ part)
  chunk-reads path mode part s append d r d' bytes e h =
      let (b, m, n, coded, stored) =
        upload_base64-store (chunk path mode append part) d r d' refl h in
      let same : part ≡ b = some-injective part b (sym (Base64.decode-encode part bytes) ∙ coded) in
      rw same (store-reads append (absolute cwd path) m b d n d' s e stored)

  appended_parts :
      (path mode s : List ℕ) (parts : List (List ℕ)) (d d' : D)
      → All (All (λ c. c < 256)) parts
      → os.read_file d (absolute cwd path) ≡ done s
      → upload_parts os codecs process cwd roots path mode true parts d ≡ (done tt, d')
      → os.read_file d' (absolute cwd path) ≡ done (s ++ joined parts)
  appended_parts path mode s [] d d' bytes e h =
      rw (append-nil s, sym (ap (λ (o : Outcome Unit × D). o.1) h)) e
  appended_parts path mode s (part ∷ parts) d d' (bytes, more) e h =
      let (r, d₁, up, h₁) = go_on-done _ _ tt d' h in
      rw (sym (append_assoc s part (joined parts))) (
        appended_parts path mode (s ++ part) parts d₁ d' more
          (chunk-reads path mode part s true d r d₁ bytes e up) h₁)

  -- A file that is uploaded in parts, each encoded in base64, the first call overwriting and the
  -- others appending, holds after the last call all the parts in order, whatever was there before.
  -- The calls succeed, the parts are bytes, and the operating system keeps `FileLaws`.
  pub upload_parts-joined :
      (path mode part : List ℕ) (parts : List (List ℕ)) (d d' : D)
      → All (All (λ c. c < 256)) (part ∷ parts)
      → upload_parts os codecs process cwd roots path mode false (part ∷ parts) d ≡ (done tt, d')
      → os.read_file d' (absolute cwd path) ≡ done (part ++ joined parts)
  upload_parts-joined path mode part parts d d' (bytes, more) h =
      let (r, d₁, up, h₁) = go_on-done _ _ tt d' h in
      appended_parts path mode part parts d₁ d' more
        (chunk-reads path mode part [] false d r d₁ bytes refl up) h₁

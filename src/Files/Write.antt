-- ===== src/Files/Write.antt =====
-- fileops.go: `WriteFileContent` and its dry run, `previewWrite`. The texts of the diff are an
-- argument, `unifiedDiff`; the syntax check after a write is left out.
pub mod Preview
use text.Mathlib.Text.{◌==◌ as str_eq}
use remote_cli.Files.{
  FileError, refused, not_exist, os_failed, Outcome, done, failed, Info, is_dir, Host, Op, go_on,
  ◌>>=◌, return, fail, look, parse_mode,
}
use remote_cli.Files.Manage.{guarded, path_in, permissions, exists}
use remote_cli.Files.Edit.{Codecs, chosen_encoding}
use remote_cli.Files.Transfer.{prepare_dir, store, is_created}
use remote_cli.Encoding.{looks_binary}
use remote_cli.Common.{
  ℕ, ◌+◌, ◌%◌, Bool, true, false, not, ◌&&◌, ◌||◌, Option, none, some, List, [], ◌∷◌, ◌++◌, String,
  if◌then◌else◌, length, leb, ltb, ◌==◌, bytes_eq,
}
use remote_cli.ReadOnly.{Process}
use remote_cli.Sandbox.{FilePath, dir}

pub record WriteFileRequest : Type 0 where
  pub path : List ℕ
  pub content : List ℕ
  pub encoding : String
  pub append : Bool
  pub make_dirs : Bool
  pub mode : List ℕ
  pub lint : String
  pub dry_run : Bool

-- The sentences of `Preview.Note`.
pub data Note : Type 0 where
  lint_not_run file_too_large file_is_binary not_decoded shows_appended content_too_large : Note

pub record WritePreview : Type 0 where
  pub unchanged : Bool
  pub lines_added : ℕ
  pub lines_removed : ℕ
  pub diff : List ℕ
  pub diff_truncated : Bool
  pub note : List Note

pub record WriteFileResult : Type 0 where
  pub path : FilePath
  pub bytes_written : ℕ
  pub created : Bool
  pub encoding : String
  pub sha256 : List ℕ
  pub mode : Option ℕ
  pub dry_run : Bool
  pub preview : WritePreview

-- What `unifiedDiff` returns.
pub record UnifiedDiff : Type 0 where
  pub text : List ℕ
  pub added : ℕ
  pub removed : ℕ
  pub truncated : Bool

abbrev pub max_preview_diff_bytes : ℕ
max_preview_diff_bytes = 65536

abbrev pub max_preview_file_bytes : ℕ
max_preview_file_bytes = 8388608

abbrev pub no_preview : WritePreview
no_preview = record {
  unchanged = false;
  lines_added = 0;
  lines_removed = 0;
  diff = [];
  diff_truncated = false;
  note = [];
}

-- `encodedResult`
unfoldable pub encoded_result : List ℕ → List ℕ → Bool → List ℕ
encoded_result old bytes append = if append then old ++ bytes else bytes

unfoldable pub with_note : WriteFileResult → Note → WriteFileResult
with_note r n = record r { preview = record (r.preview) { note = r.preview.note ++ n ∷ [] } }

-- The end of `previewWrite`, with the old text and the new one.
unfoldable pub preview_diff :
    (List ℕ → List ℕ → ℕ → UnifiedDiff) → WriteFileResult → List ℕ → List ℕ → WriteFileResult
preview_diff unified_diff r old_text new_text =
    let u = unified_diff old_text new_text max_preview_diff_bytes in
    if ltb max_preview_file_bytes (length new_text)
    then with_note r content_too_large
    else record r {
      preview = record (r.preview) {
        diff = u.text;
        lines_added = u.added;
        lines_removed = u.removed;
        diff_truncated = u.truncated;
      };
    }

unfoldable pub preview_text :
    (List ℕ → List ℕ → ℕ → UnifiedDiff)
    → WriteFileRequest
    → WriteFileResult
    → List ℕ
    → WriteFileResult
preview_text unified_diff req r old_text =
    if req.append
    then preview_diff unified_diff (with_note r shows_appended) old_text (old_text ++ req.content)
    else preview_diff unified_diff r old_text (req.content)

-- The old text, or the note that there is none.
unfoldable pub preview_decoded :
    (List ℕ → List ℕ → ℕ → UnifiedDiff)
    → WriteFileRequest
    → WriteFileResult
    → Outcome (List ℕ)
    → WriteFileResult
preview_decoded unified_diff req r (done old_text) = preview_text unified_diff req r old_text
preview_decoded unified_diff req r (failed e) = with_note r not_decoded

-- Over an existing file that holds `old`.
unfoldable pub preview_old :
    (List ℕ → List ℕ → ℕ → UnifiedDiff)
    → Codecs
    → WriteFileRequest
    → WriteFileResult
    → List ℕ
    → List ℕ
    → WriteFileResult
preview_old unified_diff codecs req r bytes old =
    let r' = record r {
      preview = record (r.preview) {
        unchanged = bytes_eq old (encoded_result old bytes (req.append));
      };
    } in
    if looks_binary old
    then with_note r' file_is_binary
    else if length old == 0
    then preview_text unified_diff req r' []
    else preview_decoded unified_diff req r' (codecs.decode old (codecs.detect old))

unfoldable pub lint_asked : String → Bool
lint_asked l = not (str_eq l "") && not (str_eq l "none")

module _ {D : Type 0} (os : Host D) (codecs : Codecs)
    (unified_diff : List ℕ → List ℕ → ℕ → UnifiedDiff) where
  -- What `previewWrite` starts from.
  unfoldable pub preview_start : WriteFileRequest → FilePath → String → List ℕ → WriteFileResult
  preview_start req abs encoding bytes = record {
    path = abs;
    bytes_written = length bytes;
    created = false;
    encoding = encoding;
    sha256 = codecs.digest bytes;
    mode = none;
    dry_run = true;
    preview =
        if lint_asked (req.lint)
        then record no_preview { note = lint_not_run ∷ [] }
        else no_preview;
  }

  unfoldable pub preview_existing :
      WriteFileRequest
      → WriteFileResult
      → List ℕ
      → Info
      → Outcome (List ℕ)
      → Outcome WriteFileResult
  preview_existing req r bytes info (failed e) =
      if ltb max_preview_file_bytes (info.size) then done (with_note r file_too_large) else failed e
  preview_existing req r bytes info (done old) =
      if ltb max_preview_file_bytes (info.size)
      then done (with_note r file_too_large)
      else done (preview_old unified_diff codecs req r bytes old)

  unfoldable pub preview_over :
      WriteFileRequest
      → FilePath
      → ℕ
      → WriteFileResult
      → List ℕ
      → Outcome Info
      → D
      → Outcome WriteFileResult
  preview_over req abs mode r bytes (done info) d =
      if is_dir info
      then failed (refused "is a directory")
      else preview_existing req (record r { mode = some (info.perm) }) bytes info
          (os.read_file d abs)
  preview_over req abs mode r bytes (failed not_exist) d =
      if req.make_dirs || exists (os.stat d (dir abs))
      then done
          (preview_text unified_diff req (record r { created = true; mode = some (mode % 512) }) [])
      else failed (refused "parent directory does not exist")
  preview_over req abs mode r bytes (failed (os_failed n)) d = failed (os_failed n)
  preview_over req abs mode r bytes (failed e) d = failed e

  -- `previewWrite`
  unfoldable pub preview_write : WriteFileRequest → FilePath → ℕ → Op D WriteFileResult
  preview_write req abs mode = do
    let encoding = chosen_encoding (req.encoding) "utf-8"
    bytes ← look (λ _. codecs.encode (req.content) encoding)
    look (λ d.
        preview_over req abs mode (preview_start req abs encoding bytes) bytes (os.stat d abs) d)

  -- `WriteFileContent` behind its dry run.
  unfoldable pub write_now : WriteFileRequest → FilePath → ℕ → Op D WriteFileResult
  write_now req abs mode = do
    _ ← prepare_dir os codecs (req.make_dirs) abs
    created ← look (λ d. is_created (os.stat d abs))
    let encoding = chosen_encoding (req.encoding) "utf-8"
    bytes ← look (λ _. codecs.encode (req.content) encoding)
    n ← store os codecs (req.append) abs mode bytes
    λ d. (
      done (record {
        path = abs;
        bytes_written = n;
        created = created;
        encoding = encoding;
        sha256 = codecs.digest bytes;
        mode = permissions (os.stat d abs);
        dry_run = false;
        preview = no_preview;
      }),
      d,
    )

  -- `WriteFileContent`
  unfoldable pub write_file_content :
      Process → FilePath → List FilePath → WriteFileRequest → Op D WriteFileResult
  write_file_content process cwd roots req = do
    _ ← guarded os process cwd roots "write_file"
    abs ← path_in os process cwd roots (req.path)
    mode ← look (λ _. parse_mode (req.mode))
    if req.dry_run then preview_write req abs mode else write_now req abs mode

-- ===== src/Files/Transfer.antt =====
-- fileops.go: `UploadBase64` and `DownloadBase64`.
pub mod Chunks
pub mod Download
use remote_cli.Files.{
  FileError, refused, not_exist, os_failed, Outcome, done, failed, Info, Host, Op, go_on, ◌>>=◌,
  return, fail, look, parse_mode,
}
use remote_cli.Files.Manage.{guarded, path_in, permissions}
use remote_cli.Files.Edit.{Codecs, chosen_encoding}
use remote_cli.Files.Base64
use remote_cli.Common.{
  ℕ, zero, suc, ◌+◌, ◌-◌, Bool, true, false, not, Option, none, some, List, [], ◌∷◌, String,
  if◌then◌else◌, length, leb, ltb, ◌==◌, take, drop,
}
use remote_cli.Common.Int.{ℤ, pos, negsuc}
use remote_cli.ReadOnly.{Process}
use remote_cli.Sandbox.{FilePath, dir, validate_path}

pub record UploadBase64Request : Type 0 where
  pub path : List ℕ
  pub data_b64 : List ℕ
  pub append : Bool
  pub make_dirs : Bool
  pub mode : List ℕ

pub record UploadBase64Result : Type 0 where
  pub path : FilePath
  pub bytes_written : ℕ
  pub created : Bool
  pub sha256 : List ℕ
  pub mode : Option ℕ

pub record DownloadBase64Request : Type 0 where
  pub path : List ℕ
  pub offset : ℤ
  pub max_bytes : ℤ

pub record DownloadBase64Result : Type 0 where
  pub path : FilePath
  pub bytes_read : ℕ
  pub offset : ℕ
  pub total_size : ℕ
  pub eof : Bool
  pub data_b64 : List ℕ

abbrev pub default_download_max_bytes : ℕ
default_download_max_bytes = 4194304

-- `offset` of `DownloadBase64`
unfoldable pub start_offset : ℤ → ℕ
start_offset (pos n) = n
start_offset (negsuc n) = 0

-- `maxBytes` of `DownloadBase64`
unfoldable pub chunk_size : ℤ → ℕ
chunk_size (pos zero) = default_download_max_bytes
chunk_size (pos (suc n)) = suc n
chunk_size (negsuc n) = default_download_max_bytes

-- Whether the file is to be created, unless the look at it fails otherwise.
unfoldable pub is_created : Outcome Info → Outcome Bool
is_created (done info) = done false
is_created (failed not_exist) = done true
is_created (failed (os_failed n)) = failed (os_failed n)
is_created (failed e) = failed e

unfoldable pub decoded : Option (List ℕ) → Outcome (List ℕ)
decoded (some bytes) = done bytes
decoded none = failed (refused "invalid base64 data")

-- The part of a file that `io.ReadFull` puts into a buffer of `size` bytes.
unfoldable pub window : ℕ → ℕ → List ℕ → List ℕ
window offset size content = take size (drop offset content)

module _ {D : Type 0} (os : Host D) (codecs : Codecs) where
  unfoldable pub prepare_dir : Bool → FilePath → Op D Unit
  prepare_dir make_dirs abs = if make_dirs then (λ d. os.mkdir_all d (dir abs) 493) else return tt

  -- `OpenFile` with the flags of the request, and `Write`.
  unfoldable pub store : Bool → FilePath → ℕ → List ℕ → Op D ℕ
  store append abs mode bytes = do
    _ ← λ d. if append then os.open_append d abs mode else os.open_truncate d abs mode
    λ d. os.write d abs bytes

  module _ (process : Process) (cwd : FilePath) (roots : List FilePath) where
    -- `UploadBase64`
    unfoldable pub upload_base64 : UploadBase64Request → Op D UploadBase64Result
    upload_base64 req = do
      _ ← guarded os process cwd roots "upload_base64"
      abs ← path_in os process cwd roots (req.path)
      bytes ← look (λ _. decoded (Base64.decode (req.data_b64)))
      mode ← look (λ _. parse_mode (req.mode))
      _ ← prepare_dir (req.make_dirs) abs
      created ← look (λ d. is_created (os.stat d abs))
      n ← store (req.append) abs mode bytes
      λ d. (
        done (record {
          path = abs;
          bytes_written = n;
          created = created;
          sha256 = codecs.digest bytes;
          mode = permissions (os.stat d abs);
        }),
        d,
      )

module _ {D : Type 0} (os : Host D) (process : Process) (cwd : FilePath)
    (roots : List FilePath) where
  -- `DownloadBase64`
  unfoldable pub download_base64 : DownloadBase64Request → Op D DownloadBase64Result
  download_base64 req = do
    abs ← path_in os process cwd roots (req.path)
    _ ← look (λ d. os.open_read d abs)
    info ← look (λ d. os.stat d abs)
    content ← look (λ d. os.read_file d abs)
    _ ← look (λ _. os.make_bytes (chunk_size (req.max_bytes)))
    let offset = start_offset (req.offset)
    let bytes = window offset (chunk_size (req.max_bytes)) content
    return (record {
      path = abs;
      bytes_read = length bytes;
      offset = offset;
      total_size = info.size;
      eof = leb (info.size) (offset + length bytes);
      data_b64 = Base64.encode bytes;
    })

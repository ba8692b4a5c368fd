-- ===== src/Tests/Hosts.antt =====
-- The file operations on a disk that is the list of its files, the newest version first.
use remote_cli.Common.{
  ℕ, ◌≡◌, ◌≢◌, refl, ap, ◌∙◌, ◌⊎◌, true, false, some, List, [], ◌∷◌, ◌++◌, arith, if◌then◌else◌,
  bytes_eq, bytes_eq_refl, codes, length, String, subst,
}
use remote_cli.Common.Int.{pos}
use remote_cli.ReadOnly.{Process}
use remote_cli.Sandbox.{
  FilePath, text, under_root, evaluated, no_link, absolute, valid, validate_path,
}
use remote_cli.Tests.Disks.{root, file_a}
use remote_cli.Files.{Outcome, done, failed, not_exist, Info, regular, refused_edit, Host}
use remote_cli.Files.Manage.{DeleteFileRequest, MoveFileRequest, CopyFileRequest, delete_file}
use remote_cli.Files.Manage.Safety.{Untouched, Licensed, delete_file-Licensed}
use remote_cli.Files.Edit.{
  count, replace_all, edit_exact, EditPair, EditFileRequest, EditFileResult, Codecs, Regexps,
  edit_file_content,
}
use remote_cli.Files.Edit.Occurrences.{edit_exact-splice}
use remote_cli.Files.Edit.Atomic.{preview_of, edit_file_content-dry_run}
use remote_cli.Files.Transfer.{upload_base64}
use remote_cli.Files.Write.{
  WriteFileRequest, WriteFileResult, UnifiedDiff, no_preview, write_file_content, preview_write,
  preview_over, preview_start, preview_existing, preview_old, preview_text, preview_diff,
  preview_decoded, encoded_result, lint_asked, write_now,
}
use remote_cli.Files.Write.Preview.{told, write_file_content-told, write_file_content-dry_run}
use remote_cli.Encoding.{looks_binary, has_nul}
use remote_cli.Files.Transfer.Chunks.{FileLaws, upload_parts, joined, upload_parts-joined}
use remote_cli.Files.Transfer.Download.{download_from, download_from-whole}
use remote_cli.Files.{is_dir, go_on, allowed, checked, parse_mode, blank}
use remote_cli.Files.Manage.{guarded, path_in, permissions}
use remote_cli.ReadOnly.{guard_read_only, trim_left}
use remote_cli.Files.Edit.{
  edited_content, requested_edits, single_edit, chosen_encoding, apply_edits, after_edit,
  apply_edit, count_from, replace_first, replace_from, note_change, preview_string, edit_result,
  write_edited, mode_or_default,
}
use remote_cli.Sandbox.{
  under_roots, slashed, enter_all, enter, has_prefix, root_prefix, resolve_path, resolve_with,
  unless_missing, resolved_or, resolve_roots, check_real,
}
use remote_cli.Common.{split, onto_first}
use remote_cli.Files.Transfer.{decoded, prepare_dir, is_created, store}
use remote_cli.Files.Base64.{
  decode, encode, char_of, value_of, strip_line_ends, decode_quads, last_quad, one_byte, two_bytes,
  three_bytes,
}

abbrev Disk : Type 0
Disk = List (FilePath × List ℕ)

unfoldable find : Disk → FilePath → Outcome (List ℕ)
find [] p = failed not_exist
find ((q, content) ∷ d) p = if bytes_eq (text q) (text p) then done content else find d p

unfoldable info_of : Outcome (List ℕ) → Outcome Info
info_of (done content) = done (record { kind = regular; perm = 420; size = length content })
info_of (failed e) = failed e

unfoldable content_of : Outcome (List ℕ) → List ℕ
content_of (done content) = content
content_of (failed e) = []

-- Without what lies under a path.
unfoldable without : FilePath → Disk → Disk
without p [] = []
without p ((q, content) ∷ d) =
    let rest = without p d in if under_root q p then rest else (q, content) ∷ rest

-- Every path is its own target.
abbrev host : Host Disk
host = record {
  links = λ d. record { eval = λ p. evaluated p; link = λ p. no_link };
  lstat = λ d p. info_of (find d p);
  stat = λ d p. info_of (find d p);
  read_dir = λ d p. done [];
  walk_dir = λ d p. [];
  walk = λ d p. [];
  remove = λ d p. (done tt, without p d);
  remove_all = λ d p. (done tt, without p d);
  rename = λ d p q. (done tt, (q, content_of (find d p)) ∷ without p d);
  readlink = λ d p. failed not_exist;
  make_link = λ d s p. (done tt, d);
  mkdir = λ d p m. (done tt, d);
  mkdir_all = λ d p m. (done tt, d);
  open_read = λ d p. done tt;
  read_file = find;
  write_file = λ d p s m. (done tt, (p, s) ∷ d);
  open_append = λ d p m. (done tt, d);
  open_truncate = λ d p m. (done tt, (p, []) ∷ d);
  write = λ d p s. (done (length s), (p, content_of (find d p) ++ s) ∷ d);
  copy = λ d p q. (done (length (content_of (find d p))), (q, content_of (find d p)) ∷ d);
  make_bytes = λ n. done tt;
}

abbrev free : Process
free = record { config = record { read_only = false; disabled_tools = [] }; latch = false }

-- /srv/data/a holds `one two`.
abbrev disk : Disk
disk = (file_a, codes "one two") ∷ []

abbrev codecs : Codecs
codecs = record {
  detect = λ s. "utf-8";
  decode = λ s e. done s;
  encode = λ s e. done s;
  digest = λ s. s;
}

abbrev regexps : Regexps
regexps = record { compiles = λ p. false; matches = λ p s. 0; replace = λ p n s. s }

abbrev request : EditFileRequest
request = record {
  path = codes "a";
  old_string = codes "two";
  new_string = codes "three";
  replace_all = false;
  encoding = "";
  edits = [];
  use_regex = false;
  dry_run = false;
}

find_first : (p : FilePath) (content : List ℕ) (d : Disk) → find ((p, content) ∷ d) p ≡ done content
unfolding find
find_first p content d = rw (bytes_eq_refl (text p)) refl

host-FileLaws : FileLaws host
unfolding content_of
host-FileLaws = record {
  truncated = λ d p m d' h.
      subst (λ (x : Disk). find x p ≡ done []) (ap (λ (o : Outcome Unit × Disk). o.1) h)
        (find_first p [] d);
  appended = λ d p m d' s e h.
      subst (λ (x : Disk). find x p ≡ done s) (ap (λ (o : Outcome Unit × Disk). o.1) h) e;
  written = λ d p b n d' s e h.
      subst (λ (x : Disk). find x p ≡ done (s ++ b)) (ap (λ (o : Outcome ℕ × Disk). o.1) h)
        (find_first p (content_of (find d p) ++ b) d
          ∙ ap (λ (o : Outcome (List ℕ)). done (content_of o ++ b)) e);
}

abbrev deletion : DeleteFileRequest
deletion = record { path = codes "a"; recursive = false; confirm = true; dry_run = false }

delete_file-Licensed_example :
    Untouched host free root (root ∷ []) disk (delete_file host free root (root ∷ []) deletion disk)
    ⊎ Licensed host free root
        (root ∷ [])
        deletion
        disk
        (delete_file host free root (root ∷ []) deletion disk)
delete_file-Licensed_example = delete_file-Licensed host free root (root ∷ []) deletion disk

abbrev moving : MoveFileRequest
moving = record { src = codes "a"; dst = codes "b"; overwrite = false }

abbrev copying : CopyFileRequest
copying = record { src = codes "a"; dst = codes "b"; overwrite = false }

abbrev pair : EditPair
pair = record { old_string = codes "two"; new_string = codes "three"; replace_all = false }

edit_exact-splice_example :
    ((pre : List ℕ) × (post : List ℕ) × (count (codes "one two") (codes "two") ≡ 1)
      × (codes "one two" ≡ pre ++ (codes "two" ++ post))
      × (edit_exact 1 (codes "one two") pair ≡ done (pre ++ (codes "three" ++ post), 1)))
    ⊎ ((why : String) × (count (codes "one two") (codes "two") ≢ 1)
        × (edit_exact 1 (codes "one two") pair ≡ failed (refused_edit 1 why)))
edit_exact-splice_example = edit_exact-splice 1 (codes "one two") pair refl

-- What the edit writes, and tells.
abbrev written : EditFileResult
written = record {
  path = file_a;
  replacements = 1;
  encoding = "utf-8";
  dry_run = false;
  changes =
      record { index = 1; old_string = codes "two"; new_string = codes "three"; replacements = 1 }
      ∷ [];
  sha256 = codes "one three";
  mode = some 420;
}

edit_runs :
    edit_file_content host codecs regexps free root
      (root ∷ [])
      (record request { dry_run = false })
      disk
    ≡ (done written, (file_a, codes "one three") ∷ disk)
unfolding edit_file_content find info_of content_of go_on edited_content guarded allowed
    guard_read_only path_in checked validate_path under_roots under_root bytes_eq text slashed
    absolute enter_all split enter onto_first has_prefix root_prefix resolve_path resolve_with
    unless_missing resolved_or resolve_roots check_real requested_edits single_edit chosen_encoding
    apply_edits after_edit apply_edit edit_exact count count_from replace_first replace_all
    replace_from note_change preview_string edit_result write_edited mode_or_default
edit_runs = refl

edit_file_content-dry_run_example :
    edit_file_content host codecs regexps free root
      (root ∷ [])
      (record request { dry_run = true })
      disk
    ≡ (done (preview_of host codecs regexps free root (root ∷ []) written), disk)
edit_file_content-dry_run_example =
    edit_file_content-dry_run host codecs regexps free root (root ∷ []) request disk
      ((file_a, codes "one three") ∷ disk) written edit_runs

-- The disk after two uploads.
abbrev after_upload : Disk
after_upload = (file_a, codes "abc") ∷ (file_a, codes "ab") ∷ (file_a, []) ∷ disk

upload_runs :
    upload_parts host codecs free root
      (root ∷ [])
      (codes "a")
      []
      false
      (codes "ab" ∷ codes "c" ∷ [])
      disk
    ≡ (done tt, after_upload)
unfolding upload_base64 find info_of content_of go_on guarded allowed guard_read_only path_in
    checked validate_path under_roots under_root bytes_eq text slashed absolute enter_all split
    enter onto_first has_prefix root_prefix resolve_path resolve_with unless_missing resolved_or
    resolve_roots check_real decoded decode encode char_of value_of strip_line_ends decode_quads
    last_quad one_byte two_bytes three_bytes parse_mode blank trim_left prepare_dir is_created store
    permissions
upload_runs = refl

upload_parts-joined_example :
    host.read_file after_upload (absolute root (codes "a"))
    ≡ done (codes "ab" ++ joined (codes "c" ∷ []))
upload_parts-joined_example =
    upload_parts-joined host host-FileLaws codecs free root (root ∷ []) (codes "a") [] (codes "ab")
      (codes "c" ∷ []) disk after_upload ((omega arith, (omega arith, tt)), ((omega arith, tt), tt))
      upload_runs

passes : validate_path (host.links disk) root (codes "a") (root ∷ []) ≡ valid file_a
unfolding validate_path under_roots under_root bytes_eq text slashed absolute enter_all split enter
    onto_first has_prefix root_prefix resolve_path resolve_with unless_missing resolved_or
    resolve_roots check_real
passes = refl

found : host.stat disk file_a ≡ done (record { kind = regular; perm = 420; size = 7 })
unfolding find info_of bytes_eq text slashed
found = refl

holds : host.read_file disk file_a ≡ done (codes "one two")
unfolding find bytes_eq text slashed
holds = refl

download_from-whole_example :
    download_from host free root (root ∷ []) 8 (codes "a") (pos 3) 0 disk
    ≡ (done (codes "one two"), disk)
download_from-whole_example =
    download_from-whole host free root (root ∷ []) disk (codes "a") file_a
      (record { kind = regular; perm = 420; size = 7 }) (codes "one two") passes refl found holds
      refl (omega arith) (pos 3) refl

abbrev no_diff : List ℕ → List ℕ → ℕ → UnifiedDiff
no_diff old new cap = record { text = []; added = 1; removed = 1; truncated = false }

abbrev writing : WriteFileRequest
writing = record {
  path = codes "a";
  content = codes "xyz";
  encoding = "";
  append = false;
  make_dirs = false;
  mode = [];
  lint = "";
  dry_run = false;
}

abbrev after_write : WriteFileResult
after_write = record {
  path = file_a;
  bytes_written = 3;
  created = false;
  encoding = "utf-8";
  sha256 = codes "xyz";
  mode = some 420;
  dry_run = false;
  preview = no_preview;
}

abbrev before_write : WriteFileResult
before_write = record after_write {
  dry_run = true;
  preview = record no_preview { lines_added = 1; lines_removed = 1 };
}

write_runs :
    write_file_content host codecs no_diff free root
      (root ∷ [])
      (record writing { dry_run = false })
      disk
    ≡ (done after_write, (file_a, codes "xyz") ∷ (file_a, []) ∷ disk)
unfolding write_file_content write_now find info_of content_of go_on guarded allowed guard_read_only
    path_in checked validate_path under_roots under_root bytes_eq text slashed absolute enter_all
    split enter onto_first has_prefix root_prefix resolve_path resolve_with unless_missing
    resolved_or resolve_roots check_real parse_mode blank trim_left prepare_dir is_created store
    permissions chosen_encoding
write_runs = refl

preview_runs :
    write_file_content host codecs no_diff free root
      (root ∷ [])
      (record writing { dry_run = true })
      disk
    ≡ (done before_write, disk)
unfolding write_file_content preview_write preview_over preview_start preview_existing preview_old
    preview_text preview_diff preview_decoded encoded_result lint_asked looks_binary has_nul is_dir
    find info_of content_of go_on guarded allowed guard_read_only path_in checked validate_path
    under_roots under_root bytes_eq text slashed absolute enter_all split enter onto_first
    has_prefix root_prefix resolve_path resolve_with unless_missing resolved_or resolve_roots
    check_real parse_mode blank trim_left chosen_encoding
preview_runs = refl

write_file_content-told_example : (disk ≡ disk) × (told before_write ≡ told after_write)
write_file_content-told_example =
    write_file_content-told host codecs no_diff free root (root ∷ []) writing disk disk
      ((file_a, codes "xyz") ∷ (file_a, []) ∷ disk) before_write after_write refl preview_runs
      write_runs

write_file_content-dry_run_example :
    (write_file_content host codecs no_diff free root
      (root ∷ [])
      (record writing { dry_run = true })
      disk).1
    ≡ disk
write_file_content-dry_run_example =
    write_file_content-dry_run host codecs no_diff free root (root ∷ []) writing disk

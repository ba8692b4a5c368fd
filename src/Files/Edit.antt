-- ===== src/Files/Edit.antt =====
-- fileops.go: `EditFileContent`. Texts are lists of bytes. The functions between a file's bytes and
-- its text, the package regexp and the digest are arguments; the syntax check that a call can ask
-- for after the write is left out.
pub mod Occurrences
pub mod Atomic
use remote_cli.Files.{
  FileError, refused, refused_edit, Outcome, done, failed, Info, Host, Op, go_on, ◌>>=◌, return,
  fail, look, require, allowed, checked,
}
use remote_cli.Files.Manage.{guarded, path_in}
use remote_cli.Common.{
  ℕ, zero, suc, ◌+◌, ◌-◌, Bool, true, false, not, ◌&&◌, ◌||◌, Option, none, some, List, [], ◌∷◌,
  ◌++◌, String, if◌then◌else◌, length, ◌==◌, leb, ltb, take, drop, codes,
}
use remote_cli.ReadOnly.{Process}
use remote_cli.Sandbox.{FilePath, has_prefix}

-- `strings.Count` of a text that is not empty; `skip` bytes still belong to the last occurrence.
unfoldable pub count_from : List ℕ → ℕ → List ℕ → ℕ
count_from old skip [] = 0
count_from old (suc skip) (c ∷ s) = count_from old skip s
count_from old zero (c ∷ s) =
    let here = has_prefix old (c ∷ s) in
    (if here then 1 else 0) + count_from old (if here then length old - 1 else 0) s

unfoldable pub count : List ℕ → List ℕ → ℕ
count s old = count_from old 0 s

-- `strings.ReplaceAll`
unfoldable pub replace_from : List ℕ → List ℕ → ℕ → List ℕ → List ℕ
replace_from old new skip [] = []
replace_from old new (suc skip) (c ∷ s) = replace_from old new skip s
replace_from old new zero (c ∷ s) =
    let here = has_prefix old (c ∷ s) in
    (if here then new else c ∷ []) ++ replace_from old new (if here then length old - 1 else 0) s

unfoldable pub replace_all : List ℕ → List ℕ → List ℕ → List ℕ
replace_all s old new = replace_from old new 0 s

-- `strings.Replace` of one occurrence.
unfoldable pub replace_first : List ℕ → List ℕ → List ℕ → List ℕ
replace_first [] old new = []
replace_first (c ∷ s) old new =
    let rest = replace_first s old new in
    if has_prefix old (c ∷ s) then new ++ drop (length old) (c ∷ s) else c ∷ rest

pub record EditPair : Type 0 where
  pub old_string : List ℕ
  pub new_string : List ℕ
  pub replace_all : Bool

pub record EditChange : Type 0 where
  pub index : ℕ
  pub old_string : List ℕ
  pub new_string : List ℕ
  pub replacements : ℕ

pub record EditFileRequest : Type 0 where
  pub path : List ℕ
  pub old_string : List ℕ
  pub new_string : List ℕ
  pub replace_all : Bool
  pub encoding : String
  pub edits : List EditPair
  pub use_regex : Bool
  pub dry_run : Bool

pub record EditFileResult : Type 0 where
  pub path : FilePath
  pub replacements : ℕ
  pub encoding : String
  pub dry_run : Bool
  pub changes : List EditChange
  pub sha256 : List ℕ
  pub mode : Option ℕ

-- `previewString`
unfoldable pub preview_string : List ℕ → ℕ → List ℕ
preview_string s limit = if leb (length s) limit then s else take limit s ++ codes "..."

-- The package regexp: `Compile`, the number of matches, and `ReplaceAllString`.
pub record Regexps : Type 0 where
  pub compiles : List ℕ → Bool
  pub matches : List ℕ → List ℕ → ℕ
  pub replace : List ℕ → List ℕ → List ℕ → List ℕ

-- `detectEncoding`, `decodeToUTF8` and `encodeFromUTF8`, and the digest.
pub record Codecs : Type 0 where
  pub detect : List ℕ → String
  pub decode : List ℕ → String → Outcome (List ℕ)
  pub encode : List ℕ → String → Outcome (List ℕ)
  pub digest : List ℕ → List ℕ

-- The text after one edit, and its replacements.
unfoldable pub edit_regex : Regexps → ℕ → List ℕ → EditPair → Outcome (List ℕ × ℕ)
edit_regex regexps i updated e =
    let count = regexps.matches (e.old_string) updated in
    if not (regexps.compiles (e.old_string))
    then failed (refused_edit i "invalid pattern")
    else if count == 0
    then failed (refused_edit i "pattern not found")
    else done (regexps.replace (e.old_string) (e.new_string) updated, count)

unfoldable pub edit_exact : ℕ → List ℕ → EditPair → Outcome (List ℕ × ℕ)
edit_exact i updated e =
    let found = count updated (e.old_string) in
    if found == 0
    then failed (refused_edit i "old_string not found")
    else if not (e.replace_all) && ltb 1 found
    then failed (refused_edit i "old_string is not unique")
    else if e.replace_all
    then done (replace_all updated (e.old_string) (e.new_string), found)
    else done (replace_first updated (e.old_string) (e.new_string), 1)

unfoldable pub apply_edit : Regexps → Bool → ℕ → List ℕ → EditPair → Outcome (List ℕ × ℕ)
apply_edit regexps use_regex i updated e =
    if leb (length (e.old_string)) 0
    then failed (refused_edit i "old_string is empty")
    else if use_regex
    then edit_regex regexps i updated e
    else edit_exact i updated e

-- What the loop over the edits carries: the text, the number of replacements, the changes.
pub record Edited : Type 0 where
  pub updated : List ℕ
  pub total : ℕ
  pub changes : List EditChange

unfoldable pub note_change : ℕ → EditPair → Edited → List ℕ × ℕ → Edited
note_change i e done_so_far (updated, count) = record {
  updated = updated;
  total = done_so_far.total + count;
  changes =
      done_so_far.changes
      ++ record {
        index = i;
        old_string = preview_string (e.old_string) 200;
        new_string = preview_string (e.new_string) 200;
        replacements = count;
      }
        ∷ [];
}

-- On to the next edit, if this one is applied.
unfoldable pub after_edit :
    (Edited → Outcome Edited) → (List ℕ × ℕ → Edited) → Outcome (List ℕ × ℕ) → Outcome Edited
after_edit next note (done r) = next (note r)
after_edit next note (failed e) = failed e

-- The loop over the edits, from the edit of number `i`; the first failure ends it.
unfoldable pub apply_edits : Regexps → Bool → ℕ → List EditPair → Edited → Outcome Edited
apply_edits regexps use_regex i [] at = done at
apply_edits regexps use_regex i (e ∷ edits) at =
    after_edit (apply_edits regexps use_regex (i + 1) edits) (note_change i e at)
      (apply_edit regexps use_regex i (at.updated) e)

unfoldable pub single_edit : EditPair → List EditPair → Outcome (List EditPair)
single_edit only (e ∷ edits) = done (e ∷ edits)
single_edit only [] =
    if leb (length (only.old_string)) 0
    then failed (refused "old_string is empty")
    else done (only ∷ [])

-- The edits of a call.
unfoldable pub requested_edits : EditFileRequest → Outcome (List EditPair)
requested_edits req =
    single_edit
      (record {
        old_string = req.old_string;
        new_string = req.new_string;
        replace_all = req.replace_all;
      })
      (req.edits)

unfoldable pub chosen_encoding : String → String → String
chosen_encoding String.[] detected = detected
chosen_encoding (String.◌∷◌ c s) detected = String.◌∷◌ c s

-- The bits of the mode that the file is written with; 420 is 0644.
unfoldable pub mode_or_default : Outcome Info → ℕ
mode_or_default (done info) = info.perm
mode_or_default (failed e) = 420

-- The result before anything is written.
unfoldable pub edit_result : FilePath → String → Bool → Edited → EditFileResult
edit_result abs encoding dry_run at = record {
  path = abs;
  replacements = at.total;
  encoding = encoding;
  dry_run = dry_run;
  changes = at.changes;
  sha256 = [];
  mode = none;
}

module _ {D : Type 0} (os : Host D) (codecs : Codecs) where
  -- The end of `EditFileContent`: nothing is written before this.
  unfoldable pub write_edited : FilePath → String → Bool → Edited → Op D EditFileResult
  write_edited abs encoding true at = return (edit_result abs encoding true at)
  write_edited abs encoding false at = do
    out ← look (λ _. codecs.encode (at.updated) encoding)
    mode ← look (λ d. done (mode_or_default (os.stat d abs)))
    _ ← λ d. os.write_file d abs out mode
    return (record (edit_result abs encoding false at) {
      sha256 = codecs.digest out;
      mode = some mode;
    })

  module _ (regexps : Regexps) (process : Process) (cwd : FilePath) (roots : List FilePath) where
    -- `EditFileContent` up to the loop and with it: the path, the encoding, what the edits give.
    unfoldable pub edited_content : EditFileRequest → Op D (FilePath × String × Edited)
    edited_content req = do
      _ ← guarded os process cwd roots "edit_file"
      abs ← path_in os process cwd roots (req.path)
      edits ← look (λ _. requested_edits req)
      content ← look (λ d. os.read_file d abs)
      let encoding = chosen_encoding (req.encoding) (codecs.detect content)
      text ← look (λ _. codecs.decode content encoding)
      at ← look (λ _.
          apply_edits regexps (req.use_regex) 1 edits
            (record { updated = text; total = 0; changes = [] }))
      return (abs, encoding, at)

    -- `EditFileContent`
    unfoldable pub edit_file_content : EditFileRequest → Op D EditFileResult
    edit_file_content req = do
      (abs, encoding, at) ← edited_content req
      write_edited abs encoding (req.dry_run) at

-- ===== src/ReadOnly.antt =====
-- readonly.go, and `applyReadOnly` and `toolEnabled` of config.go: read-only mode. A text is the
-- list of its code points where the code looks into it (`parseReadOnly`), else a `String`.
pub mod Latch
use Prim.Native.Nat.{Ordering}
use Prim.Native.String.{compare}
use text.Mathlib.Text.{◌==◌ as str_eq}
use remote_cli.Common.{
  ℕ, ◌+◌, Bool, true, false, not, ◌&&◌, ◌||◌, Option, none, some, List, [], ◌∷◌, ◌++◌, String, leb,
  ◌==◌, if◌then◌else◌, map, reverse, codes, bytes_eq,
}

-- `names[name]` for a map that holds `true` under each of `names`.
unfoldable pub member : String → List String → Bool
member name [] = false
member name (n ∷ names) = if str_eq n name then true else member name names

-- `readOnlyTools`, the allowlist
abbrev pub read_only_tools : List String
read_only_tools =
    "remote_read_file" ∷ "remote_read_files" ∷ "remote_list_dir" ∷ "remote_stat"
    ∷ "remote_search_content" ∷ "remote_find_files" ∷ "remote_tail_log" ∷ "remote_diff"
    ∷ "remote_download_base64" ∷ "remote_list_processes" ∷ "remote_check_port"
    ∷ "remote_get_env_info" ∷ "remote_status" ∷ []

-- `readOnlyTools[name]`
unfoldable pub read_only_tool : String → Bool
unfolding member
read_only_tool name = member name read_only_tools

-- `allToolNames`
abbrev pub all_tool_names : List String
all_tool_names =
    "remote_execute" ∷ "remote_session_execute" ∷ "remote_cancel" ∷ "remote_status"
    ∷ "remote_session_create" ∷ "remote_session_list" ∷ "remote_session_close"
    ∷ "remote_list_processes" ∷ "remote_check_port" ∷ "remote_get_env_info" ∷ "remote_read_file"
    ∷ "remote_read_files" ∷ "remote_write_file" ∷ "remote_edit_file" ∷ "remote_list_dir"
    ∷ "remote_stat" ∷ "remote_upload_base64" ∷ "remote_download_base64" ∷ "remote_search_content"
    ∷ "remote_find_files" ∷ "remote_tail_log" ∷ "remote_diff" ∷ "remote_move_file"
    ∷ "remote_copy_file" ∷ "remote_delete_file" ∷ "remote_make_dir" ∷ "remote_spawn"
    ∷ "remote_job_status" ∷ "remote_job_list" ∷ "remote_job_logs" ∷ "remote_job_kill"
    ∷ "remote_wait_for" ∷ "remote_execution_result" ∷ []

-- `sort.Strings`
unfoldable pub insert_name : String → List String → List String
insert_name x [] = x ∷ []
insert_name x (y ∷ ys) = elim (compare x y) [ Ordering.gt ↦ y ∷ insert_name x ys | _ ↦ x ∷ y ∷ ys ]

unfoldable pub sort_names : List String → List String
sort_names [] = []
sort_names (x ∷ xs) = insert_name x (sort_names xs)

-- The loop of `readOnlyDisabledTools`.
unfoldable pub denied : List String → List String
denied [] = []
denied (name ∷ names) = let rest = denied names in if read_only_tool name then rest else name ∷ rest

-- `readOnlyDisabledTools`
unfoldable pub read_only_disabled_tools : List String
read_only_disabled_tools = sort_names (denied all_tool_names)

-- `sortedReadOnlyToolNames`
unfoldable pub sorted_read_only_tool_names : List String
sorted_read_only_tool_names = sort_names read_only_tools

-- The two fields of `Config` that read-only mode reads and writes.
pub record Config : Type 0 where
  pub read_only : Bool
  pub disabled_tools : List String

-- The process: its configuration, and the latch `readOnlyEnabled`.
pub record Process : Type 0 where
  pub config : Config
  pub latch : Bool

-- `guardReadOnly`: the error names the refused operation; `none` is nil.
unfoldable pub guard_read_only : Process → String → Option String
guard_read_only p op = if p.latch then some op else none

-- `applyReadOnly` with `enableReadOnly`.
unfoldable pub apply_read_only : Bool → Process → Process
apply_read_only enabled p = if not enabled then p else record {
  config = record {
    read_only = true;
    disabled_tools = read_only_disabled_tools ++ p.config.disabled_tools;
  };
  latch = true;
}

-- `toolEnabled`
unfoldable pub tool_enabled : Config → String → Bool
tool_enabled c name =
    if c.read_only && not (read_only_tool name) then false else not (member name c.disabled_tools)

-- `unicode.IsSpace`
unfoldable pub is_space : ℕ → Bool
is_space c =
    (leb 9 c && leb c 13)
    || c == 32
    || c == 0x85
    || c == 0xa0
    || c == 0x1680
    || (leb 0x2000 c && leb c 0x200a)
    || c == 0x2028
    || c == 0x2029
    || c == 0x202f
    || c == 0x205f
    || c == 0x3000

unfoldable pub trim_left : List ℕ → List ℕ
trim_left [] = []
trim_left (c ∷ s) = if is_space c then trim_left s else c ∷ s

-- `strings.TrimSpace`
unfoldable pub trim_space : List ℕ → List ℕ
trim_space s = reverse (trim_left (reverse (trim_left s)))

-- `strings.ToLower` as far as `parseReadOnly` can tell: the two other code points that it takes
-- to ASCII give an `i` and a `k`, which no accepted word has.
unfoldable pub to_lower : List ℕ → List ℕ
to_lower = map (λ c. if leb b'A' c && leb c b'Z' then c + 32 else c)

-- `parseReadOnly`
unfoldable pub parse_read_only : List ℕ → Bool
parse_read_only v =
    let w = to_lower (trim_space v) in
    bytes_eq w (codes "1")
    || bytes_eq w (codes "true")
    || bytes_eq w (codes "yes")
    || bytes_eq w (codes "on")
    || bytes_eq w (codes "enabled")

-- Several configuration passes, in order.
unfoldable pub apply_all : List Bool → Process → Process
apply_all [] p = p
apply_all (flag ∷ flags) p = apply_all flags (apply_read_only flag p)

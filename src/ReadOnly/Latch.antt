-- ===== src/ReadOnly/Latch.antt =====
-- Read-only mode over any sequence of configuration passes.
use text.Mathlib.Text.{◌==◌ as str_eq}
use text.Mathlib.TextEquality.{eq_iff}
use remote_cli.Common.{
  ◌≡◌, refl, ◌∙◌, Bool, true, false, not, ◌&&◌, ◌||◌, some, List, [], ◌∷◌, ◌++◌, String, arith, inl,
  inr, Bool-cases,
}
use remote_cli.ReadOnly.{
  member, read_only_tool, all_tool_names, insert_name, sort_names, denied, read_only_disabled_tools,
  Process, guard_read_only, apply_read_only, tool_enabled, apply_all,
}

member-append :
    (name : String) (xs ys : List String)
    → member name (xs ++ ys) ≡ member name xs || member name ys
unfolding member
member-append name [] ys = refl
member-append name (x ∷ xs) ys = ground (arith, member-append name xs ys)

member-insert_name :
    (name x : String) (xs : List String) → member name (insert_name x xs) ≡ member name (x ∷ xs)
unfolding member insert_name
member-insert_name name x [] = refl
member-insert_name name x (y ∷ ys) = ground (arith, member-insert_name name x ys)

member-sort_names :
    (name : String) (xs : List String) → member name (sort_names xs) ≡ member name xs
unfolding member sort_names
member-sort_names name [] = refl
member-sort_names name (x ∷ xs) =
    member-insert_name name x (sort_names xs) ∙ ground (arith, member-sort_names name xs)

member-denied :
    (name : String) (xs : List String)
    → member name (denied xs) ≡ member name xs && not (read_only_tool name)
unfolding member denied
member-denied name [] = refl
member-denied name (x ∷ xs) = elim (Bool-cases (str_eq x name)) [
  | inl same ↦
      let e : x ≡ name = (eq_iff x name).0 same in
      rw e (ground (arith, member-denied name xs, eq_iff name name))
  | inr other ↦ ground (arith, member-denied name xs, other)
]

-- What a pass with the flag set leaves, and every later pass keeps.
record Forced (p : Process) : Type 0 where
  pub latched : p.latch ≡ true
  pub read_only : p.config.read_only ≡ true
  pub folded :
      (name : String)
      → member name all_tool_names ≡ true
      → read_only_tool name ≡ false
      → member name p.config.disabled_tools ≡ true

apply-Forced : (p : Process) → Forced (apply_read_only true p)
unfolding apply_read_only read_only_disabled_tools
apply-Forced p = record {
  latched = refl;
  read_only = refl;
  folded = λ name known refused.
      member-append name (sort_names (denied all_tool_names)) p.config.disabled_tools
      ∙ ground (
        arith,
        member-sort_names name (denied all_tool_names),
        member-denied name all_tool_names,
      );
}

apply-keeps : (flag : Bool) (p : Process) → Forced p → Forced (apply_read_only flag p)
unfolding apply_read_only
apply-keeps true p f = apply-Forced p
apply-keeps false p f = f

apply_all-keeps : (flags : List Bool) (p : Process) → Forced p → Forced (apply_all flags p)
unfolding apply_all
apply_all-keeps [] p f = f
apply_all-keeps (flag ∷ flags) p f =
    apply_all-keeps flags (apply_read_only flag p) (apply-keeps flag p f)

apply_all-Forced :
    (before after : List Bool) (p : Process) → Forced (apply_all (before ++ true ∷ after) p)
unfolding apply_all
apply_all-Forced [] after p = apply_all-keeps after (apply_read_only true p) (apply-Forced p)
apply_all-Forced (flag ∷ before) after p = apply_all-Forced before after (apply_read_only flag p)

-- Once any configuration pass has turned read-only mode on, whatever passes come before or after
-- it, every guarded operation is refused, by its name, and a tool is enabled only if the allowlist
-- names it.
pub read_only_forever :
    (before after : List Bool) (p : Process) (op name : String)
    → (guard_read_only (apply_all (before ++ true ∷ after) p) op ≡ some op)
      × (tool_enabled (apply_all (before ++ true ∷ after) p).config name
            && not (read_only_tool name)
          ≡ false)
unfolding guard_read_only tool_enabled
read_only_forever before after p op name =
    let f = apply_all-Forced before after p in
    (ground (arith, f.latched), ground (arith, f.read_only))

-- After any such passes the reported blacklist is exact: of the tools that the server knows, a
-- tool is enabled exactly if `disabled_tools` does not name it.
pub disabled_tools_exact :
    (before after : List Bool) (p : Process) (name : String)
    → member name all_tool_names ≡ true
    → tool_enabled (apply_all (before ++ true ∷ after) p).config name
      ≡ not (member name (apply_all (before ++ true ∷ after) p).config.disabled_tools)
unfolding tool_enabled
disabled_tools_exact before after p name known =
    let f = apply_all-Forced before after p in ground (arith, f.read_only, f.folded name known)

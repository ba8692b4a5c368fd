-- ===== src/Tests/Diffs.antt =====
-- diff.go: two small texts.
use remote_cli.Common.{◌≤◌, ◌≡◌, refl, some, List, [], ◌∷◌, arith, length, codes, split}
use remote_cli.Diff.{Line, DiffOp, same, diff_middle, count_kind, split_diff_lines, trim_suffix}
use remote_cli.Diff.Spec.{Within, done, skip, keep, old_side, new_side}
use remote_cli.Diff.Whole.{diff_middle_sides, diff_middle_minimal}

abbrev before : List Line
before = codes "one" ∷ codes "two" ∷ codes "three" ∷ []

abbrev after : List Line
after = codes "one" ∷ codes "three" ∷ codes "four" ∷ []

abbrev shared : List Line
shared = codes "one" ∷ codes "three" ∷ []

lines_of_text : split_diff_lines (codes "one\r\ntwo\n") ≡ codes "one" ∷ codes "two" ∷ []
unfolding split_diff_lines split trim_suffix
lines_of_text = refl

diff_middle_sides_example :
    (ops : List DiffOp) × (diff_middle before after 4 7 ≡ some ops)
    × (old_side ops ≡ before)
    × (new_side ops ≡ after)
diff_middle_sides_example = diff_middle_sides before after 4 7

shared-before : Within shared before
shared-before = keep (skip (keep done))

shared-after : Within shared after
shared-after = keep (keep (skip done))

diff_middle_minimal_example :
    (ops : List DiffOp) × (diff_middle before after 4 7 ≡ some ops)
    × (length shared ≤ count_kind same ops)
diff_middle_minimal_example =
    diff_middle_minimal before after 4 7 shared (omega arith) shared-before shared-after

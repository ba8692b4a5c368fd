-- ===== src/Truncate/Exact.antt =====
-- The bounded capture of executor.go and output.go, with its three spare bytes, against the command's
-- whole output.
use remote_cli.Common.{
  ℕ, ◌+◌, ◌-◌, ◌≤◌, ◌<◌, ◌≡◌, ap, ◌∙◌, inl, inr, Bool, true, false, Option, some, List, arith,
  length, take, drop, ltb, leb, if◌then◌else◌, min, length-take, length-drop, drop-drop, take-take,
  take_of_length-le, Bool-cases, leb→le, leb→lt,
}
use remote_cli.Common.Int.{pos}
use remote_cli.Output.{CappedBuffer, bytes, truncated, new_capped_buffer, write_all}
use remote_cli.Output.Stream.{kept, joined}
use remote_cli.Output.Capture.{capture_correct}
use remote_cli.Truncate.{cut_back, cut_forward, truncate_to_limit, Encoding, plain, finish_output}
use remote_cli.Truncate.Cut.{cut_back_bounds, cut_back-take, cut_forward-drop}

length-kept :
    (tail : Bool) (limit : ℕ) (s : List ℕ) → length (kept tail limit s) ≡ min limit (length s)
length-kept true limit s = length-drop (length s - limit) s ∙ omega arith
length-kept false limit s = length-take limit s

kept_all : (tail : Bool) (limit : ℕ) (s : List ℕ) → length s ≤ limit → kept tail limit s ≡ s
kept_all true limit s h = ap (λ n. drop n s) {y = 0} (omega arith)
kept_all false limit s h = take_of_length-le limit s h

head_cut :
    (max : ℕ) (s : List ℕ)
    → take (cut_back 3 (take (max + 3) s) max) (take (max + 3) s) ≡ take (cut_back 3 s max) s
head_cut max s =
    ap (λ n. take n (take (max + 3) s)) (cut_back-take 3 (max + 3) s max (omega arith))
    ∙ take-take (cut_back 3 s max) (max + 3) s (omega (arith, cut_back_bounds 3 s max))

tail_cut :
    (max : ℕ) (s : List ℕ)
    → max < length s
    → (let raw = drop (length s - (max + 3)) s in drop (cut_forward 3 raw (length raw - max)) raw)
      ≡ drop (cut_forward 3 s (length s - max)) s
tail_cut max s h =
    drop-drop (cut_forward 3 raw (length raw - max)) k s
    ∙ ap (λ n. drop n s) (omega (arith, cut_forward-drop 3 k s (length raw - max), same_start))
  where
    k : ℕ
    k = length s - (max + 3)

    raw : List ℕ
    raw = drop k s

    same_start : cut_forward 3 s (length raw - max + k) ≡ cut_forward 3 s (length s - max)
    same_start = ap (cut_forward 3 s) (omega (arith, length-drop k s))

truncate-kept :
    (max : ℕ) (tail : Bool) (s : List ℕ)
    → truncate_to_limit (kept tail (max + 3) s) (pos max) tail ≡ truncate_to_limit s (pos max) tail
unfolding truncate_to_limit
truncate-kept max tail s = elim (Bool-cases (leb (length s) max)) [
  | inl fits ↦
      ap (λ l. truncate_to_limit l (pos max) tail)
        (kept_all tail (max + 3) s (omega (arith, leb→le _ _ fits)))
  | inr over ↦ cut tail (leb→lt _ _ over)
]
  where
    cut :
        (t : Bool)
        → max < length s
        → truncate_to_limit (kept t (max + 3) s) (pos max) t ≡ truncate_to_limit s (pos max) t
    cut true h = ground (arith, tail_cut max s h, length-kept true (max + 3) s)
    cut false h = ground (arith, head_cut max s, length-kept false (max + 3) s)

-- A command's output is captured in a buffer of `max + 3` bytes, whatever its length and however
-- it is written; `finishOutput` without an encoding then returns exactly what truncating the whole
-- output to `max` bytes gives, and says that it is truncated exactly if the whole output was
-- longer than `max`.
pub finish_output_exact :
    (valid : List ℕ → Bool) (decode : List ℕ → Encoding → Option (List ℕ)) (max : ℕ) (tail : Bool)
    (ps : List (List ℕ))
    → (b : CappedBuffer) × (write_all (new_capped_buffer (pos (max + 3)) tail) ps ≡ some b)
      × (finish_output valid decode b max tail plain
          ≡ (truncate_to_limit (joined ps) (pos max) tail, ltb max (length (joined ps)), plain))
unfolding finish_output
finish_output_exact valid decode max tail ps =
    let (b, ran, read, cut, _, _) = capture_correct (pos (max + 3)) tail ps in
    (
      b,
      ran,
      λ i. (
        (ap (λ l. truncate_to_limit l (pos max) tail) read ∙ truncate-kept max tail (joined ps)) i,
        flag b read cut i,
        plain,
      ),
    )
  where
    flag :
        (b : CappedBuffer)
        → bytes b ≡ kept tail (max + 3) (joined ps)
        → truncated b ≡ ltb (max + 3) (length (joined ps))
        → (if ltb max (length (bytes b)) then true else truncated b) ≡ ltb max (length (joined ps))
    flag b read cut =
        ground (arith, cut, ap (λ l. length l) read, length-kept tail (max + 3) (joined ps))

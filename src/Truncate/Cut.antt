-- ===== src/Truncate/Cut.antt =====
-- Where the two loops of `truncateToLimit` stop, and how far they read.
use remote_cli.Common.{
  ℕ, zero, suc, ◌+◌, ◌-◌, min, ◌≤◌, ◌<◌, ◌≡◌, refl, ap, Bool, List, arith, length, take, drop,
  length-take, length-drop, get_or-take, get_or-drop,
}
use remote_cli.Common.Int.{pos}
use remote_cli.Truncate.{cut_back, cut_forward, truncate_to_limit}

pub cut_back_bounds :
    (rounds : ℕ) (s : List ℕ) (cut : ℕ)
    → (cut_back rounds s cut ≤ cut) × (cut ≤ cut_back rounds s cut + rounds)
unfolding cut_back
cut_back_bounds zero s cut = omega arith
cut_back_bounds (suc rounds) s cut = ground (arith, cut_back_bounds rounds s (cut - 1))

pub cut_forward_bounds :
    (rounds : ℕ) (s : List ℕ) (start : ℕ)
    → start ≤ length s
    → (start ≤ cut_forward rounds s start)
      × (cut_forward rounds s start ≤ start + rounds)
      × (cut_forward rounds s start ≤ length s)
unfolding cut_forward
cut_forward_bounds zero s start h = omega arith
cut_forward_bounds (suc rounds) s start h = ground (arith, cut_forward_bounds rounds s (start + 1))

-- The head loop reads at `cut` and before it.
pub cut_back-take :
    (rounds m : ℕ) (s : List ℕ) (cut : ℕ)
    → cut < m
    → cut_back rounds (take m s) cut ≡ cut_back rounds s cut
unfolding cut_back
cut_back-take zero m s cut h = refl
cut_back-take (suc rounds) m s cut h =
    rw (get_or-take m cut s 0 h, cut_back-take rounds m s (cut - 1) (omega arith))

-- The tail loop reads from `start` on.
pub cut_forward-drop :
    (rounds k : ℕ) (s : List ℕ) (start : ℕ)
    → cut_forward rounds (drop k s) start + k ≡ cut_forward rounds s (start + k)
unfolding cut_forward
cut_forward-drop zero k s start = refl
cut_forward-drop (suc rounds) k s start =
    ground (
      arith,
      cut_forward-drop rounds k s (start + 1),
      get_or-drop k start s 0,
      length-drop k s,
      next,
    )
  where
    next : cut_forward rounds s (start + 1 + k) ≡ cut_forward rounds s (start + k + 1)
    next = ap (cut_forward rounds s) (omega arith)

-- For any bytes, also where they are no UTF-8, the result of `truncateToLimit` fits into `max`
-- bytes, and it is at most three bytes shorter than `max` and the text allow.
pub truncate_bounds :
    (s : List ℕ) (max : ℕ) (tail : Bool)
    → (length (truncate_to_limit s (pos max) tail) ≤ max)
      × (min max (length s) ≤ length (truncate_to_limit s (pos max) tail) + 3)
unfolding truncate_to_limit
truncate_bounds s max tail = ground (
  arith,
  cut_back_bounds 3 s max,
  cut_forward_bounds 3 s (length s - max),
  length-take (cut_back 3 s max) s,
  length-drop (cut_forward 3 s (length s - max)) s,
)

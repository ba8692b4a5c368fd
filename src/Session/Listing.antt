-- ===== src/Session/Listing.antt =====
-- `List`: the live sessions by creation time.
use mathlib.Core.List.{Perm, Mem, mem-cons_self, mem-cons_of_mem}
use mathlib.Core.List.Perm
use remote_cli.Common.{ℕ, ◌≤◌, ◌≡◌, ◌↔◌, inl, inr, false, some, [], ◌∷◌, String, arith, Bool-cases}
use remote_cli.Common.Dict.{lookup}
use remote_cli.Common.Sort.{
  All, Pairwise, oldest_first-perm, oldest_first-sorted, Older, All-oldest_first,
}
use remote_cli.Session.{Session, Sessions, expired, live, list}
use text.Mathlib.Text.{◌==◌}

in_time : (now : ℕ) (s : Session) → (expired s now ≡ false) ↔ (now ≤ s.expires_at)
unfolding expired
in_time now s = (λ e. ground arith, λ h. ground arith)

live_in_time : (now : ℕ) (m : Sessions) → All (λ s. now ≤ s.expires_at) (live now m)
unfolding live
live_in_time now [] = tt
live_in_time now ((id, s) ∷ m) = elim (Bool-cases (expired s now)) [
  | inl gone ↦ rw gone (live_in_time now m)
  | inr alive ↦ rw alive ((in_time now s).0 alive, live_in_time now m)
]

live_complete :
    (now : ℕ) (id : String) (s : Session) (m : Sessions)
    → lookup id m ≡ some s
    → now ≤ s.expires_at
    → Mem s (live now m)
unfolding live lookup
live_complete now id s [] at h = absurd (ground arith)
live_complete now id s ((k, x) ∷ m) at h = elim (Bool-cases (k == id)) [
  | inl same ↦
      let e : x ≡ s = ground arith in
      let alive : expired x now ≡ false = rw e ((in_time now s).1 h) in
      rw alive (rw e mem-cons_self)
  | inr other ↦
      let there : Mem s (live now m) = live_complete now id s m (ground arith) h in
      elim (Bool-cases (expired x now)) [
        | inl gone ↦ rw gone there
        | inr alive ↦ rw alive (mem-cons_of_mem x there)
      ]
]

-- `List` returns the entries that its `Range` finds in time, each as often as the map holds it,
-- ordered by creation time.
pub list_sorted :
    (now : ℕ) (m : Sessions)
    → Perm (list now m) (live now m)
      × All (λ s. now ≤ s.expires_at) (list now m)
      × Pairwise (Older (λ s. s.created_at)) (list now m)
unfolding list
list_sorted now m = (
  oldest_first-perm (λ s. s.created_at) (live now m),
  All-oldest_first (λ s. s.created_at) (λ s. now ≤ s.expires_at) (live now m) (live_in_time now m),
  oldest_first-sorted (λ s. s.created_at) (live now m),
)

-- A session that is stored and in time is among those that `List` returns.
pub list_complete :
    (now : ℕ) (m : Sessions) (id : String) (s : Session)
    → lookup id m ≡ some s
    → now ≤ s.expires_at
    → Mem s (list now m)
unfolding list
list_complete now m id s at h =
    (Perm.mem_iff (oldest_first-perm (λ x. x.created_at) (live now m))).1
      (live_complete now id s m at h)

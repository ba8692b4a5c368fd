-- ===== src/Output.antt =====
-- output.go and the truncation of executor.go: the bounded capture of a command's output.
-- `cappedBuffer` becomes the record `CappedBuffer`, a method returns the new buffer. Bytes are only
-- moved, so a byte is any number.
pub mod Ring
pub mod Stream
pub mod Refine
pub mod Capture
use remote_cli.Common.{
  ℕ, zero, suc, ◌+◌, ◌-◌, ◌%◌, min, Bool, true, false, not, ◌||◌, Option, none, some, List, [], ◌∷◌,
  ◌++◌, length, take, drop, replicate, leb, ltb, ◌==◌, if◌then◌else◌,
}
use remote_cli.Common.Int.{ℤ, pos, negsuc}

pub record CappedBuffer : Type 0 where
  pub limit : ℕ
  pub tail : Bool
  pub buf : List ℕ
  pub start : ℕ
  pub full : Bool
  pub total : ℕ

-- `newCappedBuffer`: a negative limit counts as 0.
unfoldable pub new_capped_buffer : ℤ → Bool → CappedBuffer
new_capped_buffer (pos n) tail = record {
  limit = n;
  tail = tail;
  buf = [];
  start = 0;
  full = false;
  total = 0;
}
new_capped_buffer (negsuc n) tail = record {
  limit = 0;
  tail = tail;
  buf = [];
  start = 0;
  full = false;
  total = 0;
}

-- Go's `copy(buf[at:], p)`: as many bytes as fit, the rest of `buf` stays.
unfoldable pub copy_at : ℕ → List ℕ → List ℕ → List ℕ
copy_at at p buf =
    take at buf ++ (take (length buf - at) p ++ drop (at + min (length buf - at) (length p)) buf)

-- `b.buf[:b.limit]`, or a new slice of zeroes where the capacity is too small.
unfoldable pub resliced : ℕ → List ℕ → List ℕ
resliced limit buf = take limit (buf ++ replicate limit 0)

-- The wrapping copy. Each round takes one byte of `p` at least, so `length p` rounds are enough;
-- `none` stands for a loop that makes no progress.
unfoldable pub wrap_copy : ℕ → ℕ → List ℕ → ℕ → List ℕ → Option (List ℕ × ℕ)
wrap_copy fuel limit buf start [] = some (buf, start)
wrap_copy zero limit buf start (x ∷ p) = none
wrap_copy (suc fuel) limit buf start (x ∷ p) =
    let c = min (length buf - start) (length (x ∷ p)) in
    wrap_copy fuel limit (copy_at start (x ∷ p) buf) ((start + c) % limit) (drop c (x ∷ p))

-- The part of `Write` below "fall through to the wrapping copy".
unfoldable pub write_ring : CappedBuffer → List ℕ → Option CappedBuffer
write_ring b p = elim (wrap_copy (length p) b.limit b.buf b.start p) [
  | none ↦ none
  | some (buf', start') ↦ some (record b { buf = buf'; start = start' })
]

-- Tail mode of `Write`, once `total` is brought up to date.
unfoldable pub write_tail : CappedBuffer → List ℕ → Option CappedBuffer
write_tail b p =
    if leb b.limit (length p)
    then some (record b {
      buf = copy_at 0 (drop (length p - b.limit) p) (resliced b.limit b.buf);
      start = 0;
      full = true;
    })
    else if b.full
    then write_ring b p
    else if leb (length b.buf + length p) b.limit
    then some (record b { buf = b.buf ++ p })
    else write_ring
        (record b { buf = b.buf ++ take (b.limit - length b.buf) p; full = true; start = 0 })
        (drop (b.limit - length b.buf) p)

-- Head mode of `Write`.
unfoldable pub write_head : CappedBuffer → List ℕ → CappedBuffer
write_head b p =
    let room = b.limit - length b.buf in
    if ltb 0 room
    then record b { buf = b.buf ++ (if ltb room (length p) then take room p else p) }
    else b

-- `Write`; it always reports `len(p)` and no error, so only the buffer is returned.
unfoldable pub write : CappedBuffer → List ℕ → Option CappedBuffer
write b p =
    let b' = record b { total = b.total + length p } in
    if b.limit == 0 then some b' else if not b.tail then some (write_head b' p) else write_tail b' p

-- `Bytes`: the retained bytes in write order.
unfoldable pub bytes : CappedBuffer → List ℕ
bytes b =
    if not b.tail || not b.full || b.start == 0
    then b.buf
    else drop b.start b.buf ++ take b.start b.buf

unfoldable pub truncated : CappedBuffer → Bool
truncated b = ltb (length b.buf) b.total

-- A command's writes, in order.
unfoldable pub write_all : CappedBuffer → List (List ℕ) → Option CappedBuffer
write_all b [] = some b
write_all b (p ∷ ps) = elim (write b p) [ none ↦ none | some b' ↦ write_all b' ps ]

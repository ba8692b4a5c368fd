-- ===== src/Files/Transfer/Download.antt =====
-- fileops.go: `DownloadBase64` called chunk by chunk.
use remote_cli.Files.{done, Info, Host, Op, go_on, ◌>>=◌, return, fail, look, checked, refused}
use remote_cli.Files.Manage.{path_in}
use remote_cli.Files.Base64
use remote_cli.Files.Transfer.{start_offset, chunk_size, decoded, window, download_base64}
use remote_cli.Common.{
  ℕ, zero, suc, ◌+◌, ◌-◌, ◌<◌, min, some, List, [], ◌∷◌, ◌++◌, if◌then◌else◌, length, leb, take,
  drop, length-take, length-drop, drop-drop, drop_of_length-le, ◌≡◌, refl, sym, ap, subst, inl, inr,
  Bool-cases, leb→le, leb→lt, arith,
}
use remote_cli.Common.Int.{ℤ, pos, negsuc}
use remote_cli.Common.Sort.{All}
use remote_cli.ReadOnly.{Process}
use remote_cli.Sandbox.{FilePath, valid, validate_path}

All-take : (n : ℕ) (s : List ℕ) → All (λ c. c < 256) s → All (λ c. c < 256) (take n s)
All-take zero s h = tt
All-take (suc n) [] h = tt
All-take (suc n) (c ∷ s) (h, hs) = (h, All-take n s hs)

All-drop : (n : ℕ) (s : List ℕ) → All (λ c. c < 256) s → All (λ c. c < 256) (drop n s)
All-drop zero s h = h
All-drop (suc n) [] h = tt
All-drop (suc n) (c ∷ s) (h, hs) = All-drop n s hs

-- The end of the loop is told right, and a piece that does not end the file is not empty.
piece_length :
    (offset m : ℕ) (content : List ℕ)
    → length (window offset m content) ≡ min m (length content - offset)
unfolding window
piece_length offset m content =
    omega (arith, length-take {0} m (drop offset content), length-drop {0} offset content)

window-All :
    (offset m : ℕ) (content : List ℕ)
    → All (λ c. c < 256) content
    → All (λ c. c < 256) (window offset m content)
unfolding window
window-All offset m content h = All-take m (drop offset content) (All-drop offset content h)

take_rest : (n : ℕ) (s : List ℕ) → take n s ++ drop (length (take n s)) s ≡ s
take_rest zero s = refl
take_rest (suc n) [] = refl
take_rest (suc n) (c ∷ s) = ap (λ (t : List ℕ). c ∷ t) (take_rest n s)

ends : (piece whole rest : List ℕ) → rest ≡ [] → piece ++ rest ≡ whole → piece ++ [] ≡ whole
ends piece whole rest e h = subst (λ (r : List ℕ). piece ++ r ≡ whole) e h

-- The window and what is behind it.
window-append-drop :
    (offset m : ℕ) (content : List ℕ)
    → window offset m content ++ drop (offset + length (window offset m content)) content
      ≡ drop offset content
unfolding window
window-append-drop offset m content =
    rw (sym (drop-drop (length (take m (drop offset content))) offset content))
      (take_rest m (drop offset content))

chunk_size-positive : (n : ℤ) → 0 < chunk_size n
unfolding chunk_size
chunk_size-positive (pos zero) = omega arith
chunk_size-positive (pos (suc n)) = omega arith
chunk_size-positive (negsuc n) = omega arith

module _ {D : Type 0} (os : Host D) (process : Process) (cwd : FilePath)
    (roots : List FilePath) where
  -- A client that downloads from an offset on: it asks for the bytes behind those it has until a
  -- result says that the end is reached, for at most `calls` calls.
  abbrev pub download_from : ℕ → List ℕ → ℤ → ℕ → Op D (List ℕ)
  download_from zero path max_bytes offset = fail (refused "too many calls")
  download_from (suc calls) path max_bytes offset = do
    r ←
        download_base64 os process cwd roots
          (record { path = path; offset = pos offset; max_bytes = max_bytes })
    piece ← look (λ _. decoded (Base64.decode (r.data_b64)))
    rest ← if r.eof then return [] else download_from calls path max_bytes (offset + r.bytes_read)
    return (piece ++ rest)

  module _ (d : D) (path : List ℕ) (abs : FilePath) (info : Info) (content : List ℕ)
      (passes : validate_path (os.links d) cwd path roots ≡ valid abs)
      (opens : os.open_read d abs ≡ done tt) (found : os.stat d abs ≡ done info)
      (holds : os.read_file d abs ≡ done content) (size : info.size ≡ length content)
      (bytes : All (λ c. c < 256) content) where
    -- One call, at an offset.
    download_base64-piece :
        (offset : ℕ) (max_bytes : ℤ)
        → os.make_bytes (chunk_size max_bytes) ≡ done tt
        → download_base64 os process cwd roots
            (record { path = path; offset = pos offset; max_bytes = max_bytes })
            d
          ≡ (
            done (record {
              path = abs;
              bytes_read = length (window offset (chunk_size max_bytes) content);
              offset = offset;
              total_size = info.size;
              eof =
                  leb (info.size) (offset + length (window offset (chunk_size max_bytes) content));
              data_b64 = Base64.encode (window offset (chunk_size max_bytes) content);
            }),
            d,
          )
    unfolding download_base64 path_in go_on start_offset checked
    download_base64-piece offset max_bytes fits = rw (passes, opens, found, holds, fits) refl

    -- From an offset on.
    download_from-rest :
        (calls : ℕ) (max_bytes : ℤ) (offset : ℕ)
        → os.make_bytes (chunk_size max_bytes) ≡ done tt
        → length content - offset < calls
        → download_from calls path max_bytes offset d ≡ (done (drop offset content), d)
    unfolding go_on decoded
    download_from-rest zero max_bytes offset fits h = absurd (omega arith)
    download_from-rest (suc calls) max_bytes offset fits h =
        let size_of = chunk_size max_bytes in
        let piece = window offset size_of content in
        let whole : Base64.decode (Base64.encode piece) ≡ some piece =
          Base64.decode-encode piece (window-All offset size_of content bytes) in
        let read = piece_length offset size_of content in
        let some_bytes = chunk_size-positive max_bytes in
        elim (Bool-cases (leb (info.size) (offset + length piece))) [
          | inl e ↦
              rw (download_base64-piece offset max_bytes fits, whole, e)
                (ap (λ (t : List ℕ). (done t, d))
                  (ends piece (drop offset content) _
                    (drop_of_length-le (offset + length piece) content
                      (omega (arith, size, leb→le _ _ e)))
                    (window-append-drop offset size_of content)))
          | inr e ↦
              rw
                (
                  download_base64-piece offset max_bytes fits,
                  whole,
                  e,
                  download_from-rest calls max_bytes (offset + length piece) fits
                      (omega (arith, size, read, some_bytes, leb→lt _ _ e)),
                )
                (ap (λ (t : List ℕ). (done t, d)) (window-append-drop offset size_of content))
        ]

    -- A client that downloads a file in pieces, asking behind the bytes that it has until a result
    -- tells the end, gets exactly the file, with one call for each byte and one more at most. It may ask
    -- for any size for which a buffer can be allocated (none or a negative one is the default). The
    -- path passes the sandbox, the file is there, its size is that of its content, and no one
    -- changes it between the calls.
    pub download_from-whole :
        (max_bytes : ℤ)
        → os.make_bytes (chunk_size max_bytes) ≡ done tt
        → download_from (suc (length content)) path max_bytes 0 d ≡ (done content, d)
    download_from-whole max_bytes fits =
        download_from-rest (suc (length content)) max_bytes 0 fits (omega arith)

-- ===== src/Io/Read.antt =====
-- What IoReadFileHandle copies out of a file.
use ntx_preview.Base.{ℕ, zero, suc, ◌+◌, ◌-◌, ◌<◌, ◌≡◌, refl, min, arith, length, get_or}
use ntx_preview.Io.{File, read_bytes, read_file}

length-read_bytes : (bytes : ℕ → ℕ) (offset n : ℕ) → length (read_bytes bytes offset n) ≡ n
unfolding read_bytes
length-read_bytes bytes offset zero = refl
length-read_bytes bytes offset (suc n) = omega (arith, length-read_bytes bytes (offset + 1) n)

read_bytes-get :
    (bytes : ℕ → ℕ) (offset n k : ℕ)
    → k < n
    → get_or (read_bytes bytes offset n) k 0 ≡ bytes (offset + k)
unfolding read_bytes
read_bytes-get bytes offset zero k l = absurd (omega arith)
read_bytes-get bytes offset (suc n) zero l = let e : offset + 0 ≡ offset = omega arith in rw e refl
read_bytes-get bytes offset (suc n) (suc k) l =
    let e : offset + suc k ≡ offset + 1 + k = omega arith in
    rw e (read_bytes-get bytes (offset + 1) n k (omega arith))

-- A read gives as many bytes as the buffer takes, and no more than the file has behind the offset;
-- byte `k` of them is the byte of the file at the offset and `k`. Past the end it gives none.
pub read_file-slice :
    (file : File) (offset buffer_length : ℕ)
    → (length (read_file file offset buffer_length) ≡ min buffer_length (file.size - offset))
      × ((k : ℕ)
          → k < min buffer_length (file.size - offset)
          → get_or (read_file file offset buffer_length) k 0 ≡ file.bytes (offset + k))
unfolding read_file
read_file-slice file offset buffer_length = (
  ground (
    arith,
    length-read_bytes file.bytes offset buffer_length,
    length-read_bytes file.bytes offset (file.size - offset),
  ),
  λ k l. ground (
    arith,
    read_bytes-get file.bytes offset buffer_length k,
    read_bytes-get file.bytes offset (file.size - offset) k,
  ),
)

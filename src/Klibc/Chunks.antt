-- ===== src/Klibc/Chunks.antt =====
-- What the fill and move loops do to the memory, byte by byte.
use meu_so_baremetal.Prelude.{
  ℕ, zero, suc, ◌+◌, ◌-◌, ◌*◌, ◌/◌, ◌%◌, ◌≤◌, ◌≡◌, ◌∙◌, ◌⊎◌, arith, if◌then◌else◌,
}
use meu_so_baremetal.Klibc.{
  ByteMem, within, store_chunk, move_chunk, fill_chunks, move_chunks, fast_memset, fast_memcpy,
}

pub fill_chunks_lem :
    (w k d v : ℕ) (m : ByteMem) (x : ℕ)
    → fill_chunks w k d v m x ≡ (if within d (w * k) x then v else m x)
unfolding fill_chunks
fill_chunks_lem w zero d v m x = ground arith
fill_chunks_lem w (suc k) d v m x =
    ground (arith, fill_chunks_lem w k (d + w) v (store_chunk w d v m) x)

-- The `n` bytes at `d` and the `n` bytes at `s` do not overlap.
abbrev pub Apart : ℕ → ℕ → ℕ → Type 0
Apart d s n = (s + n ≤ d) ⊎ (d + n ≤ s)

pub move_chunks_lem :
    (w k d s : ℕ) (m : ByteMem) (x : ℕ)
    → Apart d s (w * k)
    → move_chunks w k d s m x ≡ (if within d (w * k) x then m (s + (x - d)) else m x)
unfolding move_chunks
move_chunks_lem w zero d s m x ap' = ground arith
move_chunks_lem w (suc k) d s m x ap' =
    move_chunks_lem w k (d + w) (s + w) (move_chunk w d s m) x (omega arith) ∙ ground arith

-- `fast_memset` sets exactly the `n` bytes at `dest`.
pub fast_memset_lem :
    (dest val n : ℕ) (m : ByteMem) (x : ℕ)
    → fast_memset dest val n m x ≡ (if within dest n x then val else m x)
unfolding fast_memset
fast_memset_lem dest val n m x =
    fill_chunks_lem 1 (n % 8) (dest + 8 * (n / 8)) val _ x
    ∙ ground (arith, fill_chunks_lem 8 (n / 8) dest val m x)

-- `fast_memcpy` copies exactly the `n` bytes at `src` to `dest`, if the two do not overlap.
pub fast_memcpy_lem :
    (dest src n : ℕ) (m : ByteMem) (x : ℕ)
    → Apart dest src n
    → fast_memcpy dest src n m x ≡ (if within dest n x then m (src + (x - dest)) else m x)
unfolding fast_memcpy
fast_memcpy_lem dest src n m x ap' =
    move_chunks_lem 1 (n % 8) (dest + 8 * (n / 8)) (src + 8 * (n / 8)) _ x (omega arith)
    ∙ ground (
      arith,
      move_chunks_lem 8 (n / 8) dest src m x,
      move_chunks_lem 8 (n / 8) dest src m (src + 8 * (n / 8) + (x - (dest + 8 * (n / 8)))),
    )

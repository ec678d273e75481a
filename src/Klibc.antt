-- ===== src/Klibc.antt =====
-- src/klibc.c and the block copies of src/memory.c: byte memory, filled and copied in chunks.
-- A byte memory gives the byte at each address. C strings are lists of bytes, ended by the list's
-- end or by a zero byte.
pub mod Chunks
pub mod Strings
mod Tests
use meu_so_baremetal.Prelude.{
  ℕ, zero, suc, ◌+◌, ◌-◌, ◌*◌, ◌/◌, ◌%◌, Bool, true, false, ◌&&◌, List, [], ◌∷◌, leb, ltb, ◌==◌,
  if◌then◌else◌,
}
use meu_so_baremetal.Prelude.Int.{ℤ, pos, sub_ℕ}

abbrev pub ByteMem : Type 0
ByteMem = ℕ → ℕ

-- `x` lies in the `n` bytes from `a` on.
abbrev pub within : ℕ → ℕ → ℕ → Bool
within a n x = leb a x && ltb x (a + n)

-- One store instruction of `w` bytes, all of them `v`.
abbrev pub store_chunk : ℕ → ℕ → ℕ → ByteMem → ByteMem
store_chunk w d v m x = if within d w x then v else m x

-- One load and store of `w` bytes.
abbrev pub move_chunk : ℕ → ℕ → ℕ → ByteMem → ByteMem
move_chunk w d s m x = if within d w x then m (s + (x - d)) else m x

-- `k` rounds of a store loop (`rep stos`, or the loop of `kmemset128_zero`).
unfoldable pub fill_chunks : ℕ → ℕ → ℕ → ℕ → ByteMem → ByteMem
fill_chunks w zero d v m = m
fill_chunks w (suc k) d v m = fill_chunks w k (d + w) v (store_chunk w d v m)

-- `k` rounds of a move loop (`rep movs`, or the loop of `kmemcpy128`).
unfoldable pub move_chunks : ℕ → ℕ → ℕ → ℕ → ByteMem → ByteMem
move_chunks w zero d s m = m
move_chunks w (suc k) d s m = move_chunks w k (d + w) (s + w) (move_chunk w d s m)

unfoldable pub fast_memset : ℕ → ℕ → ℕ → ByteMem → ByteMem
fast_memset dest val n m =
    fill_chunks 1 (n % 8) (dest + 8 * (n / 8)) val (fill_chunks 8 (n / 8) dest val m)

unfoldable pub fast_memcpy : ℕ → ℕ → ℕ → ByteMem → ByteMem
fast_memcpy dest src n m =
    move_chunks 1 (n % 8) (dest + 8 * (n / 8)) (src + 8 * (n / 8))
      (move_chunks 8 (n / 8) dest src m)

unfoldable pub kmemset128_zero : ℕ → ℕ → ByteMem → ByteMem
kmemset128_zero dest count m =
    if dest == 0 then m else if count == 0 then m else fill_chunks 16 count dest 0 m

unfoldable pub kmemcpy128 : ℕ → ℕ → ℕ → ByteMem → ByteMem
kmemcpy128 dest src count m =
    if dest == 0
    then m
    else if src == 0
    then m
    else if count == 0
    then m
    else move_chunks 16 count dest src m

-- The byte at the head, the terminator at the end.
abbrev pub head_byte : List ℕ → ℕ
head_byte [] = 0
head_byte (c ∷ cs) = c

unfoldable pub kstrcmp : List ℕ → List ℕ → ℤ
kstrcmp [] t = sub_ℕ 0 (head_byte t)
kstrcmp (c ∷ cs) [] = sub_ℕ c 0
kstrcmp (c ∷ cs) (d ∷ ds) =
    let rest = kstrcmp cs ds in if c == 0 then sub_ℕ c d else if c == d then rest else sub_ℕ c d

unfoldable pub kstrncmp : List ℕ → List ℕ → ℕ → ℤ
kstrncmp s t zero = pos 0
kstrncmp [] t (suc n) = sub_ℕ 0 (head_byte t)
kstrncmp (c ∷ cs) [] (suc n) = sub_ℕ c 0
kstrncmp (c ∷ cs) (d ∷ ds) (suc n) =
    let rest = kstrncmp cs ds n in if c == 0 then sub_ℕ c d else if c == d then rest else sub_ℕ c d

unfoldable pub kstrlen : List ℕ → ℕ
kstrlen [] = 0
kstrlen (c ∷ cs) = let rest = kstrlen cs in if c == 0 then 0 else suc rest

-- The bytes that `kstrcpy` writes at `dest`, the terminator included.
unfoldable pub kstrcpy : ℕ → List ℕ → ByteMem → ByteMem
kstrcpy dest [] m = store_chunk 1 dest 0 m
kstrcpy dest (c ∷ cs) m =
    let rest = kstrcpy (dest + 1) cs (store_chunk 1 dest c m) in
    if c == 0 then store_chunk 1 dest 0 m else rest

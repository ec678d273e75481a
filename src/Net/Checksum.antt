-- ===== src/Net/Checksum.antt =====
-- `ip_checksum` of src/net.c, and the receiver's check of it.
use meu_so_baremetal.Prelude.{
  ℕ, zero, suc, ◌+◌, ◌-◌, ◌*◌, ◌/◌, ◌%◌, ◌^◌, ◌<◌, ◌≤◌, ◌≡◌, ◌∙◌, refl, ap, ltb, ◌==◌, arith,
  if◌then◌else◌,
}
use meu_so_baremetal.Klibc.{ByteMem}
use meu_so_baremetal.Net.{put16, bswap16}

-- The word at index `i` of `length` bytes at `a`, in network order, the last one padded with 0.
abbrev pub word_at : (a i length : ℕ) → ByteMem → ℕ
word_at a i length m = m (a + i) * 256 + (if ltb (i + 1) length then m (a + i + 1) else 0)

-- `k` rounds of the loop, from index `i` on; the sum is an `uint32_t`.
unfoldable pub sum_words : (k i a length : ℕ) → ByteMem → ℕ → ℕ
sum_words zero i a length m sum = sum
sum_words (suc k) i a length m sum =
    sum_words k (i + 2) a length m ((sum + word_at a i length m) % 2 ^ 32)

-- The fold of the carries, with fuel.
unfoldable pub fold : ℕ → ℕ → ℕ
fold zero sum = sum
fold (suc k) sum =
    let rest = fold k (sum % 2 ^ 16 + sum / 2 ^ 16) in if sum / 2 ^ 16 == 0 then sum else rest

unfoldable pub ip_checksum : (a length : ℕ) → ByteMem → ℕ
ip_checksum a length m = bswap16 (2 ^ 16 - 1 - fold 2 (sum_words ((length + 1) / 2) 0 a length m 0))

-- Two rounds are enough for any 32-bit sum: no carry is left.
pub fold_ends : (sum : ℕ) → sum < 2 ^ 32 → fold 2 sum < 2 ^ 16
unfolding fold
fold_ends sum lt = ground (arith, lt)

-- The fold of a sum that is not 0 is the sum modulo 65535, with 65535 for 0.
fold_mod : (sum : ℕ) → sum < 2 ^ 32 → fold 2 sum % 65535 ≡ sum % 65535
unfolding fold
fold_mod sum lt = ground (arith, lt)

fold_pos : (sum : ℕ) → sum < 2 ^ 32 → 0 < sum → 0 < fold 2 sum
unfolding fold
fold_pos sum lt pos = ground (arith, lt, pos)

-- The sum of `k` words from index `i` on, without wrap-around.
abbrev pub total : (k i a : ℕ) → ByteMem → ℕ
total zero i a m = 0
total (suc k) i a m = m (a + i) * 256 + m (a + i + 1) + total k (i + 2) a m

total_bound : (k i a : ℕ) (m : ByteMem) → ((x : ℕ) → m x < 256) → total k i a m ≤ 65535 * k
total_bound zero i a m small = omega arith
total_bound (suc k) i a m small =
    omega (arith, total_bound k (i + 2) a m small, small (a + i), small (a + i + 1))

sum_words_lem :
    (k i a length : ℕ) (m : ByteMem) (sum : ℕ)
    → i + 2 * k ≤ length
    → sum + total k i a m < 2 ^ 32
    → sum_words k i a length m sum ≡ sum + total k i a m
unfolding sum_words
sum_words_lem zero i a length m sum le lt = omega arith
sum_words_lem (suc k) i a length m sum le lt =
    let w : (sum + word_at a i length m) % 2 ^ 32 ≡ sum + (m (a + i) * 256 + m (a + i + 1)) =
      ground (arith, le, lt) in
    ap (sum_words k (i + 2) a length m) w
    ∙ sum_words_lem k (i + 2) a length m (sum + (m (a + i) * 256 + m (a + i + 1))) (omega arith)
        (omega arith)
    ∙ omega arith

total_outside :
    (k i o a v : ℕ) (m : ByteMem) → o + 1 < i → total k i a (put16 (a + o) v m) ≡ total k i a m
total_outside zero i o a v m lt = refl
total_outside (suc k) i o a v m lt =
    ground (arith, lt, total_outside k (i + 2) o a v m (omega arith))

-- A word stored where there was 0 adds its value in network order.
total_put :
    (k i j o a v : ℕ) (m : ByteMem)
    → o ≡ i + 2 * j
    → j < k
    → v < 2 ^ 16
    → m (a + o) ≡ 0
    → m (a + o + 1) ≡ 0
    → total k i a (put16 (a + o) v m) ≡ total k i a m + bswap16 v
total_put zero i j o a v m e lt fits z0 z1 = absurd (omega arith)
total_put (suc k) i zero o a v m e lt fits z0 z1 =
    let same : a + i ≡ a + o = omega arith in
    let same' : a + i + 1 ≡ a + o + 1 = omega arith in
    let y0 : m (a + i) ≡ 0 = ap m same ∙ z0 in
    let y1 : m (a + i + 1) ≡ 0 = ap m same' ∙ z1 in
    ground (arith, e, fits, y0, y1, total_outside k (i + 2) o a v m (omega arith))
total_put (suc k) i (suc j) o a v m e lt fits z0 z1 =
    ground (arith, e, total_put k (i + 2) j o a v m (omega arith) (omega arith) fits z0 z1)

bswap16_twice : (x : ℕ) → x < 2 ^ 16 → bswap16 (bswap16 x) ≡ x
bswap16_twice x lt = omega arith

bswap16_small : (x : ℕ) → bswap16 x < 2 ^ 16
bswap16_small x = omega arith

complement_some :
    (sum : ℕ) → 0 < sum → sum + 2 ^ 16 < 2 ^ 32 → fold 2 (sum + (65535 - fold 2 sum)) ≡ 65535
complement_some sum pos lt =
    let low = fold_ends sum (omega arith) in
    let again = sum + (65535 - fold 2 sum) in
    let fit : again < 2 ^ 32 = omega (arith, low, lt) in
    omega (
      arith,
      low,
      fold_mod sum (omega arith),
      fold_pos sum (omega arith) pos,
      fold_ends again fit,
      fold_mod again fit,
      fold_pos again fit (omega (arith, pos)),
    )

-- The folded sum and its complement make up 65535, also for a sum of 0.
fold_complement : (sum : ℕ) → sum + 2 ^ 16 < 2 ^ 32 → fold 2 (sum + (65535 - fold 2 sum)) ≡ 65535
fold_complement zero lt = unfold fold in refl
fold_complement (suc sum) lt = complement_some (suc sum) (omega arith) lt

-- If the checksum of `2 * k` bytes, at most 64 KiB, with 0 in their word `j`, is stored as word
-- `j`, the folded sum of all words is then 65535, which is the receiver's test.
pub ip_checksum_verifies :
    (k j a : ℕ) (m : ByteMem)
    → j < k
    → k ≤ 2 ^ 15
    → ((x : ℕ) → m x < 256)
    → m (a + 2 * j) ≡ 0
    → m (a + 2 * j + 1) ≡ 0
    → fold 2 (sum_words k 0 a (2 * k) (put16 (a + 2 * j) (ip_checksum a (2 * k) m) m) 0) ≡ 65535
unfolding ip_checksum
ip_checksum_verifies k j a m jk kb small z0 z1 =
    let sum = total k 0 a m in
    let x = 65535 - fold 2 sum in
    let o = 2 * j in
    let bound = total_bound k 0 a m small in
    let half : (2 * k + 1) / 2 ≡ k = omega arith in
    let first : sum_words ((2 * k + 1) / 2) 0 a (2 * k) m 0 ≡ sum =
      ap (λ n. sum_words n 0 a (2 * k) m 0) half
      ∙ sum_words_lem k 0 a (2 * k) m 0 (omega arith) (omega (arith, bound, kb))
      ∙ omega arith in
    let put = total_put k 0 j o a (bswap16 x) m (omega arith) jk (bswap16_small x) z0 z1 in
    let whole : 0 + total k 0 a (put16 (a + o) (bswap16 x) m) ≡ sum + x =
      omega (arith, put, bswap16_twice x (omega arith)) in
    ap (λ t. fold 2 (sum_words k 0 a (2 * k) (put16 (a + o) (bswap16 (65535 - fold 2 t)) m) 0))
      first
    ∙ ap (fold 2) (
        sum_words_lem k 0 a (2 * k) (put16 (a + o) (bswap16 x) m) 0 (omega arith)
          (omega (arith, whole, bound, kb))
        ∙ whole)
    ∙ fold_complement sum (omega (arith, bound, kb))

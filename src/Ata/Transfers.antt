-- ===== src/Ata/Transfers.antt =====
-- The transfers of src/ata.c against the bytes of the sectors.
use mathlib.Core.List.{◌∷◌}
use meu_so_baremetal.Prelude.{
  ℕ, zero, suc, ◌+◌, ◌-◌, ◌*◌, ◌/◌, ◌%◌, ◌^◌, ◌<◌, ◌≡◌, ◌∙◌, sym, ap, ◌&&◌, ltb, ◌==◌, arith,
  if◌then◌else◌,
}
use meu_so_baremetal.Prelude.Events.{Trace, outw}
use meu_so_baremetal.Klibc.{ByteMem, within}
use meu_so_baremetal.Ata.{
  Drive, addressed, select, word, update, read_words, ata_read_sector, write_words,
  ata_write_sector,
}

-- A sector number of at most 28 bits reaches the drive whole.
addressed_lem : (lba : ℕ) → lba < 2 ^ 28 → addressed lba ≡ lba
addressed_lem lba lt = omega arith

low_byte : (a b : ℕ) → a < 256 → (a + 256 * b) % 256 ≡ a
low_byte a b lt = omega arith

high_byte : (a b : ℕ) → a < 256 → b < 256 → (a + 256 * b) / 256 % 256 ≡ b
high_byte a b lt lt' = omega arith

read_words_lem :
    (k i buffer : ℕ) (bytes : ℕ → ℕ) (m : ByteMem) (x : ℕ)
    → ((y : ℕ) → bytes y < 256)
    → read_words k i buffer bytes m x
      ≡ (if within (buffer + 2 * i) (2 * k) x then bytes (x - buffer) else m x)
unfolding read_words
read_words_lem zero i buffer bytes m x small = ground arith
read_words_lem (suc k) i buffer bytes m x small =
    let w = word bytes i in
    read_words_lem k (suc i) buffer bytes
      (update (update m (buffer + i * 2) (w % 2 ^ 8)) (buffer + i * 2 + 1) (w / 2 ^ 8 % 2 ^ 8)) x
      small
    ∙ (let low = low_byte (bytes (2 * i)) (bytes (2 * i + 1)) (small (2 * i)) in
        let high =
          high_byte (bytes (2 * i)) (bytes (2 * i + 1)) (small (2 * i)) (small (2 * i + 1)) in
        let at_low : x ≡ buffer + i * 2 → bytes (x - buffer) ≡ bytes (2 * i) =
          λ e. ap bytes (omega (arith, e)) in
        let at_high : x ≡ buffer + i * 2 + 1 → bytes (x - buffer) ≡ bytes (2 * i + 1) =
          λ e. ap bytes (omega (arith, e)) in
        ground (arith, low, high, at_low, at_high))

write_words_lem :
    (k i buffer : ℕ) (m : ByteMem) (bytes : ℕ → ℕ) (trace : Trace) (x : ℕ)
    → ((y : ℕ) → m y < 256)
    → (write_words k i buffer m (bytes, trace)).0 x
      ≡ (if within (2 * i) (2 * k) x then m (buffer + x) else bytes x)
unfolding write_words
write_words_lem zero i buffer m bytes trace x small = ground arith
write_words_lem (suc k) i buffer m bytes trace x small =
    let a = m (buffer + i * 2) in
    let b = m (buffer + i * 2 + 1) in
    write_words_lem k (suc i) buffer m
      (update (update bytes (2 * i) ((a + 256 * b) % 256)) (2 * i + 1) ((a + 256 * b) / 256 % 256))
      (outw 0x01F0 (a + 256 * b) ∷ trace) x small
    ∙ (let low = low_byte a b (small (buffer + i * 2)) in
        let high = high_byte a b (small (buffer + i * 2)) (small (buffer + i * 2 + 1)) in
        let at_low : x ≡ 2 * i → m (buffer + x) ≡ a = λ e. ap m (omega (arith, e)) in
        let at_high : x ≡ 2 * i + 1 → m (buffer + x) ≡ b = λ e. ap m (omega (arith, e)) in
        ground (arith, low, high, at_low, at_high))

written_sector :
    (lba l source : ℕ) (m : ByteMem) (d : Drive) (y : ℕ)
    → lba < 2 ^ 28
    → ((y : ℕ) → m y < 256)
    → (ata_write_sector lba source m d).sector l y
      ≡ (if (l == lba) && ltb y 512 then m (source + y) else d.sector l y)
unfolding ata_write_sector
written_sector lba l source m d y fit small =
    let n = addressed_lem lba fit in
    let w =
      write_words_lem 256 0 source m (d.sector (addressed lba)) (select 0x30 lba d.trace) y small in
    let same : l ≡ addressed lba → d.sector (addressed lba) y ≡ d.sector l y =
      λ e. ap (λ k. d.sector k y) (sym e) in
    ground (arith, n, w, same)

written_small :
    (lba l source : ℕ) (m : ByteMem) (d : Drive) (y : ℕ)
    → lba < 2 ^ 28
    → ((y : ℕ) → m y < 256)
    → ((l y : ℕ) → d.sector l y < 256)
    → (ata_write_sector lba source m d).sector l y < 256
written_small lba l source m d y fit small small' =
    let e = written_sector lba l source m d y fit small in
    let a = small (source + y) in let b = small' l y in ground (arith, e, a, b)

-- For two sector numbers below 2 ^ 28, and memory and sectors that hold bytes: a sector read back
-- after it was written from `source` is copied to `dest`, its 512 bytes are the ones at `source`,
-- and no other byte of the memory changes; a sector with another number reads as before the write.
pub ata_read_sector-ata_write_sector :
    (lba lba' source dest : ℕ) (m : ByteMem) (d : Drive) (x : ℕ)
    → lba < 2 ^ 28
    → lba' < 2 ^ 28
    → ((y : ℕ) → m y < 256)
    → ((l y : ℕ) → d.sector l y < 256)
    → (ata_read_sector lba' dest (m, ata_write_sector lba source m d)).0 x ≡ (
        if within dest 512 x
        then (if lba' == lba then m (source + (x - dest)) else d.sector lba' (x - dest))
        else m x)
unfolding ata_read_sector
ata_read_sector-ata_write_sector lba lba' source dest m d x fit fit' small small' =
    let d' = ata_write_sector lba source m d in
    let n' = addressed_lem lba' fit' in
    let all_small : (y : ℕ) → d'.sector (addressed lba') y < 256 =
      λ y. written_small lba (addressed lba') source m d y fit small small' in
    let found : d'.sector (addressed lba') (x - dest) ≡ d'.sector lba' (x - dest) =
      ap (λ k. d'.sector k (x - dest)) n' in
    let w = written_sector lba lba' source m d (x - dest) fit small in
    read_words_lem 256 0 dest (d'.sector (addressed lba')) m x all_small ∙ ground (arith, found, w)

-- ===== src/Ata.antt =====
-- src/ata.c: sector transfers by programmed I/O, with the AHCI controller inactive.
-- A drive gives the bytes of each sector; it takes the sector's number from the four address
-- registers, 28 bits in all. The waits for the drive and the lock are left out.
pub mod Transfers
mod Tests
use meu_so_baremetal.Prelude.{
  ℕ, zero, suc, ◌+◌, ◌*◌, ◌/◌, ◌%◌, ◌^◌, Bool, true, false, ◌∷◌, ◌==◌, if◌then◌else◌,
}
use meu_so_baremetal.Prelude.Events.{Trace, outb, outw}
use meu_so_baremetal.Klibc.{ByteMem}

pub record Drive : Type 0 where
  pub sector : ℕ → ℕ → ℕ
  pub trace : Trace

-- The number that the registers 0x1F3 to 0x1F6 hold.
abbrev pub addressed : ℕ → ℕ
addressed lba =
    lba % 2 ^ 8
    + 2 ^ 8 * (lba / 2 ^ 8 % 2 ^ 8)
    + 2 ^ 16 * (lba / 2 ^ 16 % 2 ^ 8)
    + 2 ^ 24 * (lba / 2 ^ 24 % 2 ^ 4)

abbrev pub select : (command lba : ℕ) → Trace → Trace
select command lba trace =
    outb 0x1F7 command
    ∷ outb 0x1F5 (lba / 2 ^ 16 % 2 ^ 8)
    ∷ outb 0x1F4 (lba / 2 ^ 8 % 2 ^ 8)
    ∷ outb 0x1F3 (lba % 2 ^ 8)
    ∷ outb 0x1F2 1
    ∷ outb 0x1F6 (0xE0 + lba / 2 ^ 24 % 2 ^ 4)
    ∷ trace

-- Word `i` of a sector, as the data port gives it.
abbrev pub word : (ℕ → ℕ) → ℕ → ℕ
word bytes i = bytes (2 * i) + 2 ^ 8 * bytes (2 * i + 1)

abbrev pub update : (ℕ → ℕ) → ℕ → ℕ → ℕ → ℕ
update f i v j = if j == i then v else f j

-- `k` rounds of the loop of a read, from word `i` on.
unfoldable pub read_words : (k i buffer : ℕ) → (ℕ → ℕ) → ByteMem → ByteMem
read_words zero i buffer bytes m = m
read_words (suc k) i buffer bytes m =
    let w = word bytes i in
    read_words k (suc i) buffer bytes
      (update (update m (buffer + i * 2) (w % 2 ^ 8)) (buffer + i * 2 + 1) (w / 2 ^ 8 % 2 ^ 8))

unfoldable pub ata_read_sector : (lba buffer : ℕ) → ByteMem × Drive → ByteMem × Drive
ata_read_sector lba buffer (m, d) = (
  read_words 256 0 buffer (d.sector (addressed lba)) m,
  record d { trace = select 0x20 lba d.trace },
)

-- `k` rounds of the loop of a write: what the drive takes into the sector, and the port writes.
unfoldable pub write_words : (k i buffer : ℕ) → ByteMem → (ℕ → ℕ) × Trace → (ℕ → ℕ) × Trace
write_words zero i buffer m (bytes, trace) = (bytes, trace)
write_words (suc k) i buffer m (bytes, trace) =
    let w = m (buffer + i * 2) + 2 ^ 8 * m (buffer + i * 2 + 1) in
    write_words k (suc i) buffer m (
      update (update bytes (2 * i) (w % 2 ^ 8)) (2 * i + 1) (w / 2 ^ 8 % 2 ^ 8),
      outw 0x01F0 w ∷ trace,
    )

unfoldable pub ata_write_sector : (lba buffer : ℕ) → ByteMem → Drive → Drive
ata_write_sector lba buffer m d =
    let n = addressed lba in
    let (bytes, trace) = write_words 256 0 buffer m (d.sector n, select 0x30 lba d.trace) in
    record d { sector = λ j. if j == n then bytes else d.sector j; trace = outb 0x1F7 0xE7 ∷ trace }

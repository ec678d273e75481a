-- ===== src/Fat32.antt =====
-- src/fat32.c and include/fat32.h: the volume's geometry, file names, directory entries, and whole
-- files read and written. The directory is one sector of sixteen entries.
pub mod Names
pub mod Files
pub mod Lost
mod Tests
use meu_so_baremetal.Prelude.{
  ℕ, zero, suc, ◌+◌, ◌-◌, ◌*◌, ◌/◌, ◌%◌, ◌^◌, Bool, true, false, not, ◌&&◌, ◌||◌, List, [], ◌∷◌,
  ltb, leb, ◌==◌, if◌then◌else◌,
}
use meu_so_baremetal.Prelude.Text.{codes}
use meu_so_baremetal.Klibc.{ByteMem, fast_memset, fast_memcpy}
use meu_so_baremetal.Memory.{Heap}
use meu_so_baremetal.Ata.{Drive, ata_read_sector, ata_write_sector}

-- The fields of the boot sector that the code uses, where it keeps the rest of the volume, the
-- sector buffer, the drive, and the heap that file contents are read into.
pub record Fat : Type 0 where
  pub bytes_per_sector : ℕ
  pub sectors_per_cluster : ℕ
  pub reserved_sectors : ℕ
  pub fat_count : ℕ
  pub sectors_per_fat_32 : ℕ
  pub root_cluster : ℕ
  pub fat_start_sector : ℕ
  pub cluster_start_sector : ℕ
  pub sector_buffer : ByteMem
  pub drive : Drive
  pub heap : Heap

abbrev pub get16 : ℕ → ByteMem → ℕ
get16 a m = m a + 2 ^ 8 * m (a + 1)

abbrev pub get32 : ℕ → ByteMem → ℕ
get32 a m = get16 a m + 2 ^ 16 * get16 (a + 2) m

abbrev pub put8 : ℕ → ℕ → ByteMem → ByteMem
put8 a v m x = if x == a then v % 2 ^ 8 else m x

abbrev pub put16 : ℕ → ℕ → ByteMem → ByteMem
put16 a v m = put8 (a + 1) (v / 2 ^ 8) (put8 a v m)

abbrev pub put32 : ℕ → ℕ → ByteMem → ByteMem
put32 a v m = put16 (a + 2) (v / 2 ^ 16) (put16 a v m)

-- The bytes of a list stored at `a`.
abbrev pub put_bytes : ℕ → List ℕ → ByteMem → ByteMem
put_bytes a [] m = m
put_bytes a (b ∷ bs) m = put_bytes (suc a) bs (put8 a b m)

-- `ata_read_sector(lba, sector_buffer)` and `ata_write_sector(lba, sector_buffer)`.
unfoldable pub load : ℕ → Fat → Fat
load lba s =
    let (m, d) = ata_read_sector lba 0 (s.sector_buffer, s.drive) in
    record s { sector_buffer = m; drive = d }

unfoldable pub store : ℕ → Fat → Fat
store lba s = record s { drive = ata_write_sector lba 0 s.sector_buffer s.drive }

-- The copy of the boot sector in the buffer to `bpb`.
unfoldable pub read_bpb : Fat → Fat
read_bpb s =
    let m = s.sector_buffer in
    record s {
      bytes_per_sector = get16 11 m;
      sectors_per_cluster = m 13;
      reserved_sectors = get16 14 m;
      fat_count = m 16;
      sectors_per_fat_32 = get32 36 m;
      root_cluster = get32 44 m;
    }

-- The boot sector that a drive without one is given.
unfoldable pub new_bpb : ByteMem → ByteMem
new_bpb m0 =
    let m1 = put8 13 1 (put16 11 512 (fast_memset 0 0 512 m0)) in
    let m2 = put32 36 32 (put8 16 2 (put16 14 32 m1)) in
    put_bytes 82 (codes "FAT32   ") (put32 44 2 m2)

unfoldable pub format : Fat → Fat
format s = read_bpb (store 0 (record s { sector_buffer = new_bpb s.sector_buffer }))

unfoldable pub fat32_init : Fat → Fat
fat32_init s0 =
    let s1 = read_bpb (load 0 s0) in
    let s = if s1.bytes_per_sector == 512 then s1 else format s1 in
    record s {
      fat_start_sector = s.reserved_sectors;
      cluster_start_sector = (s.reserved_sectors + s.fat_count * s.sectors_per_fat_32) % 2 ^ 32;
    }

-- The first sector of a cluster, in 32-bit arithmetic.
abbrev pub cluster_lba : ℕ → Fat → ℕ
cluster_lba cluster s =
    (s.cluster_start_sector + (cluster + (2 ^ 32 - 2)) % 2 ^ 32 * s.sectors_per_cluster) % 2 ^ 32

-- Entry `e` of a directory sector.
abbrev pub is_used : ℕ → ByteMem → Bool
is_used e m = not (m (32 * e) == 0x00) && not (m (32 * e) == 0xE5)

abbrev pub entry_cluster : ℕ → ByteMem → ℕ
entry_cluster e m = get16 (32 * e + 20) m * 2 ^ 16 + get16 (32 * e + 26) m

abbrev pub entry_size : ℕ → ByteMem → ℕ
entry_size e m = get32 (32 * e + 28) m

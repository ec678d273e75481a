-- ===== src/Fat32/Files.antt =====
-- `fat32_read_file`, `fat32_write_file` and `fat32_list_files` of src/fat32.c.
use meu_so_baremetal.Prelude.{
  ℕ, zero, suc, ◌+◌, ◌-◌, ◌*◌, ◌/◌, ◌%◌, ◌^◌, not, ◌&&◌, Option, none, some, List, [], ◌∷◌, ltb,
  ◌==◌, if◌then◌else◌,
}
use meu_so_baremetal.Klibc.{ByteMem, fast_memset, fast_memcpy, kstrlen}
use meu_so_baremetal.Memory.{kmalloc, kfree}
use meu_so_baremetal.Ata.{Drive, ata_read_sector, ata_write_sector}
use meu_so_baremetal.Fat32.{
  Fat, load, store, cluster_lba, is_used, entry_cluster, entry_size, put8, put16, put32, put_bytes,
}
use meu_so_baremetal.Fat32.Names.{fat_name, find_entry, find_free}

-- `k` sectors from `lba` on, read to memory at `a`.
unfoldable pub read_sectors : (k lba a : ℕ) → ByteMem × Drive → ByteMem × Drive
read_sectors zero lba a t = t
read_sectors (suc k) lba a t =
    read_sectors k ((lba + 1) % 2 ^ 32) (a + 512) (ata_read_sector lba a t)

unfoldable pub write_sectors : (k lba a : ℕ) → ByteMem → Drive → Drive
write_sectors zero lba a m d = d
write_sectors (suc k) lba a m d =
    write_sectors k ((lba + 1) % 2 ^ 32) (a + 512) m (ata_write_sector lba a m d)

-- The number of sectors of a file, in 32-bit arithmetic.
abbrev pub sector_count : ℕ → ℕ
sector_count size = (size + 511) % 2 ^ 32 / 512

-- The file of entry `e`: the address of its contents and its size, or NULL. `none` on the outside
-- if `kmalloc` does not end.
unfoldable pub read_entry : ℕ → Fat → Option (Option (ℕ × ℕ) × Fat)
read_entry e s =
    let size = entry_size e s.sector_buffer in
    let lba = cluster_lba (entry_cluster e s.sector_buffer) s in
    if size == 0 then some (none, s) else elim (kmalloc (sector_count size * 512 % 2 ^ 32) s.heap) [
      | none ↦ none
      | some (file_buf, h) ↦
          if file_buf == 0
          then some (none, record s { heap = h })
          else let (m, d) = read_sectors (sector_count size) lba file_buf (h.bytes, s.drive) in
            some (some (file_buf, size), record s { heap = record h { bytes = m }; drive = d })
    ]

unfoldable pub read_found : Option ℕ → Fat → Option (Option (ℕ × ℕ) × Fat)
read_found none s = some (none, s)
read_found (some e) s = read_entry e s

unfoldable pub fat32_read_file : List ℕ → Fat → Option (Option (ℕ × ℕ) × Fat)
fat32_read_file filename s =
    let root_lba = cluster_lba s.root_cluster s in
    let s1 = load root_lba s in
    if kstrlen filename == 0
    then some (none, s)
    else if root_lba == 0
    then some (none, s)
    else read_found (find_entry 16 0 s1.sector_buffer (fat_name filename)) s1

-- The bytes of a name, at most `k` and up to its terminator, as they are.
abbrev pub raw_name : ℕ → List ℕ → List ℕ
raw_name zero str = []
raw_name (suc k) [] = []
raw_name (suc k) (c ∷ cs) = if c == 0 then [] else c ∷ raw_name k cs

-- Entry `e` of the directory sector, set to a file's name, cluster and size.
unfoldable pub set_entry : ℕ → List ℕ → ℕ → ByteMem → ByteMem
set_entry e filename size m0 =
    let at = 32 * e in
    let cluster = 3 + e in
    let m1 = put_bytes at (raw_name 11 filename) (fast_memset at 32 11 m0) in
    let m2 = put16 (at + 20) (cluster / 2 ^ 16) (put16 (at + 26) cluster m1) in
    put8 (at + 11) 0x20 (put32 (at + 28) size m2)

-- The file written through entry `e`; `content` is an address. Returns 1, or 0 without memory.
unfoldable pub write_entry : ℕ → List ℕ → ℕ → ℕ → ℕ → Fat → Option (ℕ × Fat)
write_entry e filename content size root_lba s0 =
    let s =
      store root_lba (record s0 { sector_buffer = set_entry e filename size s0.sector_buffer }) in
    let lba = cluster_lba (3 + e) s in
    let n = (size + 511) / 512 % 2 ^ 32 in
    let sectors = if n == 0 then 1 else n in
    elim (kmalloc (sectors * 512 % 2 ^ 32) s.heap) [
      | none ↦ none
      | some (data_buf, h) ↦
          if data_buf == 0
          then some (0, record s { heap = h })
          else let m =
              fast_memcpy data_buf content size
                (fast_memset data_buf 0 (sectors * 512 % 2 ^ 32) h.bytes) in
            some (
              1,
              record s {
                heap = kfree data_buf (record h { bytes = m });
                drive = write_sectors sectors lba data_buf m s.drive;
              },
            )
    ]

unfoldable pub write_found : Option ℕ → List ℕ → ℕ → ℕ → ℕ → Fat → Option (ℕ × Fat)
write_found none filename content size root_lba s = some (0, s)
write_found (some e) filename content size root_lba s =
    write_entry e filename content size root_lba s

unfoldable pub fat32_write_file : List ℕ → ℕ → ℕ → Fat → Option (ℕ × Fat)
fat32_write_file filename content size s =
    let root_lba = cluster_lba s.root_cluster s in
    let s1 = load root_lba s in
    write_found (find_free 16 0 s1.sector_buffer) filename content size root_lba s1

-- The characters of a name for the list: no spaces, and only while three bytes are left.
unfoldable pub list_name : (k at pos max_len : ℕ) → ByteMem → ByteMem → ℕ × ByteMem
list_name zero at pos max_len m out = (pos, out)
list_name (suc k) at pos max_len m out =
    let kept = list_name k (suc at) (suc pos) max_len m (put8 pos (m at) out) in
    let skipped = list_name k (suc at) pos max_len m out in
    if not (m at == 32) && ltb pos (max_len - 3) then kept else skipped

-- The used entries from `e` on, two spaces after each name.
unfoldable pub list_entries : (k e pos max_len : ℕ) → ByteMem → ByteMem → ℕ × ByteMem
list_entries zero e pos max_len m out = (pos, out)
list_entries (suc k) e pos max_len m out =
    let (pos1, out1) = list_name 11 (32 * e) pos max_len m out in
    let listed =
      list_entries k (suc e) (pos1 + 2) max_len m (put8 (pos1 + 1) 32 (put8 pos1 32 out1)) in
    let rest = list_entries k (suc e) pos max_len m out in if is_used e m then listed else rest

-- The list at `out`, for a `max_len` of at least 3.
unfoldable pub fat32_list_files : ℕ → ByteMem → Fat → ByteMem × Fat
fat32_list_files max_len out s =
    let s1 = load (cluster_lba s.root_cluster s) s in
    let (pos, out1) = list_entries 16 0 0 max_len s1.sector_buffer (put8 0 0 out) in
    (put8 pos 0 out1, s1)

-- ===== src/Images/Export.antt =====
-- `bmp_export` of src/bmp.c: the bytes of the file, and the buffer for them.
use meu_so_baremetal.Prelude.{
  ℕ, zero, suc, ◌+◌, ◌-◌, ◌*◌, ◌/◌, ◌%◌, ◌^◌, ◌==◌, if◌then◌else◌, Option, none, some, List,
}
use meu_so_baremetal.Klibc.{ByteMem, fill_chunks}
use meu_so_baremetal.Memory.{Heap, kmalloc, kfree}
use meu_so_baremetal.Fat32.{Fat}
use meu_so_baremetal.Vfs.{vfs_write_file}
use meu_so_baremetal.Images.{row_size}

abbrev pub store_byte : ℕ → ℕ → ByteMem → ByteMem
store_byte a v m x = if x == a then v % 256 else m x

abbrev pub store_le16 : ℕ → ℕ → ByteMem → ByteMem
store_le16 a v m = store_byte (a + 1) (v / 2 ^ 8) (store_byte a v m)

abbrev pub store_le32 : ℕ → ℕ → ByteMem → ByteMem
store_le32 a v m = store_le16 (a + 2) (v / 2 ^ 16) (store_le16 a v m)

abbrev pub file_size : ℕ → ℕ → ℕ
file_size w h = 54 + row_size w 24 * h

-- The fields that are set, on zeroes.
unfoldable pub write_headers : (a w h : ℕ) → ByteMem → ByteMem
write_headers a w h m =
    let file =
      store_le32 (a + 10) 54 (store_le32 (a + 2) (file_size w h) (store_le16 a 0x4D42 m)) in
    store_le16 (a + 28) 24 (
      store_le16 (a + 26) 1
        (store_le32 (a + 22) h (store_le32 (a + 18) w (store_le32 (a + 14) 40 file))))

-- Blue, green and red of one pixel.
abbrev pub store_pixel : ℕ → ℕ → ByteMem → ByteMem
store_pixel a color m =
    store_byte (a + 2) (color / 2 ^ 16) (store_byte (a + 1) (color / 2 ^ 8) (store_byte a color m))

unfoldable pub export_row : (ℕ → ℕ) → (src a x : ℕ) → ℕ → ByteMem → ByteMem
export_row canvas src a x zero m = m
export_row canvas src a x (suc n) m =
    export_row canvas src a (x + 1) n (store_pixel (a + x * 3) (canvas (src + x)) m)

-- Lines are stored from the bottom up.
unfoldable pub export_rows : (ℕ → ℕ) → (w h pixels y : ℕ) → ℕ → ByteMem → ByteMem
export_rows canvas w h pixels y zero m = m
export_rows canvas w h pixels y (suc n) m =
    export_rows canvas w h pixels (y + 1) n
      (export_row canvas ((h - 1 - y) * w) (pixels + y * row_size w 24) 0 w m)

unfoldable pub bmp_bytes : (ℕ → ℕ) → (w h a : ℕ) → ByteMem → ByteMem
bmp_bytes canvas w h a m =
    export_rows canvas w h (a + 54) 0 h (write_headers a w h (fill_chunks 1 (file_size w h) a 0 m))

-- A buffer is freed at the end, on the heap as the file system leaves it.
abbrev pub and_free : ℕ → Option (ℕ × Fat) → Option (ℕ × Fat)
and_free p none = none
and_free p (some (res, s)) = some (res, record s { heap = kfree p s.heap })

-- The rest of `bmp_export`, with the result of `kmalloc`.
unfoldable pub export_to : List ℕ → (ℕ → ℕ) → (w h : ℕ) → Fat → Option (ℕ × Heap) → Option (ℕ × Fat)
export_to filename canvas w h s none = none
export_to filename canvas w h s (some (p, heap)) =
    let written = record heap { bytes = bmp_bytes canvas w h p heap.bytes } in
    let res = vfs_write_file filename p (file_size w h) (record s { heap = written }) in
    if p == 0 then some (0, record s { heap = heap }) else and_free p res

unfoldable pub bmp_export : List ℕ → (ℕ → ℕ) → (w h : ℕ) → Fat → Option (ℕ × Fat)
bmp_export filename canvas w h s = export_to filename canvas w h s (kmalloc (file_size w h) s.heap)

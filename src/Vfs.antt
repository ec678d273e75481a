-- ===== src/Vfs.antt =====
-- src/vfs.c: the list of files, and the dispatch of a name to a linked-in file, the disk, or an
-- embedded asset. The addresses of the linked-in files and the table of assets are arguments.
pub mod Custom
pub mod Listing
pub mod Dispatch
mod Tests
use Prim.Native.String.{String}
use meu_so_baremetal.Prelude.{
  ℕ, zero, suc, ◌+◌, ◌-◌, Bool, true, false, Option, none, some, List, [], ◌∷◌, drop, ltb, ◌==◌,
  if◌then◌else◌,
}
use meu_so_baremetal.Prelude.Int.{ℤ, pos}
use meu_so_baremetal.Prelude.Text.{codes}
use meu_so_baremetal.Klibc.{ByteMem, store_chunk, kstrcmp, kstrncmp, kstrcpy, kstrlen}
use meu_so_baremetal.Fat32.{Fat}
use meu_so_baremetal.Fat32.Files.{fat32_read_file, fat32_write_file}

-- Where a linked-in file starts and ends.
abbrev pub Range : Type 0
Range = ℕ × ℕ

-- The three linked-in files, and the assets with their names.
pub record Linked : Type 0 where
  pub app_elf : Range
  pub bgif_anim : Range
  pub foto_bmp : Range
  pub assets : List (List ℕ × Range)

abbrev pub base_files : List ℕ
base_files = codes "app.elf  animacao.bgif  foto.bmp  icons.cfg  "

-- The assets' names, each with two spaces, from offset `len` of the buffer at `out` on, as long as
-- they fit into `max_len` bytes.
unfoldable pub list_assets : List (List ℕ × Range) → (out len max_len : ℕ) → ByteMem → ByteMem
list_assets [] out len max_len m = m
list_assets ((name, r) ∷ assets) out len max_len m =
    let n = kstrlen name in
    let m1 = store_chunk 1 (out + len + n) 32 (kstrcpy (out + len) name m) in
    let m2 = store_chunk 1 (out + len + n + 2) 0 (store_chunk 1 (out + len + n + 1) 32 m1) in
    let listed = list_assets assets out (len + n + 2) max_len m2 in
    let rest = list_assets assets out len max_len m in
    if ltb (len + n + 3) max_len then listed else rest

unfoldable pub vfs_list : Linked → (out max_len : ℕ) → ByteMem → ByteMem
vfs_list linked out max_len m0 =
    let m = store_chunk 1 out 0 m0 in
    let n = kstrlen base_files in
    let full = list_assets linked.assets out n max_len (kstrcpy out base_files m) in
    let bare = list_assets linked.assets out 0 max_len m in
    if out == 0 then m0 else if max_len == 0 then m0 else if ltb n max_len then full else bare

abbrev pub is_zero : ℤ → Bool
is_zero (pos n) = n == 0
is_zero _ = false

-- The name behind the prefix of the custom format.
unfoldable pub clean_name : List ℕ → List ℕ
clean_name filename =
    if is_zero (kstrncmp filename (codes "#|ROOT*") 7) then drop 7 filename else filename

-- Start and length.
abbrev pub whole : Range → ℕ × ℕ
whole (start, end) = (start, end - start)

unfoldable pub find_asset : List (List ℕ × Range) → List ℕ → Option (ℕ × ℕ)
find_asset [] name = none
find_asset ((n, r) ∷ assets) name =
    let rest = find_asset assets name in if is_zero (kstrcmp name n) then some (whole r) else rest

-- A result of the disk, or else the asset of that name.
abbrev pub or_asset :
    Linked → List ℕ → Option (Option (ℕ × ℕ) × Fat) → Option (Option (ℕ × ℕ) × Fat)
or_asset linked name none = none
or_asset linked name (some (none, s)) = some (find_asset linked.assets name, s)
or_asset linked name (some (some r, s)) = some (some r, s)

unfoldable pub from_disk : Linked → List ℕ → Fat → Option (Option (ℕ × ℕ) × Fat)
from_disk linked name s = or_asset linked name (fat32_read_file name s)

-- The photo: from the disk, or else the linked-in one, unless that is empty.
abbrev pub or_photo :
    Linked → List ℕ → Option (Option (ℕ × ℕ) × Fat) → Option (Option (ℕ × ℕ) × Fat)
or_photo linked name none = none
or_photo linked name (some (some r, s)) = some (some r, s)
or_photo linked name (some (none, s)) =
    let r = whole linked.foto_bmp in
    let again = from_disk linked name s in if ltb 0 r.1 then some (some r, s) else again

unfoldable pub vfs_read : Linked → List ℕ → Fat → Option (Option (ℕ × ℕ) × Fat)
vfs_read linked filename s =
    let name = clean_name filename in
    if is_zero (kstrcmp name (codes "app.elf"))
    then some (some (whole linked.app_elf), s)
    else if is_zero (kstrcmp name (codes "animacao.bgif"))
    then some (some (whole linked.bgif_anim), s)
    else if is_zero (kstrcmp name (codes "foto.bmp"))
    then or_photo linked name (fat32_read_file name s)
    else from_disk linked name s

unfoldable pub vfs_write_file : List ℕ → (content size : ℕ) → Fat → Option (ℕ × Fat)
vfs_write_file filename content size s = fat32_write_file (clean_name filename) content size s

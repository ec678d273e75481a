-- ===== src/Vfs/Custom.antt =====
-- `vfs_list_custom_format` of src/vfs.c: a line for each file, with the prefix of the format.
use meu_so_baremetal.Prelude.{ℕ, ◌+◌, List, [], ◌∷◌, ltb, ◌==◌, if◌then◌else◌}
use meu_so_baremetal.Prelude.Text.{codes}
use meu_so_baremetal.Klibc.{ByteMem, store_chunk, kstrcpy, kstrlen}
use meu_so_baremetal.Vfs.{Linked, Range}

abbrev pub prefix : List ℕ
prefix = codes "#|ROOT*"

abbrev pub base_lines : List ℕ
base_lines = codes "#|ROOT*app.elf\n#|ROOT*animacao.bgif\n#|ROOT*foto.bmp\n#|ROOT*icons.cfg\n"

-- The lines of the assets, from offset `len` of the buffer at `out` on, as long as they fit.
unfoldable pub list_lines : List (List ℕ × Range) → (out len max_len : ℕ) → ByteMem → ByteMem
list_lines [] out len max_len m = m
list_lines ((name, r) ∷ assets) out len max_len m =
    let n = kstrlen name in
    let m1 = kstrcpy (out + len + 7) name (kstrcpy (out + len) prefix m) in
    let m2 = store_chunk 1 (out + len + 7 + n + 1) 0 (store_chunk 1 (out + len + 7 + n) 10 m1) in
    let listed = list_lines assets out (len + 7 + n + 1) max_len m2 in
    let rest = list_lines assets out len max_len m in
    if ltb (len + (7 + n + 1)) max_len then listed else rest

unfoldable pub vfs_list_custom_format : Linked → (out max_len : ℕ) → ByteMem → ByteMem
vfs_list_custom_format linked out max_len m0 =
    let m = store_chunk 1 out 0 m0 in
    let n = kstrlen base_lines in
    let full = list_lines linked.assets out n max_len (kstrcpy out base_lines m) in
    let bare = list_lines linked.assets out 0 max_len m in
    if out == 0 then m0 else if max_len == 0 then m0 else if ltb n max_len then full else bare

-- ===== src/Vfs/Dispatch.antt =====
-- How src/vfs.c takes names with and without the prefix of the custom list format.
use meu_so_baremetal.Prelude.{ℕ, ◌≡◌, ◌∙◌, refl, sym, List, ◌++◌}
use meu_so_baremetal.Prelude.Text.{codes}
use meu_so_baremetal.Klibc.{kstrncmp}
use meu_so_baremetal.Fat32.{Fat}
use meu_so_baremetal.Vfs.{Linked, clean_name, vfs_read, vfs_write_file}

clean_name_prefixed : (name : List ℕ) → clean_name (codes "#|ROOT*" ++ name) ≡ name
unfolding clean_name kstrncmp
clean_name_prefixed name = refl

-- A name that does not start with the prefix itself names the same file with and without it, for
-- a read and for a write.
pub vfs_prefix :
    (linked : Linked) (name : List ℕ) (content size : ℕ) (s : Fat)
    → clean_name name ≡ name
    → (vfs_read linked (codes "#|ROOT*" ++ name) s ≡ vfs_read linked name s)
      × (vfs_write_file (codes "#|ROOT*" ++ name) content size s
          ≡ vfs_write_file name content size s)
unfolding vfs_read vfs_write_file
vfs_prefix linked name content size s plain =
    let same = clean_name_prefixed name ∙ sym plain in rw same (refl, refl)

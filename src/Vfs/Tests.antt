-- ===== src/Vfs/Tests.antt =====
-- Runs of src/vfs.c with one asset.
use meu_so_baremetal.Prelude.{◌≡◌, inr, false, [], ◌∷◌, arith}
use meu_so_baremetal.Memory.{mk_header}
use meu_so_baremetal.Fat32.{Fat}
use meu_so_baremetal.Vfs.{Linked, vfs_list}
use meu_so_baremetal.Vfs.Custom.{vfs_list_custom_format}
use meu_so_baremetal.Vfs.Listing.{vfs_lists_stay_inside}

abbrev linked : Linked
linked = record {
  app_elf = (1000, 2000);
  bgif_anim = (2000, 2500);
  foto_bmp = (3000, 3000);
  assets = ((97 ∷ 98 ∷ []), (5000, 5010)) ∷ [];
}

vfs_lists_stay_inside_example :
    (vfs_list linked 4096 50 (λ x. 7) 4146 ≡ 7)
    × (vfs_list_custom_format linked 4096 50 (λ x. 7) 4146 ≡ 7)
vfs_lists_stay_inside_example =
    vfs_lists_stay_inside linked 4096 50 (λ x. 7) 4146 ((omega arith, (omega arith, tt)), tt)
      (inr (omega arith))

abbrev volume : Fat
volume = record {
  bytes_per_sector = 512;
  sectors_per_cluster = 1;
  reserved_sectors = 32;
  fat_count = 2;
  sectors_per_fat_32 = 32;
  root_cluster = 2;
  fat_start_sector = 32;
  cluster_start_sector = 96;
  sector_buffer = λ x. 0;
  drive = record { sector = λ l y. 0; trace = [] };
  heap = record {
    header = λ a. mk_header 0 false 0 0;
    footer = λ a. 0;
    bytes = λ a. 0;
    heap_first = 0;
    total_allocated = 0;
    total_free = 0;
    block_count = 0;
  };
}

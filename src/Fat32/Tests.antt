-- ===== src/Fat32/Tests.antt =====
-- A name of src/fat32.c that is written and looked for.
use meu_so_baremetal.Prelude.{◌≡◌, false, [], ◌∷◌, arith}
use meu_so_baremetal.Fat32.Names.{fat_name, matches_from}
use meu_so_baremetal.Fat32.Files.{set_entry}
use meu_so_baremetal.Fat32.Lost.{dotted_name_lost}

-- "A.TX", on an empty sector.
dotted_name_lost_example :
    matches_from 11 0 2
      (set_entry 2 (65 ∷ 46 ∷ 84 ∷ 88 ∷ []) 10 (λ x. 0))
      (fat_name (65 ∷ 46 ∷ 84 ∷ 88 ∷ []))
    ≡ false
dotted_name_lost_example =
    dotted_name_lost 2 10 (65 ∷ []) (84 ∷ 88 ∷ []) (λ x. 0) (omega arith, omega arith, tt)
      (omega arith)

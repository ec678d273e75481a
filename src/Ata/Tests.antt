-- ===== src/Ata/Tests.antt =====
-- A sector written and read back through src/ata.c.
use meu_so_baremetal.Prelude.{ℕ, ◌%◌, ◌<◌, ◌≡◌, [], arith}
use meu_so_baremetal.Klibc.{ByteMem}
use meu_so_baremetal.Ata.{Drive, ata_read_sector, ata_write_sector}
use meu_so_baremetal.Ata.Transfers.{ata_read_sector-ata_write_sector}

abbrev counting : ByteMem
counting x = x % 256

abbrev drive : Drive
drive = record { sector = λ l y. 7; trace = [] }

counting_small : (y : ℕ) → counting y < 256
counting_small y = omega arith

drive_small : (l y : ℕ) → drive.sector l y < 256
drive_small l y = omega arith

ata_read_sector-ata_write_sector_example :
    (ata_read_sector 70000 4096 (counting, ata_write_sector 70000 515 counting drive)).0 4100 ≡ 7
ata_read_sector-ata_write_sector_example =
    ata_read_sector-ata_write_sector 70000 70000 515 4096 counting drive 4100 (omega arith)
      (omega arith) counting_small drive_small

-- ===== src/Lib.antt =====
-- CapivaraOS, a bare-metal x86-64 kernel in C: its heap, scheduler, interrupt handlers, serial
-- console, clock, network card, disk, file system, graphics and desktop.
--
-- The parts and the files that model them:
--   src/klibc.c                 Klibc: block fills and copies, string functions
--   src/memory.c                Memory: kmalloc, kcalloc, krealloc, kfree over linked block headers
--   src/task.c                  Task: task_create, task_sleep, schedule
--   src/idt.c                   Idt: idt_init, keyboard_handler_main, mouse_handler_main
--   src/serial.c                Serial: serial_write, the log, the commands, serial_poll
--   src/rtc.c                   Rtc: rtc_get_time, rtc_get_time_brt
--   src/net.c                   Net: ip_checksum, the frames, net_init, net_poll
--   src/ata.c                   Ata: ata_read_sector, ata_write_sector
--   src/fat32.c                 Fat32: fat32_init, fat32_read_file, fat32_write_file
--   src/music.c                 Music: the player's state machine
--   src/util.c                  Util: the vector over the heap
--   src/elf.c                   Elf: elf_validate, elf_load_and_run
--   src/sound.c                 Sound: the speaker
--   src/vfs.c                   Vfs: both lists of files, vfs_read, vfs_write_file
--   src/gfx.c                   Gfx: drawing on a back buffer, dirty rectangles, gfx_swap_buffers
--   src/ui.c                    Ui: windows, calculator, shell, keyboard and mouse handlers, brush
--   src/bmp.c, src/bgif.c       Images: bmp_draw_icon, bmp_export, bgif_draw_frame
-- The headers under include/ and src/serial.h go with these files. Each module's own comment says
-- which functions its definitions stand for; definitions keep the names of the source, and a part
-- of a long function is named for what it does.
--
-- The timer interrupt enters Task through schedule; task_create_user takes its stack from Memory.
-- Fat32 reads and writes sectors through Ata and takes its buffers from Memory; Vfs asks Fat32.
-- Net and Util take their buffers from Memory; Elf loads into the same memory and starts a task.
-- All copy bytes through Klibc. Serial, Idt, Rtc, Music and Sound stand alone. Gfx takes its back
-- buffer from Memory and sees memory as 32-bit words. Ui changes its own state and its canvas,
-- prints numbers through Gfx, reads the answers of the other parts from a record of services and
-- keeps its calls of them in a list. Images draws through Gfx and exports through Memory and Vfs.
--
-- State is a record that each operation takes and returns; static arrays, and memory, are functions
-- from indices or addresses. Pointers are natural numbers with 0 for NULL. Numbers are natural
-- numbers with the wrap-around of the source's types written out; a C int that can be negative is
-- an integer of Prelude.Int. Port writes and serial lines are events in a trace, the newest first.
-- What hardware and firmware give (port reads, CMOS registers, the PCI space, the addresses of the
-- assembly stubs and of linked-in files) are arguments.
--
-- Bounds and fuel: the search of kmalloc gets block_count + 1 rounds, one for each block and one
-- for the end of the list; kmalloc, kcalloc and krealloc return an option whose none is a search
-- that did not end. The checksum's fold gets two rounds, enough for a 32-bit sum. The labels of a
-- DNS name get as many rounds as the name has bytes, the digits of a number 20, enough for 64
-- bits. The serial transmitter is polled 50000 times, as in the source.
--
-- Not modelled: paging (vmm_* in src/memory.c), the AHCI driver, the rendering of windows and icons
-- in src/ui.c, system calls, boot code and the tools that run on the host.
pub mod Prelude
pub mod Klibc
pub mod Memory
pub mod Task
pub mod Idt
pub mod Rtc
pub mod Serial
pub mod Net
pub mod Ata
pub mod Fat32
pub mod Music
pub mod Vfs
pub mod Elf
pub mod Sound
pub mod Util
pub mod Gfx
pub mod Ui
pub mod Images

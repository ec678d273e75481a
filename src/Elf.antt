-- ===== src/Elf.antt =====
-- src/elf.c and include/elf.h: validation and loading of an executable that lies in memory at `image`.
use meu_so_baremetal.Prelude.{
  ℕ, zero, suc, ◌+◌, ◌*◌, ◌^◌, Bool, true, false, not, ◌&&◌, ◌||◌, Option, none, some, List, ◌∷◌,
  ltb, ◌==◌, if◌then◌else◌,
}
use meu_so_baremetal.Prelude.Int.{ℤ, pos, negsuc}
use meu_so_baremetal.Prelude.Events.{Trace, serial_write}
use meu_so_baremetal.Klibc.{ByteMem, fast_memset, fast_memcpy}
use meu_so_baremetal.Memory.{Heap}
use meu_so_baremetal.Task.{Kernel}
use meu_so_baremetal.Task.Create.{task_create_user}

abbrev pub get16 : ℕ → ByteMem → ℕ
get16 a m = m a + 2 ^ 8 * m (a + 1)

abbrev pub get32 : ℕ → ByteMem → ℕ
get32 a m = get16 a m + 2 ^ 16 * get16 (a + 2) m

abbrev pub get64 : ℕ → ByteMem → ℕ
get64 a m = get32 a m + 2 ^ 32 * get32 (a + 4) m

abbrev pub ehdr_size : ℕ
ehdr_size = 64

abbrev pub phdr_size : ℕ
phdr_size = 56

abbrev pub has_magic : ℕ → ByteMem → Bool
has_magic image m =
    m image == 0x7F && m (image + 1) == 69 && m (image + 2) == 76 && m (image + 3) == 70

unfoldable pub elf_validate : (image size : ℕ) → ByteMem → Trace → Bool × Trace
elf_validate image size m trace =
    if image == 0 || ltb size ehdr_size
    then (false, trace)
    else if not (has_magic image m)
    then (false, serial_write "[ELF] Erro: Cabecalho nao possui magica \\x7fELF!\n" ∷ trace)
    else if not (m (image + 4) == 2)
    then (false, serial_write "[ELF] Erro: O arquivo nao eh ELF64!\n" ∷ trace)
    else (true, trace)

-- A segment of type PT_LOAD, whose header is at `phdr`.
unfoldable pub load_segment : (image phdr : ℕ) → ByteMem → ByteMem
load_segment image phdr m =
    let target = get64 (phdr + 16) m in
    let memsz = get64 (phdr + 40) m in
    let m1 = fast_memset target 0 memsz m in
    let m2 = fast_memcpy target (image + get64 (phdr + 8) m1) (get64 (phdr + 32) m1) m1 in
    if get32 phdr m == 1 && not (target == 0) && ltb 0 memsz then m2 else m

-- The segments of the `k` headers from `phdr` on; their count is read once, before the first load.
unfoldable pub load_segments : (k image phdr : ℕ) → ByteMem → ByteMem
load_segments zero image phdr m = m
load_segments (suc k) image phdr m =
    load_segments k image (phdr + phdr_size) (load_segment image phdr m)

-- The end of a load: a task number of at least 0 is a success.
abbrev pub started : Option (ℤ × Kernel × Heap) → Option (ℕ × Kernel × Heap)
started none = none
started (some (negsuc n, s, h)) = some (0, s, h)
started (some (pos n, s, h)) = some (
  1,
  record s { trace = serial_write "[ELF] Processo ELF64 de Ring 3 Carregado e Ativo!\n" ∷ s.trace },
  h,
)

unfoldable pub elf_load_and_run :
    (stack_at : ℕ → ℕ) (image size : ℕ) → List ℕ → Kernel × Heap → Option (ℕ × Kernel × Heap)
elf_load_and_run stack_at image size name (s, h) =
    let (valid, trace) = elf_validate image size h.bytes s.trace in
    let m =
      load_segments (get16 (image + 56) h.bytes) image (image + get64 (image + 32) h.bytes)
        h.bytes in
    let s1 = record s {
      trace = serial_write "[ELF] Executavel ELF64 Valido Encontrado!\n" ∷ trace;
    } in
    let run = started (
      task_create_user stack_at (get64 (image + 24) h.bytes) name (pos 2)
        (s1, record h { bytes = m })) in
    if valid then run else some (0, record s { trace = trace }, h)

-- ===== src/Ui/Shell.antt =====
-- The commands of the shell window: `process_shell_command` of src/ui.c.
--
-- What the commands ask of the file system, the disk driver and the loader are the fields of
-- `Services`; the calls that they make for their effect are kept in order, the newest first.
use meu_so_baremetal.Prelude.{
  ℕ, zero, suc, ◌+◌, Bool, List, [], ◌∷◌, ◌==◌, if◌then◌else◌, length, take, drop, Option, none,
  some,
}
use meu_so_baremetal.Prelude.Text.{codes}
use meu_so_baremetal.Prelude.Int.{ℤ, pos_part, neg_part}
use meu_so_baremetal.Klibc.{kstrcmp, kstrncmp}

pub record Services : Type 0 where
  pub vfs_list : List ℕ
  pub vfs_read : List ℕ → Option (List ℕ)
  pub vfs_write_file : List ℕ → List ℕ → Bool
  pub elf_load_and_run : List ℕ → List ℕ → Bool
  pub ahci_get_status_string : List ℕ

pub data Call : Type 0 where
  net_send_ping : (target_ip : ℕ) → Call
  net_send_dns_query : (domain : List ℕ) → Call
  vfs_write : (name bytes : List ℕ) → Call
  elf_run : (bytes name : List ℕ) → Call
  serial_send_custom : (text : List ℕ) → Call
  sound_click : Call
  music_toggle_play : Call
  music_next_track : Call
  bmp_export : (name : List ℕ) → Call
  bgif_reset_delta_cache : Call
  sys_shutdown : Call
  sys_reboot : Call

abbrev pub Answer : Type 0
Answer = record { shell_output : List ℕ; calls : List Call }

abbrev pub is_zero : ℤ → Bool
is_zero a = pos_part a + neg_part a == 0

abbrev pub is_command : List ℕ → List ℕ → Bool
is_command line name = is_zero (kstrcmp line name)

abbrev pub has_prefix : List ℕ → List ℕ → Bool
has_prefix line prefix = is_zero (kstrncmp line prefix (length prefix))

abbrev pub answer : List ℕ → List Call → Answer
answer text calls = record { shell_output = text; calls = calls }

-- `cat`: at most 120 bytes of the file.
unfoldable pub shell_cat : Services → List ℕ → Answer
shell_cat v name = elim (v.vfs_read name) [
  | none ↦ answer (codes "ARQUIVO NAO ENCONTRADO!") []
  | some content ↦ answer (take 120 content) []
]

-- The name of `write` ends at a space, at the end, or after 31 bytes.
unfoldable pub file_name : ℕ → List ℕ → List ℕ
file_name zero cs = []
file_name (suc n) [] = []
file_name (suc n) (c ∷ cs) = let rest = file_name n cs in if c == b' ' then [] else c ∷ rest

abbrev pub skip_space : List ℕ → List ℕ
skip_space [] = []
skip_space (c ∷ cs) = if c == b' ' then cs else c ∷ cs

unfoldable pub shell_write : Services → List ℕ → Answer
shell_write v args =
    let name = file_name 31 args in
    let content = skip_space (drop (length name) args) in
    answer (if v.vfs_write_file name content then codes "ARQUIVO GRAVADO COM SUCESSO!" else [])
      (vfs_write name content ∷ [])

unfoldable pub shell_run : Services → List ℕ → Answer
shell_run v name = elim (v.vfs_read name) [
  | none ↦ answer (codes "ERRO AO CARREGAR EXECUTAVEL ELF!") []
  | some bytes ↦
      answer
        (if v.elf_load_and_run bytes name
          then codes "PROCESSO RING 3 EXECUTADO EM SEGUNDO PLANO!"
          else codes "ERRO AO CARREGAR EXECUTAVEL ELF!")
        (elf_run bytes name ∷ [])
]

-- 10.0.2.2 in network order.
abbrev pub gateway : ℕ
gateway = 0x0202000A

-- The text that a command line leaves in `shell_output`, and the calls it makes.
unfoldable pub process_shell_command : Services → List ℕ → Answer
process_shell_command v line =
    if is_command line (codes "help")
    then answer (codes "COMANDOS: LS, CAT, WRITE, RUN, PING, DNS, DISKINFO") []
    else if is_command line (codes "ls")
    then answer v.vfs_list []
    else if is_command line (codes "diskinfo")
    then answer v.ahci_get_status_string []
    else if has_prefix line (codes "ping ")
    then answer (codes "DISPARADO ICMP PING PARA 10.0.2.2 (GATEWAY QEMU)!")
        (net_send_ping gateway ∷ [])
    else if has_prefix line (codes "dns ")
    then answer (codes "CONSULTA DNS ENVIADA PARA 10.0.2.3 (PORTA 53)!")
        (net_send_dns_query (drop 4 line) ∷ [])
    else if has_prefix line (codes "cat ")
    then shell_cat v (drop 4 line)
    else if has_prefix line (codes "write ")
    then shell_write v (drop 6 line)
    else if has_prefix line (codes "run ")
    then shell_run v (drop 4 line)
    else answer [] []

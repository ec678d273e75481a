-- ===== src/Serial/Commands.antt =====
-- The host commands of src/serial.c.
use Prim.Native.String.{String}
use meu_so_baremetal.Prelude.{
  ℕ, zero, suc, Bool, true, false, ◌&&◌, Option, none, some, List, [], ◌∷◌, ◌++◌, drop, ◌==◌,
  if◌then◌else◌,
}
use meu_so_baremetal.Prelude.Int.{ℤ, pos, sub_ℕ}
use meu_so_baremetal.Prelude.Text.{codes}
use meu_so_baremetal.Klibc.{head_byte}
use meu_so_baremetal.Serial.{Serial, serial_write}

abbrev pub crlf : List ℕ
crlf = 13 ∷ 10 ∷ []

abbrev pub text_line : String → List ℕ
text_line str = codes str ++ crlf

-- `i` counts down from 256.
unfoldable pub str_cmp : ℕ → List ℕ → List ℕ → ℤ
str_cmp zero s1 s2 = pos 0
str_cmp (suc i) [] s2 = sub_ℕ 0 (head_byte s2)
str_cmp (suc i) (c ∷ cs) [] = sub_ℕ c 0
str_cmp (suc i) (c ∷ cs) (d ∷ ds) =
    let rest = str_cmp i cs ds in if c == 0 then sub_ℕ c d else if c == d then rest else sub_ℕ c d

unfoldable pub str_starts_with : List ℕ → List ℕ → Bool
str_starts_with str [] = true
str_starts_with [] (p ∷ ps) = false
str_starts_with (c ∷ cs) (p ∷ ps) = c == p && str_starts_with cs ps

-- At most `k` leading spaces are skipped.
unfoldable pub skip_spaces : ℕ → List ℕ → List ℕ
skip_spaces zero str = str
skip_spaces (suc k) [] = []
skip_spaces (suc k) (c ∷ cs) = let rest = skip_spaces k cs in if c == 32 then rest else c ∷ cs

-- All leading spaces are skipped.
unfoldable pub trim : List ℕ → List ℕ
trim [] = []
trim (c ∷ cs) = let rest = trim cs in if c == 32 then rest else c ∷ cs

abbrev pub sys_files : List (List ℕ × List ℕ)
sys_files =
    (
      codes "teste.txt",
      codes "Capivara OS: Conteudo do arquivo teste.txt lido via Serial!"
          ++ crlf
          ++ codes "Status: OK"
          ++ crlf,
    )
    ∷ (codes "config.sys", codes "SERIAL_BAUD=115200" ++ crlf ++ codes "PORT=0x3F8" ++ crlf)
    ∷ []

abbrev pub is_zero : ℤ → Bool
is_zero (pos n) = n == 0
is_zero _ = false

unfoldable pub find_file : List (List ℕ × List ℕ) → List ℕ → Option (List ℕ)
find_file [] name = none
find_file ((n, content) ∷ files) name =
    let rest = find_file files name in if is_zero (str_cmp 256 n name) then some content else rest

unfoldable pub read_file : List ℕ → Option (List ℕ)
read_file name = find_file sys_files name

-- What `cat` writes, one string after the other, for the content that is found or not.
abbrev pub cat_strings : List ℕ → Option (List ℕ) → List (List ℕ)
cat_strings filename (some content) =
    codes "=== INICIO DE "
    ∷ filename
    ∷ text_line " ==="
    ∷ content
    ∷ text_line "=== FIM DE ARQUIVO ==="
    ∷ []
cat_strings filename none =
    codes "[ERRO CAPIVARA OS]: Arquivo '" ∷ filename ∷ text_line "' nao foi encontrado." ∷ []

abbrev pub send_strings : List ℕ → List (List ℕ)
send_strings msg = codes "[GUEST SERIAL MSG]: " ∷ msg ∷ crlf ∷ []

-- What is written for a command that is neither.
abbrev pub usage_strings : List ℕ → List (List ℕ)
usage_strings p =
    let usage = text_line "' invalido." ++ text_line "Uso: cat <arquivo> ou send <mensagem>" in
    codes "[CAPIVARA OS SERIAL]: Comando '" ∷ p ∷ usage ∷ []

module _ (transmit_empty : ℕ → Bool) where
  -- Calls of `serial_write` in a row.
  abbrev pub write_all : List (List ℕ) → Serial → Serial
  write_all [] s = s
  write_all (str ∷ strs) s = write_all strs (serial_write transmit_empty str s)

  unfoldable pub serial_send_custom : List ℕ → Serial → Serial
  serial_send_custom msg s = write_all (send_strings msg) s

  unfoldable pub serial_mark : Option (List ℕ) → Serial → Serial
  serial_mark none s = write_all (codes "[BOOT MARK]: " ∷ codes "CHECKPOINT" ∷ crlf ∷ []) s
  serial_mark (some label) s = write_all (codes "[BOOT MARK]: " ∷ label ∷ crlf ∷ []) s

  unfoldable pub cat : List ℕ → Serial → Serial
  cat filename s = write_all (cat_strings filename (read_file filename)) s

  unfoldable pub app_serial_process_host_command : List ℕ → Serial → Serial
  app_serial_process_host_command cmd s =
      let p = skip_spaces 256 cmd in
      if str_starts_with p (codes "cat ")
      then cat (trim (drop 4 p)) s
      else if str_starts_with p (codes "send ")
      then serial_send_custom (drop 5 p) s
      else write_all (usage_strings p) s

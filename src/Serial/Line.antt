-- ===== src/Serial/Line.antt =====
-- `serial_poll` of src/serial.c: the line editor.
use meu_so_baremetal.Prelude.{
  ℕ, ◌+◌, ◌-◌, ◌<◌, Bool, ◌||◌, Option, none, some, List, [], ◌∷◌, ◌++◌, length, take, ltb, ◌==◌,
  if◌then◌else◌,
}
use meu_so_baremetal.Serial.{Serial, update, serial_write, rx_buf_size}
use meu_so_baremetal.Serial.Log.{slice, IsLog}
use meu_so_baremetal.Serial.Commands.{crlf, app_serial_process_host_command}

-- The line typed so far.
abbrev pub line : Serial → List ℕ
line s = slice s.rx_idx 0 s.rx_buf

abbrev pub is_enter : ℕ → Bool
is_enter c = c == 13 || c == 10

abbrev pub is_erase : ℕ → Bool
is_erase c = c == 8 || c == 127

module _ (transmit_empty : ℕ → Bool) where
  -- Enter: the command is the string in `rx_buf`.
  unfoldable pub enter : Serial → Serial
  enter s =
      let s1 = record s { rx_buf = update s.rx_buf s.rx_idx 0 } in
      let s2 = serial_write transmit_empty crlf s1 in
      let s3 = app_serial_process_host_command transmit_empty (line s2) s2 in
      record s3 { rx_idx = 0 }

  -- The reception of a byte that is not zero.
  unfoldable pub receive : ℕ → Serial → Serial
  receive c s =
      if is_enter c
      then (if ltb 0 s.rx_idx then enter s else s)
      else if is_erase c
      then (if ltb 0 s.rx_idx
          then serial_write transmit_empty (8 ∷ 32 ∷ 8 ∷ []) (record s { rx_idx = s.rx_idx - 1 })
          else s)
      else if ltb s.rx_idx (rx_buf_size - 1)
      then serial_write transmit_empty (c ∷ [])
          (record s { rx_buf = update s.rx_buf s.rx_idx c; rx_idx = s.rx_idx + 1 })
      else s

  -- What the line status and the data port give: no byte, or one.
  unfoldable pub serial_poll : Option ℕ → Serial → Serial
  serial_poll none s = s
  serial_poll (some c) s = if c == 0 then s else receive c s

-- The state of the editor is in bounds, and the log is well formed.
pub record IsValid (s : Serial) : Type 0 where
  pub log_ok : IsLog s
  pub fits : s.rx_idx < rx_buf_size

-- The line after a byte: erased at the end, extended if there is room, emptied by enter.
abbrev pub edit : ℕ → List ℕ → List ℕ
edit c l =
    if c == 0
    then l
    else if is_enter c
    then []
    else if is_erase c
    then take (length l - 1) l
    else if ltb (length l) 255
    then l ++ (c ∷ [])
    else l

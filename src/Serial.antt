-- ===== src/Serial.antt =====
-- src/serial.c: the UART, the log of what was written, and the line editor for host commands.
-- Strings are lists of bytes, ended by the list's end or by a zero byte.
pub mod Log
pub mod Writes
pub mod Commands
pub mod Line
pub mod Editing
mod Tests
use meu_so_baremetal.Prelude.{
  ℕ, zero, suc, ◌+◌, ◌-◌, Bool, true, false, List, [], ◌∷◌, ltb, ◌==◌, if◌then◌else◌,
}
use meu_so_baremetal.Prelude.Events.{Trace, outb}

abbrev pub com1_port : ℕ
com1_port = 0x3F8

abbrev pub serial_log_size : ℕ
serial_log_size = 4096

abbrev pub rx_buf_size : ℕ
rx_buf_size = 256

-- `polls` counts the reads of the line status that wait for the transmitter.
pub record Serial : Type 0 where
  pub serial_log_buf : ℕ → ℕ
  pub serial_log_pos : ℕ
  pub rx_buf : ℕ → ℕ
  pub rx_idx : ℕ
  pub polls : ℕ
  pub trace : Trace

abbrev pub update : (ℕ → ℕ) → ℕ → ℕ → ℕ → ℕ
update f i v j = if j == i then v else f j

-- `k` rounds of the loop that moves the log down by one, from index `i` on.
unfoldable pub shift_down : ℕ → ℕ → (ℕ → ℕ) → ℕ → ℕ
shift_down zero i buf = buf
shift_down (suc k) i buf = shift_down k (suc i) (update buf i (buf (i + 1)))

unfoldable pub log_append_char : ℕ → Serial → Serial
log_append_char c s =
    if ltb s.serial_log_pos (serial_log_size - 1)
    then record s {
      serial_log_buf = update (update s.serial_log_buf s.serial_log_pos c) (s.serial_log_pos + 1) 0;
      serial_log_pos = s.serial_log_pos + 1;
    }
    else record s {
      serial_log_buf =
          update
            (update (shift_down (serial_log_size - 2) 0 s.serial_log_buf) (serial_log_size - 2) c)
            (serial_log_size - 1) 0;
    }

unfoldable pub serial_init : Serial → Serial
serial_init s = record s {
  serial_log_buf = update s.serial_log_buf 0 0;
  serial_log_pos = 0;
  trace =
      outb (com1_port + 4) 0x0B
      ∷ outb (com1_port + 2) 0xC7
      ∷ outb (com1_port + 3) 0x03
      ∷ outb (com1_port + 1) 0x00
      ∷ outb (com1_port + 0) 0x01
      ∷ outb (com1_port + 3) 0x80
      ∷ outb (com1_port + 1) 0x00
      ∷ s.trace;
}

-- The UART: whether the transmitter is empty at the `n`-th poll.
module _ (transmit_empty : ℕ → Bool) where
  unfoldable pub send : ℕ → ℕ → Serial → Serial
  send zero c s = s
  send (suc timeout) c s =
      let s1 = record s { polls = s.polls + 1 } in
      let rest = send timeout c s1 in
      if transmit_empty s.polls then record s1 { trace = outb com1_port c ∷ s1.trace } else rest

  unfoldable pub serial_write_char : ℕ → Serial → Serial
  serial_write_char c s = send 50000 c s

  abbrev pub write_one : ℕ → Serial → Serial
  write_one c s = log_append_char c (serial_write_char c s)

  -- The loop from index `4096 - k` on.
  unfoldable pub write_from : ℕ → List ℕ → Serial → Serial
  write_from zero str s = s
  write_from (suc k) [] s = s
  write_from (suc k) (c ∷ cs) s =
      let s1 = if c == 10 then write_one 13 s else s in
      let rest = write_from k cs (write_one c s1) in if c == 0 then s else rest

  unfoldable pub serial_write : List ℕ → Serial → Serial
  serial_write str s = write_from 4096 str s

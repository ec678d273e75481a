-- ===== src/Serial/Tests.antt =====
-- Runs of src/serial.c from its start.
use meu_so_baremetal.Prelude.{ℕ, ◌≡◌, refl, Bool, true, some, [], ◌∷◌, arith}
use meu_so_baremetal.Serial.{Serial, log_append_char, serial_write}
use meu_so_baremetal.Serial.Log.{IsLog, Appended, log_append_char-Appended}
use meu_so_baremetal.Serial.Writes.{Logged, serial_write-Logged}
use meu_so_baremetal.Serial.Line.{IsValid, line, serial_poll}
use meu_so_baremetal.Serial.Editing.{serial_poll-edit}

abbrev started : Serial
started = record {
  serial_log_buf = λ i. 0;
  serial_log_pos = 0;
  rx_buf = λ i. 65;
  rx_idx = 2;
  polls = 0;
  trace = [];
}

abbrev always : ℕ → Bool
always n = true

started-IsLog : IsLog started
started-IsLog = record { in_bounds = omega arith; terminated = refl }

log_append_char-Appended_example : Appended 66 started (log_append_char 66 started)
log_append_char-Appended_example = log_append_char-Appended 66 started started-IsLog

serial_write-Logged_example :
    Logged (111 ∷ 107 ∷ 13 ∷ 10 ∷ []) started (serial_write always (111 ∷ 107 ∷ 10 ∷ []) started)
serial_write-Logged_example = serial_write-Logged always (111 ∷ 107 ∷ 10 ∷ []) started started-IsLog

serial_poll-edit_example :
    IsValid (serial_poll always (some 66) started)
    × (line (serial_poll always (some 66) started) ≡ 65 ∷ 65 ∷ 66 ∷ [])
serial_poll-edit_example =
    serial_poll-edit always 66 started (record { log_ok = started-IsLog; fits = omega arith })

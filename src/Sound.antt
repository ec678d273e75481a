-- ===== src/Sound.antt =====
-- src/sound.c: the speaker, by port writes. `port` is what `inb(0x61)` gives. The delays are empty
-- loops and leave no trace.
use meu_so_baremetal.Prelude.{ℕ, ◌+◌, ◌-◌, ◌/◌, ◌%◌, ◌^◌, ◌∷◌, ◌==◌, if◌then◌else◌}
use meu_so_baremetal.Prelude.Events.{Trace, outb}

-- The lowest two bits set, and cleared.
abbrev pub with_gate : ℕ → ℕ
with_gate b = b - b % 4 + 3

abbrev pub without_gate : ℕ → ℕ
without_gate b = b - b % 4

unfoldable pub sound_play : (port freq : ℕ) → Trace → Trace
sound_play port freq trace =
    let div = 1193180 / freq in
    let tuned =
      outb 0x42 (div / 2 ^ 8 % 2 ^ 8) ∷ outb 0x42 (div % 2 ^ 8) ∷ outb 0x43 0xB6 ∷ trace in
    if freq == 0
    then trace
    else if port == with_gate port
    then tuned
    else outb 0x61 (with_gate port) ∷ tuned

unfoldable pub sound_stop : (port : ℕ) → Trace → Trace
sound_stop port trace = outb 0x61 (without_gate port) ∷ trace

-- The ports as each call finds them.
unfoldable pub sound_click : (at_play at_stop : ℕ) → Trace → Trace
sound_click at_play at_stop trace = sound_stop at_stop (sound_play at_play 1200 trace)

unfoldable pub sound_startup : (ℕ → ℕ) → Trace → Trace
sound_startup port trace = sound_stop (port 4) (
    sound_play (port 3) 1046
      (sound_play (port 2) 784 (sound_play (port 1) 659 (sound_play (port 0) 523 trace))))

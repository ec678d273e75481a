-- ===== src/Prelude/Events.antt =====
-- What the kernel does to the outside, in order: writes to I/O ports and lines for the serial log.
use Prim.Native.String.{String}
use meu_so_baremetal.Prelude.{ℕ, List}

pub data Event : Type 0 where
  outb : (port val : ℕ) → Event
  outw : (port val : ℕ) → Event
  outl : (port val : ℕ) → Event
  serial_write : String → Event

abbrev pub Trace : Type 0
Trace = List Event

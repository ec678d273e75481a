-- ===== src/Net.antt =====
-- src/net.c and include/net.h: frames for the RTL8139 card, built in byte memory.
-- The card's registers are reached by port events; what it receives lies in the memory at
-- `rx_buffer`.
pub mod Checksum
pub mod Frames
pub mod Poll
mod Tests
use meu_so_baremetal.Prelude.{
  ℕ, zero, suc, ◌+◌, ◌-◌, ◌*◌, ◌/◌, ◌%◌, ◌^◌, Bool, true, false, List, [], ◌∷◌, ltb, ◌==◌,
  if◌then◌else◌,
}
use meu_so_baremetal.Prelude.Events.{Trace, outl}
use meu_so_baremetal.Klibc.{ByteMem}

abbrev pub make_ip : (a b c d : ℕ) → ℕ
make_ip a b c d = a + b * 2 ^ 8 + c * 2 ^ 16 + d * 2 ^ 24

-- The memory is the one that packets are built in and received in; `sent` has the bytes of each
-- packet handed to the card, the newest first.
pub record Net : Type 0 where
  pub io_base : ℕ
  pub mac_addr : ℕ → ℕ
  pub my_ip : ℕ
  pub dns_server : ℕ
  pub rx_buffer : ℕ
  pub rx_offset : ℕ
  pub rx_count : ℕ
  pub tx_count : ℕ
  pub tx_buffer_num : ℕ
  pub sent : List (List ℕ)
  pub trace : Trace

-- The `n` bytes at `a`.
abbrev pub bytes_at : ℕ → ℕ → ByteMem → List ℕ
bytes_at zero a m = []
bytes_at (suc n) a m = m a ∷ bytes_at n (suc a) m

abbrev pub put8 : ℕ → ℕ → ByteMem → ByteMem
put8 a v m x = if x == a then v % 256 else m x

-- A little-endian store.
abbrev pub put16 : ℕ → ℕ → ByteMem → ByteMem
put16 a v m = put8 (a + 1) (v / 256) (put8 a v m)

abbrev pub put32 : ℕ → ℕ → ByteMem → ByteMem
put32 a v m = put16 (a + 2) (v / 2 ^ 16) (put16 a v m)

abbrev pub get16 : ℕ → ByteMem → ℕ
get16 a m = m a + 256 * m (a + 1)

abbrev pub get32 : ℕ → ByteMem → ℕ
get32 a m = get16 a m + 2 ^ 16 * get16 (a + 2) m

abbrev pub bswap16 : ℕ → ℕ
bswap16 v = v % 256 * 256 + v / 256 % 256

-- `packet` is an address; the card reads the `len` bytes there.
unfoldable pub net_send_packet : (packet len : ℕ) → ByteMem → Net → Net
net_send_packet packet len m s = if s.io_base == 0 then s else record s {
  trace =
      outl (s.io_base + (0x10 + s.tx_buffer_num * 4)) (len % 2 ^ 12)
      ∷ outl (s.io_base + (0x20 + s.tx_buffer_num * 4)) (packet % 2 ^ 32)
      ∷ s.trace;
  sent = bytes_at len packet m ∷ s.sent;
  tx_buffer_num = (s.tx_buffer_num + 1) % 4;
  tx_count = (s.tx_count + 1) % 2 ^ 32;
}

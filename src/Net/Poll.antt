-- ===== src/Net/Poll.antt =====
-- `net_init` and `net_poll` of src/net.c: set-up, the receive ring, and the replies.
-- `pci id slot` and `bar0 slot` are what the PCI configuration space gives, `inb` what the card's
-- byte registers hold, `reply` the address of the local arrays that replies are built in.
use meu_so_baremetal.Prelude.{
  ℕ, zero, suc, ◌+◌, ◌-◌, ◌/◌, ◌%◌, ◌^◌, ◌<◌, ◌≡◌, Bool, true, false, ◌&&◌, ◌||◌, Option, none,
  some, ◌∷◌, ltb, ◌==◌, if◌then◌else◌, arith,
}
use meu_so_baremetal.Prelude.Events.{Trace, outb, outw, outl, serial_write}
use meu_so_baremetal.Klibc.{ByteMem, fast_memcpy}
use meu_so_baremetal.Memory.{Heap, kmalloc}
use meu_so_baremetal.Net.{Net, put8, put16, put32, get16, get32, bswap16, net_send_packet}
use meu_so_baremetal.Net.Checksum.{ip_checksum}
use meu_so_baremetal.Net.Frames.{ethernet_size, ipv4_size, put_mac}

abbrev pub arp_size : ℕ
arp_size = 28

-- The first slot, from `slot` on, of a Realtek RTL8139.
unfoldable pub find_card : ℕ → ℕ → (ℕ → ℕ) → Option ℕ
find_card zero slot id = none
find_card (suc k) slot id =
    let rest = find_card k (suc slot) id in
    if id slot % 2 ^ 16 == 0x10EC && id slot / 2 ^ 16 % 2 ^ 16 == 0x8139 then some slot else rest

-- The port of the card, with the default of QEMU when there is none or it is 0.
abbrev pub card_port : Option ℕ → (ℕ → ℕ) → ℕ → ℕ
card_port none bar0 old = if old == 0 then 0xC000 else old
card_port (some slot) bar0 old =
    let base = (bar0 slot - bar0 slot % 4) % 2 ^ 16 in if base == 0 then 0xC000 else base

abbrev pub card_lines : Option ℕ → Trace → Trace
card_lines none trace = trace
card_lines (some slot) trace =
    serial_write "[NET] Placa Realtek RTL8139 Encontrada no PCI!\n" ∷ trace

-- `none` if `kmalloc` does not end. The wait for the end of the reset is left out.
unfoldable pub net_init : (id bar0 mac : ℕ → ℕ) → Net × Heap → Option (Net × Heap)
net_init id bar0 mac (s, h) =
    let slot = find_card 32 0 id in
    let io = card_port slot bar0 s.io_base in
    elim (kmalloc (8192 + 2048) h) [
      | none ↦ none
      | some (rx, h1) ↦ some (
        record s {
          io_base = io;
          mac_addr = mac;
          rx_buffer = rx;
          trace =
              serial_write "[NET] RTL8139 Inicializada com Suporte a SLIRP (IP: 10.0.2.15)!\n"
              ∷ outb (io + 0x37) 0x0C
              ∷ outl (io + 0x44) 0x0F
              ∷ outw (io + 0x3C) 0x0005
              ∷ outl (io + 0x30) (rx % 2 ^ 32)
              ∷ outb (io + 0x37) 0x10
              ∷ outb (io + 0x52) 0x00
              ∷ card_lines slot s.trace;
        },
        h1,
      )
    ]

-- The reply to the ARP request in the frame at `eth`.
unfoldable pub arp_reply : (reply eth : ℕ) → ByteMem → Net → ByteMem
arp_reply reply eth m s =
    let arp = eth + ethernet_size in
    let r_arp = reply + ethernet_size in
    let m1 = put_mac (reply + 6) s.mac_addr (fast_memcpy reply (eth + 6) 6 m) in
    let m2 = put16 r_arp (bswap16 1) (put16 (reply + 12) (bswap16 0x0806) m1) in
    let m3 = put8 (r_arp + 5) 4 (put8 (r_arp + 4) 6 (put16 (r_arp + 2) (bswap16 0x0800) m2)) in
    let m4 = put_mac (r_arp + 8) s.mac_addr (put16 (r_arp + 6) (bswap16 2) m3) in
    let m5 = fast_memcpy (r_arp + 18) (arp + 8) 6 (put32 (r_arp + 14) s.my_ip m4) in
    put32 (r_arp + 24) (get32 (arp + 14) m5) m5

-- The reply to the echo request in the frame at `eth`, of which 98 bytes are copied.
unfoldable pub echo_reply : (reply eth : ℕ) → ByteMem → Net → ByteMem
echo_reply reply eth m s =
    let ip = eth + ethernet_size in
    let r_ip = reply + ethernet_size in
    let r_icmp = r_ip + ipv4_size in
    let m1 = fast_memcpy reply (eth + 6) 6 (fast_memcpy reply eth 98 m) in
    let m2 = put_mac (reply + 6) s.mac_addr m1 in
    let m3 = put32 (r_ip + 12) s.my_ip (put32 (r_ip + 16) (get32 (ip + 12) m2) m2) in
    let m4 = put16 (r_ip + 10) 0 m3 in
    let m5 = put16 (r_ip + 10) (ip_checksum r_ip ipv4_size m4) m4 in
    let m6 = put16 (r_icmp + 2) 0 (put8 r_icmp 0 m5) in
    put16 (r_icmp + 2) (ip_checksum r_icmp 64 m6) m6

abbrev pub is_arp_request : ℕ → ByteMem → Net → Bool
is_arp_request eth m s =
    let arp = eth + ethernet_size in
    bswap16 (get16 (arp + 6) m) == 1 && get32 (arp + 24) m == s.my_ip

abbrev pub is_echo_request : ℕ → ByteMem → Net → Bool
is_echo_request eth m s =
    let ip = eth + ethernet_size in
    m (ip + 9) == 1 && get32 (ip + 16) m == s.my_ip && m (ip + ipv4_size) == 8

-- What a good frame at `eth` causes.
unfoldable pub handle_frame : (reply eth : ℕ) → ByteMem × Net → ByteMem × Net
handle_frame reply eth (m, s) =
    let eth_type = bswap16 (get16 (eth + 12) m) in
    let arp = arp_reply reply eth m s in
    let echo = echo_reply reply eth m s in
    if eth_type == 0x0806
    then (if is_arp_request eth m s
        then (arp, net_send_packet reply (ethernet_size + arp_size) arp s)
        else (m, s))
    else if eth_type == 0x0800
    then (if is_echo_request eth m s then (echo, net_send_packet reply 98 echo s) else (m, s))
    else (m, s)

-- The offset of the next frame, and the register that tells the card.
unfoldable pub advance : ℕ → Net → Net
advance pkt_len s =
    let past = (s.rx_offset + pkt_len + 4 + 3) % 2 ^ 32 in
    let next = (past - past % 4) % 8192 in
    record s {
      rx_offset = next;
      trace = outw (s.io_base + 0x38) ((next + (2 ^ 16 - 0x10)) % 2 ^ 16) ∷ s.trace;
    }

unfoldable pub net_poll : (inb : ℕ → ℕ) (reply : ℕ) → ByteMem × Net → ByteMem × Net
net_poll inb reply (m, s) =
    let pkt = s.rx_buffer + s.rx_offset in
    let rx_status = get16 pkt m in
    let pkt_len = get16 (pkt + 2) m in
    let counted = record s { rx_count = (s.rx_count + 1) % 2 ^ 32 } in
    let handled = handle_frame reply (pkt + 4) (m, counted) in
    let good = rx_status % 2 == 1 && ltb 0 pkt_len && ltb pkt_len 1536 in
    let (m1, s1) = if good then handled else (m, s) in
    if s.io_base == 0 || s.rx_buffer == 0
    then (m, s)
    else if inb (s.io_base + 0x37) % 2 == 0
    then (m1, advance pkt_len s1)
    else (m, s)

-- The next frame's offset lies in the ring of 8192 bytes, at a multiple of 4.
abbrev pub InRing : Net → Type 0
InRing s = (s.rx_offset < 8192) × (s.rx_offset % 4 ≡ 0)

advance-InRing : (pkt_len : ℕ) (s : Net) → InRing (advance pkt_len s)
unfolding advance
advance-InRing pkt_len s = (omega arith, omega arith)

if-InRing :
    (b : Bool) (x y : ByteMem × Net) → InRing x.1 → InRing y.1 → InRing (if b then x else y).1
if-InRing true x y v w = v
if-InRing false x y v w = w

-- Whatever the card has received, a poll keeps the offset in the ring and aligned.
pub net_poll-InRing :
    (inb : ℕ → ℕ) (reply : ℕ) (m : ByteMem) (s : Net)
    → InRing s
    → InRing (net_poll inb reply (m, s)).1
unfolding net_poll
net_poll-InRing inb reply m s v =
    if-InRing (s.io_base == 0 || s.rx_buffer == 0) (m, s) _ v
      (if-InRing (inb (s.io_base + 0x37) % 2 == 0) _ (m, s)
        (advance-InRing (get16 (s.rx_buffer + s.rx_offset + 2) m) _) v)

-- A frame that is neither an ARP request for this address nor an echo request to it is not
-- answered and changes nothing.
pub handle_frame_ignores :
    (reply eth : ℕ) (m : ByteMem) (s : Net)
    → (bswap16 (get16 (eth + 12) m) == 0x0806 && is_arp_request eth m s) ≡ false
    → (bswap16 (get16 (eth + 12) m) == 0x0800 && is_echo_request eth m s) ≡ false
    → handle_frame reply eth (m, s) ≡ (m, s)
unfolding handle_frame
handle_frame_ignores reply eth m s no_arp no_echo = ground (arith, no_arp, no_echo)

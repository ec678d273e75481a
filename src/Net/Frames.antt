-- ===== src/Net/Frames.antt =====
-- `net_send_udp`, `net_send_ping` and `net_send_dns_query` of src/net.c.
-- `packet` and `payload` are the addresses of the local arrays.
use meu_so_baremetal.Prelude.{
  ℕ, zero, suc, ◌+◌, ◌-◌, ◌%◌, ◌||◌, List, [], ◌∷◌, ◌++◌, length, take, drop, ltb, ◌==◌,
  if◌then◌else◌,
}
use meu_so_baremetal.Prelude.Events.{serial_write}
use meu_so_baremetal.Klibc.{ByteMem, fast_memset, fast_memcpy}
use meu_so_baremetal.Net.{Net, put8, put16, put32, bswap16, net_send_packet}
use meu_so_baremetal.Net.Checksum.{ip_checksum}

abbrev pub ethernet_size : ℕ
ethernet_size = 14

abbrev pub ipv4_size : ℕ
ipv4_size = 20

abbrev pub udp_size : ℕ
udp_size = 8

abbrev pub icmp_size : ℕ
icmp_size = 8

-- A memory in which the six bytes at `d` are `mac`.
abbrev pub put_mac : ℕ → (ℕ → ℕ) → ByteMem → ByteMem
put_mac d mac m x = if ltb x d then m x else if ltb x (d + 6) then mac (x - d) else m x

abbrev pub qemu_gateway_mac : ℕ → ℕ
qemu_gateway_mac i =
    if i == 0
    then 0x52
    else if i == 1
    then 0x54
    else if i == 2
    then 0x00
    else if i == 3
    then 0x12
    else if i == 4
    then 0x35
    else 0x02

-- The Ethernet header of a frame to the gateway.
unfoldable pub put_ethernet : ℕ → (ℕ → ℕ) → ByteMem → ByteMem
put_ethernet packet mac m =
    put16 (packet + 12) (bswap16 0x0800)
      (put_mac (packet + 6) mac (put_mac packet qemu_gateway_mac m))

-- The header at `ip`, with its checksum, which is computed over the header with 0 in its place.
unfoldable pub put_ipv4 : (ip total_len id protocol src_ip dest_ip : ℕ) → ByteMem → ByteMem
put_ipv4 ip total_len id protocol src_ip dest_ip m =
    let m1 = put16 (ip + 2) (bswap16 total_len) (put8 (ip + 1) 0 (put8 ip 0x45 m)) in
    let m2 = put8 (ip + 8) 64 (put16 (ip + 6) 0 (put16 (ip + 4) (bswap16 id) m1)) in
    let m3 = put32 (ip + 16) dest_ip (put32 (ip + 12) src_ip (put8 (ip + 9) protocol m2)) in
    let m4 = put16 (ip + 10) 0 m3 in put16 (ip + 10) (ip_checksum ip ipv4_size m4) m4

unfoldable pub udp_frame :
    (packet dest_ip src_port dest_port payload payload_len : ℕ) → ByteMem → Net → ByteMem
udp_frame packet dest_ip src_port dest_port payload payload_len m s =
    let ip = packet + ethernet_size in
    let udp = ip + ipv4_size in
    let total_len = ethernet_size + ipv4_size + udp_size + payload_len in
    let m1 = put_ethernet packet s.mac_addr (fast_memset packet 0 total_len m) in
    let m2 = put_ipv4 ip (ipv4_size + udp_size + payload_len) 1234 17 s.my_ip dest_ip m1 in
    let m3 = put16 (udp + 2) (bswap16 dest_port) (put16 udp (bswap16 src_port) m2) in
    let m4 = put16 (udp + 6) 0 (put16 (udp + 4) (bswap16 (udp_size + payload_len)) m3) in
    fast_memcpy (udp + udp_size) payload payload_len m4

unfoldable pub net_send_udp :
    (packet dest_ip src_port dest_port payload payload_len : ℕ) → ByteMem × Net → ByteMem × Net
net_send_udp packet dest_ip src_port dest_port payload payload_len (m, s) =
    let total_len = ethernet_size + ipv4_size + udp_size + payload_len in
    let m1 = udp_frame packet dest_ip src_port dest_port payload payload_len m s in
    if s.io_base == 0 || payload == 0 || payload_len == 0
    then (m, s)
    else if ltb 1500 total_len
    then (m, s)
    else (m1, net_send_packet packet total_len m1 s)

unfoldable pub ping_frame : (packet dest_ip : ℕ) → ByteMem → Net → ByteMem
ping_frame packet dest_ip m s =
    let ip = packet + ethernet_size in
    let icmp = ip + ipv4_size in
    let m1 = put_ethernet packet s.mac_addr (fast_memset packet 0 98 m) in
    let m2 = put_ipv4 ip (ipv4_size + icmp_size + 32) 0x4321 1 s.my_ip dest_ip m1 in
    let m3 = put16 (icmp + 4) (bswap16 0x1337) (put8 (icmp + 1) 0 (put8 icmp 8 m2)) in
    let m4 = put16 (icmp + 2) 0 (put16 (icmp + 6) (bswap16 1) m3) in
    put16 (icmp + 2) (ip_checksum icmp (icmp_size + 32) m4) m4

unfoldable pub net_send_ping : (packet dest_ip : ℕ) → ByteMem × Net → ByteMem × Net
net_send_ping packet dest_ip (m, s) =
    let m1 = ping_frame packet dest_ip m s in
    let s1 = net_send_packet packet 98 m1 s in
    (m1, record s1 { trace = serial_write "[NET] Pacote ICMP Echo Ping enviado!\n" ∷ s1.trace })

-- The bytes of a name before its first dot.
unfoldable pub label : List ℕ → List ℕ
label [] = []
label (c ∷ cs) = let rest = label cs in if c == 46 then [] else c ∷ rest

-- The labels of a domain name, each with its length before it (`label_len` is a byte, and the copy
-- takes as many); `k` is the fuel, of which the name's length is enough.
unfoldable pub qname : ℕ → List ℕ → List ℕ
qname zero domain = []
qname (suc k) [] = []
qname (suc k) (c ∷ cs) =
    let part = label (c ∷ cs) in
    let label_len = length part % 256 in
    (label_len ∷ take label_len part) ++ qname k (drop (length part + 1) (c ∷ cs))

-- The request: identifier 0x1234, recursion desired, one question of type A and class IN.
unfoldable pub dns_request : List ℕ → List ℕ
dns_request domain =
    0x12 ∷ 0x34 ∷ 0x01 ∷ 0x00 ∷ 0x00 ∷ 0x01 ∷ 0 ∷ 0 ∷ 0 ∷ 0 ∷ 0 ∷ 0 ∷ []
    ++ (qname (length domain) domain ++ (0 ∷ 0x00 ∷ 0x01 ∷ 0x00 ∷ 0x01 ∷ []))

-- The bytes of a list stored at `a`.
abbrev pub put_bytes : ℕ → List ℕ → ByteMem → ByteMem
put_bytes a [] m = m
put_bytes a (b ∷ bs) m = put_bytes (suc a) bs (put8 a b m)

unfoldable pub net_send_dns_query : (packet dns_req : ℕ) → List ℕ → ByteMem × Net → ByteMem × Net
net_send_dns_query packet dns_req domain (m, s) =
    let request = dns_request domain in
    let (m1, s1) =
      net_send_udp packet s.dns_server 5353 53 dns_req (length request)
        (put_bytes dns_req request m, s) in
    (
      m1,
      record s1 {
        trace = serial_write "[NET DNS] Consulta DNS enviada para 10.0.2.3!\n" ∷ s1.trace;
      },
    )

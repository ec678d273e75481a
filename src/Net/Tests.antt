-- ===== src/Net/Tests.antt =====
-- Runs of src/net.c on a small memory.
use meu_so_baremetal.Prelude.{ℕ, ◌%◌, ◌<◌, ◌≡◌, refl, [], arith, ◌==◌, if◌then◌else◌}
use meu_so_baremetal.Klibc.{ByteMem}
use meu_so_baremetal.Net.{Net, put16}
use meu_so_baremetal.Net.Checksum.{fold, sum_words, ip_checksum, ip_checksum_verifies}
use meu_so_baremetal.Net.Poll.{
  InRing, net_poll, net_poll-InRing, handle_frame, handle_frame_ignores,
}

-- A header of ten words of 0x4511, but for 0 in its word 5.
abbrev header : ByteMem
header x = if x == 10 then 0 else if x == 11 then 0 else if x % 2 == 0 then 0x45 else 0x11

header_small : (x : ℕ) → header x < 256
header_small x = ground arith

ip_checksum_verifies_example :
    fold 2 (sum_words 10 0 0 20 (put16 10 (ip_checksum 0 20 header) header) 0) ≡ 65535
ip_checksum_verifies_example =
    ip_checksum_verifies 10 5 0 header (omega arith) (omega arith) header_small refl refl

abbrev card : Net
card = record {
  io_base = 0xC000;
  mac_addr = λ i. 2;
  my_ip = 7;
  dns_server = 9;
  rx_buffer = 4096;
  rx_offset = 8188;
  rx_count = 0;
  tx_count = 0;
  tx_buffer_num = 3;
  sent = [];
  trace = [];
}

net_poll-InRing_example : InRing (net_poll (λ r. 0) 64 (header, card)).1
net_poll-InRing_example = net_poll-InRing (λ r. 0) 64 header card (omega arith, refl)

handle_frame_ignores_example : handle_frame 64 4100 (header, card) ≡ (header, card)
handle_frame_ignores_example = handle_frame_ignores 64 4100 header card refl refl

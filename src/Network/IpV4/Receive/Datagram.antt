-- ===== src/Network/IpV4/Receive/Datagram.antt =====
-- What IpV4Input promises: the packets that it takes for datagrams, and what becomes of a packet.
use k_os.Prelude.{ℕ, ◌+◌, ◌*◌, ◌%◌, ◌^◌, ◌≤◌, ◌≡◌, ◌≢◌, ◌⊎◌, true, false, List, length, get_or}
use k_os.Network.Buf.{NetworkBuf, buf_unref}
use k_os.Network.Buf.Windows.{IsValid}
use k_os.Network.Arp.Input.{ntohs}
use k_os.Network.IpV4.Checksum.{IsBytes}
use k_os.Network.IpV4.Header.{header_of, checksum_of}
use k_os.Network.IpV4.Receive.{Receiver, Consumed, freed, handled, is_for, is_fragment}

abbrev pub header_len : NetworkBuf → ℕ
header_len b = (header_of b).ihl * 4

abbrev pub total_len : NetworkBuf → ℕ
total_len b = ntohs (header_of b).total_len

-- The payload of a buffer starts with a datagram.
pub record IsDatagram (b : NetworkBuf) : Type 0 where
  pub version : (header_of b).version ≡ 4
  pub options : (20 ≤ header_len b) × (header_len b ≤ 60)
  pub inside : header_len b ≤ total_len b
  pub whole : total_len b ≤ b.len
  pub sum : ntohs (checksum_of b (header_len b)) ≡ (header_of b).checksum

-- The memory behind the window of a buffer.
pub record HasMemory (b : NetworkBuf) : Type 0 where
  pub valid : IsValid b
  pub bytes : IsBytes b.bytes
  pub size : length b.bytes ≡ b.true_size

-- What a handler gets of the buffer.
pub record IsPayload (b p : NetworkBuf) : Type 0 where
  pub valid : IsValid p
  pub front : p.data_ptr ≡ b.data_ptr + header_len b
  pub back : p.tail ≡ b.data_ptr + total_len b
  pub bytes : p.bytes ≡ b.bytes
  pub head : p.head ≡ b.head
  pub ref_count : p.ref_count ≡ b.ref_count
  pub addresses : (p.ip_src ≡ (header_of b).src_addr) × (p.ip_dst ≡ (header_of b).dst_addr)

abbrev pub handler_of : List ℕ → NetworkBuf → ℕ
handler_of protocols b = get_or protocols (header_of b).protocol 0

abbrev pub IsHanded : List ℕ → NetworkBuf → Receiver → Receiver × Consumed → Type 0
IsHanded protocols b d r =
    (is_for d (header_of b).dst_addr ≡ true)
    × (handler_of protocols b ≢ 0)
    × ((p : NetworkBuf) × IsPayload b p
        × (r ≡ (
          d,
          handled (handler_of protocols b) p (header_of b).src_addr (header_of b).dst_addr,
        )))

-- The buffer is given back, with its memory as it was.
abbrev pub IsFreed : NetworkBuf → Receiver → Receiver × Consumed → Type 0
IsFreed b d r =
    (q : NetworkBuf) × (r ≡ (d, freed (buf_unref q)))
    × (q.bytes ≡ b.bytes)
    × (q.ref_count ≡ b.ref_count)

abbrev pub one_more_error : Receiver → Receiver
one_more_error d = record d { rx_errors = (d.rx_errors + 1) % 2 ^ 64 }

abbrev pub one_more_dropped : Receiver → Receiver
one_more_dropped d = record d { rx_dropped = (d.rx_dropped + 1) % 2 ^ 64 }

abbrev pub NotWanted : List ℕ → NetworkBuf → Receiver → Type 0
NotWanted protocols b d =
    (is_fragment (header_of b) ≡ true)
    ⊎ ((is_for d (header_of b).dst_addr ≡ false) ⊎ (handler_of protocols b ≡ 0))

abbrev pub Judged : List ℕ → NetworkBuf → Receiver → Receiver × Consumed → Type 0
Judged protocols b d r =
    ((is_fragment (header_of b) ≡ false) × IsHanded protocols b d r)
    ⊎ (NotWanted protocols b d × IsFreed b (one_more_dropped d) r)

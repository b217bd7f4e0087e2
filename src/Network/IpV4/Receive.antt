-- ===== src/Network/IpV4/Receive.antt =====
-- Kernel/Source/Network/IpV4.c: IpV4Input and the table of the protocols.
--
-- The buffer and the device are not NULL. A handler is its address; that it is called is a result. Ntohs
-- and Htons are one function, and so are Ntohl and Htonl.
pub mod Datagram
pub mod Verdict
use k_os.Prelude.{
  ℕ, ◌+◌, ◌-◌, ◌*◌, ◌%◌, ◌^◌, bit_or, Bool, not, ◌||◌, Option, List, ltb, ◌==◌, if◌then◌else◌,
  get_or, set,
}
use k_os.Network.Buf.{NetworkBuf, buf_unref, pull, trim}
use k_os.Network.Arp.Input.{ntohs, ntohl, is_success}
use k_os.Network.IpV4.Header.{
  IpV4Header, header_of, checksum_of, clear_checksum, store16, data_offset,
}

-- What IpV4Input uses of a device; `ip_addr` is *(UINT32*)Dev->IpAddr.
pub record Receiver : Type 0 where
  pub ip_addr : ℕ
  pub rx_errors : ℕ
  pub rx_dropped : ℕ

-- NetworkFreeBuf, with the buffer that others still hold, or the call of a handler with its arguments.
pub data Consumed : Type 0 where
  freed : Option NetworkBuf → Consumed
  handled : ℕ → NetworkBuf → ℕ → ℕ → Consumed

abbrev pub fail : NetworkBuf → Receiver → Receiver × Consumed
fail b d = (record d { rx_errors = (d.rx_errors + 1) % 2 ^ 64 }, freed (buf_unref b))

abbrev pub discard_packet : NetworkBuf → Receiver → Receiver × Consumed
discard_packet b d = (record d { rx_dropped = (d.rx_dropped + 1) % 2 ^ 64 }, freed (buf_unref b))

-- IPV4_LOOPBACK is IPV4(127, 0, 0, 1).
abbrev pub is_for : Receiver → ℕ → Bool
is_for d dst = ntohl dst == d.ip_addr || dst == 0xFFFFFFFF || dst == 0x7F000001

-- From the test of the destination on.
unfoldable pub dispatch : List ℕ → NetworkBuf → Receiver → IpV4Header → Receiver × Consumed
dispatch protocols b d h =
    let handler = get_or protocols h.protocol 0 in
    if not (is_for d h.dst_addr)
    then discard_packet b d
    else if not (handler == 0)
    then (d, handled handler b h.src_addr h.dst_addr)
    else discard_packet b d

-- IPV4_FLAG_MORE_FRAG and IPV4_FRAG_OFFSET_MASK are the lowest 14 bits.
abbrev pub is_fragment : IpV4Header → Bool
is_fragment h = not (ntohs h.frag_off % 2 ^ 14 == 0)

unfoldable pub open_packet : List ℕ → NetworkBuf → Receiver → IpV4Header → Receiver × Consumed
open_packet protocols b d h =
    if is_fragment h
    then discard_packet b d
    else (let pulled = pull b (h.ihl * 4) in
        if not (is_success pulled.1)
        then fail pulled.0 d
        else dispatch protocols (record pulled.0 { ip_src = h.src_addr; ip_dst = h.dst_addr }) d h)

-- The bytes after the header's field is put back.
abbrev pub checked : NetworkBuf → IpV4Header → NetworkBuf
checked b h = record b { bytes = store16 (clear_checksum b) (data_offset b + 10) h.checksum }

unfoldable pub verify : List ℕ → NetworkBuf → Receiver → IpV4Header → Receiver × Consumed
verify protocols b d h =
    if not (ntohs (checksum_of b (h.ihl * 4)) == h.checksum)
    then fail (checked b h) d
    else open_packet protocols (record (checked b h) { flags = bit_or b.flags 1 }) d h

-- The trim of what is behind the datagram.
abbrev pub trimmed : NetworkBuf → ℕ → NetworkBuf
trimmed b total = if ltb total b.len then (trim b (b.len - total)).0 else b

unfoldable pub ip_input : List ℕ → NetworkBuf → Receiver → Receiver × Consumed
ip_input protocols b d =
    let h = header_of b in
    let header_len = h.ihl * 4 in
    let total = ntohs h.total_len in
    if ltb b.len 20
    then fail b d
    else if not (h.version == 4)
    then fail b d
    else if ltb header_len 20 || ltb 60 header_len || ltb b.len header_len
    then fail b d
    else if ltb total header_len || ltb b.len total
    then fail b d
    else verify protocols (trimmed b total) d h

-- What IpV4RegisterProtocol answers. A number of 8 bits is less than 256.
pub data Registration : Type 0 where
  registered no_handler already_exists : Registration

unfoldable pub register_protocol : List ℕ → ℕ → ℕ → List ℕ × Registration
register_protocol protocols protocol handler =
    if handler == 0
    then (protocols, no_handler)
    else if not (get_or protocols protocol 0 == 0)
    then (protocols, already_exists)
    else (set protocols protocol handler, registered)

unfoldable pub unregister_protocol : List ℕ → ℕ → List ℕ
unregister_protocol protocols protocol = set protocols protocol 0

-- ===== src/Network/IpV4/Send.antt =====
-- Kernel/Source/Network/IpV4.c: IpV4Init and IpV4Output, with the calls of Kernel/Source/Network/Arp.c that
-- it makes.
--
-- The buffer is not NULL. What is read from outside the two files is an argument: the two blocks that
-- MemoryAllocate has for a request, what EthernetOutput answers for the request and for the packet, and the
-- times. EthernetOutput gets the buffer in every case and frees it itself where it fails.
pub mod Build
pub mod Datagrams
pub mod Unresolved
pub mod Outcome
pub mod RoundTrip
mod Tests
use k_os.Prelude.{
  ℕ, ◌+◌, ◌%◌, ◌^◌, Bool, true, not, ◌&&◌, ◌||◌, Option, none, some, List, [], ltb, ◌==◌,
  if◌then◌else◌, replicate,
}
use k_os.Network.Buf.{
  Allocation, NetworkBuf, Status, success, incorrect_value, no_object, no_memory, buf_unref,
  reserve,
}
use k_os.Network.Arp.{Arp, queue_packet}
use k_os.Network.Arp.Input.{
  NetworkDevice, Effect, Resolution, ntohs, ntohl, is_success, arp_resolve,
}
use k_os.Network.IpV4.Routes.{IpV4Route, lookup_loop}
use k_os.Network.IpV4.Address.{is_broadcast, is_loopback}
use k_os.Network.IpV4.{ip_checksum}
use k_os.Network.IpV4.Header.{IpV4Header, header_bytes, write_bytes, store16, bytes_at, data_offset}

-- GIpV4Routes, GIpV4IdCounter, GIpV4Protocols and GIpV4Initialized.
pub record IpV4 : Type 0 where
  pub routes : List IpV4Route
  pub id_counter : ℕ
  pub protocols : List ℕ
  pub initialized : Bool

unfoldable pub ip_init : IpV4 → IpV4
ip_init s =
    if s.initialized
    then s
    else record { routes = []; id_counter = 0; protocols = replicate 256 0; initialized = true }

-- What IpV4Output uses of a device.
pub record Interface : Type 0 where
  pub dev : NetworkDevice
  pub mtu : ℕ
  pub is_loopback_type : Bool

pub record Surroundings : Type 0 where
  pub device : ℕ → Interface
  pub memory : Allocation
  pub request_sent : Status
  pub frame_sent : Status
  pub now : ℕ
  pub cache_timeout : ℕ
  pub request_timeout : ℕ

-- Where the buffer has gone: given back (with what others still hold), to the queue of the ARP layer, or to
-- EthernetOutput with the destination of the frame.
pub data Fate : Type 0 where
  released : Option NetworkBuf → Fate
  queued : NetworkBuf → Fate
  framed : NetworkBuf → List ℕ → Fate

pub record Sent : Type 0 where
  pub state : IpV4
  pub arp : Arp
  pub effects : List Effect
  pub fate : Fate
  pub status : Status

abbrev pub refuse : IpV4 → Arp → NetworkBuf → Status → Sent
refuse s arp b code = record {
  state = s;
  arp = arp;
  effects = [];
  fate = released (buf_unref b);
  status = code;
}

-- The source address that is written to the header.
abbrev pub source_of : Surroundings → IpV4Route → ℕ → ℕ → ℕ
source_of w r dest src =
    if not (src == 0)
    then src
    else if is_broadcast dest
    then 0
    else if not (r.src == 0)
    then ntohl r.src
    else (w.device r.dev).dev.ip_addr

abbrev pub is_unsourced : ℕ → ℕ → Bool
is_unsourced dest src = src == 0 && not (is_broadcast dest)

-- The header without its checksum. `len` is Buf->Len.
abbrev pub header_for : ℕ → ℕ → ℕ → ℕ → ℕ → IpV4Header
header_for len id protocol src dest = record {
  version = 4;
  ihl = 5;
  tos = 0;
  total_len = ntohs (len % 2 ^ 16);
  id = ntohs id;
  frag_off = 0;
  ttl = 64;
  protocol = protocol;
  checksum = 0;
  src_addr = src;
  dst_addr = dest;
}

abbrev pub write_header : NetworkBuf → IpV4Header → NetworkBuf
write_header b h = record b { bytes = write_bytes b.bytes (data_offset b) (header_bytes h) }

abbrev pub store_checksum : NetworkBuf → NetworkBuf
store_checksum b = record b {
  bytes =
      store16 b.bytes (data_offset b + 10)
        (ntohs (ip_checksum (bytes_at 20 b.bytes (data_offset b))));
}

-- ArpQueuePacket and what follows it.
abbrev pub queue_or_free : IpV4 → List Effect → Status → NetworkBuf → Arp × Status → Sent
queue_or_free s effects code b (arp, answer) = record {
  state = s;
  arp = arp;
  effects = effects;
  fate = if is_success answer then queued b else released (buf_unref b);
  status = code;
}

abbrev pub to_ethernet : Surroundings → IpV4 → Arp → NetworkBuf → List ℕ → Sent
to_ethernet w s arp b mac = record {
  state = s;
  arp = arp;
  effects = [];
  fate = framed b mac;
  status = w.frame_sent;
}

abbrev pub next_hop : IpV4Route → ℕ → ℕ
next_hop r dest = if not (r.gateway == 0) then ntohl r.gateway else dest

-- What follows ArpResolve, which answers SUCCESS exactly where it has a MAC; `ptr` is the address of the
-- buffer.
abbrev pub after_resolve :
    Surroundings → IpV4 → ℕ → NetworkBuf → IpV4Route → ℕ → Resolution → Option (List ℕ) → Sent
after_resolve w s ptr b r dest answer (some mac) = to_ethernet w s answer.state b mac
after_resolve w s ptr b r dest answer none = queue_or_free s answer.effects answer.status b (
    queue_packet answer.state w.now w.request_timeout (w.device r.dev).dev.ptr (next_hop r dest)
      ptr)

unfoldable pub send_resolved : Surroundings → IpV4 → Arp → ℕ → NetworkBuf → IpV4Route → ℕ → Sent
send_resolved w s arp ptr b r dest =
    let answer =
      arp_resolve w.memory w.request_sent arp w.now w.cache_timeout (w.device r.dev).dev
        (next_hop r dest) in
    after_resolve w s ptr b r dest answer answer.mac

-- The hardware address of the next hop.
unfoldable pub send_frame : Surroundings → IpV4 → Arp → ℕ → NetworkBuf → IpV4Route → ℕ → Sent
send_frame w s arp ptr b r dest =
    if is_broadcast dest
    then to_ethernet w s arp b (replicate 6 0xff)
    else if is_loopback dest || (w.device r.dev).is_loopback_type
    then to_ethernet w s arp b (w.device r.dev).dev.mac_addr
    else send_resolved w s arp ptr b r dest

-- From the header on; `b` has room for it.
unfoldable pub send_datagram :
    Surroundings → IpV4 → Arp → ℕ → NetworkBuf → IpV4Route → ℕ → ℕ → ℕ → Sent
send_datagram w s arp ptr b r dest src protocol =
    let id = (s.id_counter + 1) % 2 ^ 16 in
    let counted = record s { id_counter = id } in
    let source = source_of w r dest src in
    let written = write_header b (header_for b.len id protocol source dest) in
    if is_unsourced dest src && source == 0
    then refuse counted arp written no_object
    else send_frame w counted arp ptr (store_checksum written) r dest

-- From the copy of the route on.
unfoldable pub send_over : Surroundings → IpV4 → Arp → ℕ → NetworkBuf → IpV4Route → ℕ → ℕ → ℕ → Sent
send_over w s arp ptr b r dest src protocol =
    let reserved = reserve b 20 in
    if r.dev == 0
    then refuse s arp b no_object
    else if ltb (w.device r.dev).mtu ((b.len + 20) % 2 ^ 32)
    then refuse s arp b incorrect_value
    else if not (is_success reserved.1)
    then refuse s arp reserved.0 no_memory
    else send_datagram w s arp ptr reserved.0 r dest src protocol

-- `Found`, and the copy of the route.
abbrev pub send_by :
    Surroundings → IpV4 → Arp → ℕ → NetworkBuf → ℕ → ℕ → ℕ → Option IpV4Route → Sent
send_by w s arp ptr b dest src protocol none = refuse s arp b no_object
send_by w s arp ptr b dest src protocol (some r) = send_over w s arp ptr b r dest src protocol

unfoldable pub ip_output : Surroundings → IpV4 → Arp → ℕ → NetworkBuf → ℕ → ℕ → ℕ → Sent
ip_output w s arp ptr b dest src protocol =
    send_by w s arp ptr b dest src protocol (lookup_loop dest none s.routes)

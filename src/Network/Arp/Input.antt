-- ===== src/Network/Arp/Input.antt =====
-- Kernel/Source/Network/Arp.c: packets of the protocol that are sent and received, and ArpTick.
--
-- The fields of a header are the numbers that stand in the packet, as they are loaded. The destination of
-- a frame without a target is the broadcast address.
use k_os.Prelude.{
  ℕ, ◌+◌, ◌*◌, ◌/◌, ◌%◌, ◌^◌, Bool, true, false, not, ◌&&◌, ◌||◌, Option, none, some, List, [], ◌∷◌,
  ◌++◌, ltb, leb, ◌==◌, if◌then◌else◌, replicate,
}
use k_os.Network.Buf.{
  Allocation, NetworkBuf, Status, success, incorrect_value, no_object, no_memory, not_found,
  alloc_buf, put,
}
use k_os.Network.Arp.{Arp, Waiting, purge_expired, cache_add, cache_lookup}

abbrev pub ntohs : ℕ → ℕ
ntohs n = n / 2 ^ 8 + n % 2 ^ 8 * 2 ^ 8

-- Ntohl, and Htonl likewise.
unfoldable pub ntohl : ℕ → ℕ
ntohl n =
    n % 2 ^ 8 * 2 ^ 24
    + n / 2 ^ 8 % 2 ^ 8 * 2 ^ 16
    + (n / 2 ^ 16 % 2 ^ 8 * 2 ^ 8 + n / 2 ^ 24 % 2 ^ 8)

pub record ArpHeader : Type 0 where
  pub hrd : ℕ
  pub pro : ℕ
  pub hln : ℕ
  pub pln : ℕ
  pub op : ℕ
  pub sha : List ℕ
  pub spa : ℕ
  pub tha : List ℕ
  pub tpa : ℕ

-- A device by its address; `ip_addr` is *(UINT32*)Dev->IpAddr.
pub record NetworkDevice : Type 0 where
  pub ptr : ℕ
  pub mac_addr : List ℕ
  pub ip_addr : ℕ

-- A buffer that is received: Buf->Len and what stands at Buf->Data.
pub record Received : Type 0 where
  pub buf : ℕ
  pub len : ℕ
  pub header : ArpHeader

-- EthernetOutput of a packet of the protocol, EthernetOutput of a buffer that waited, and NetworkFreeBuf.
pub data Effect : Type 0 where
  transmit : ℕ → List ℕ → ArpHeader → Effect
  forward : ℕ → ℕ → List ℕ → Effect
  free_buf : ℕ → Effect

abbrev pub mac_or : Option (List ℕ) → ℕ → List ℕ
mac_or none byte = replicate 6 byte
mac_or (some mac) byte = mac

-- The header that ArpOutput fills in. ARP_HRD_ETHERNET is 1, ARP_PRO_IP is 0x800.
unfoldable pub arp_header : NetworkDevice → ℕ → ℕ → Option (List ℕ) → ArpHeader
arp_header dev op target_ip target_mac = record {
  hrd = ntohs 1;
  pro = ntohs 0x800;
  hln = 6;
  pln = 4;
  op = ntohs op;
  sha = dev.mac_addr;
  spa = dev.ip_addr;
  tha = mac_or target_mac 0;
  tpa = target_ip;
}

abbrev pub is_success : Status → Bool
is_success success = true
is_success _ = false

-- ArpOutput with the buffer that NetworkAllocBuf answers. sizeof(ArpHeader) is 28.
abbrev pub output_in :
    Status → NetworkDevice → List ℕ → ArpHeader → ℕ → Option NetworkBuf → List Effect × Status
output_in sent dev dest header buf none = ([], no_memory)
output_in sent dev dest header buf (some b) =
    if is_success (put b 28).1
    then (transmit dev.ptr dest header ∷ [], sent)
    else (free_buf buf ∷ [], no_memory)

unfoldable pub arp_output :
    Allocation → Status → NetworkDevice → ℕ → ℕ → Option (List ℕ) → List Effect × Status
arp_output m sent dev op target_ip target_mac =
    if dev.ptr == 0
    then ([], no_object)
    else output_in sent dev (mac_or target_mac 0xff) (arp_header dev op target_ip target_mac)
        m.buf_ptr (alloc_buf m 28)

-- What ArpResolve answers, with what is copied to MacOut.
pub record Resolution : Type 0 where
  pub state : Arp
  pub effects : List Effect
  pub mac : Option (List ℕ)
  pub status : Status

abbrev pub resolved : List Effect × Status → Arp × Option (List ℕ) → Resolution
resolved request (s, some mac) = record {
  state = s;
  effects = [];
  mac = some mac;
  status = success;
}
resolved request (s, none) = record {
  state = s;
  effects = request.0;
  mac = none;
  status = if is_success request.1 then not_found else request.1;
}

unfoldable pub arp_resolve : Allocation → Status → Arp → ℕ → ℕ → NetworkDevice → ℕ → Resolution
arp_resolve m sent s now timeout dev ip =
    if dev.ptr == 0
    then record { state = s; effects = []; mac = none; status = incorrect_value }
    else resolved (arp_output m sent dev 1 ip none) (cache_lookup s now timeout (ntohl ip))

abbrev pub is_arp : ArpHeader → Bool
is_arp h = ntohs h.hrd == 1 && ntohs h.pro == 0x800 && (h.hln == 6 && h.pln == 4)

abbrev pub waits_for : ℕ → Waiting → Bool
waits_for ip w = w.valid && w.ip == ip

-- GPending[I].Valid = FALSE; GPending[I].Buf = NULLPTR;
abbrev pub vacated : Waiting → Waiting
vacated w = record w { valid = false; buf = 0 }

-- The loop that collects the packets for the sender, and the one that sends them. There are no more
-- entries than places in the local arrays.
unfoldable pub flush : ℕ → List ℕ → List Waiting → List Waiting × List Effect
flush ip mac [] = ([], [])
flush ip mac (w ∷ ws) =
    let rest = flush ip mac ws in
    if waits_for ip w
    then (vacated w ∷ rest.0, if not (w.buf == 0) then forward w.buf w.dev mac ∷ rest.1 else rest.1)
    else (w ∷ rest.0, rest.1)

-- ArpInput of a packet that passes the checks, up to the release of its buffer.
unfoldable pub handle :
    Allocation → Status → Arp → ℕ → NetworkDevice → ArpHeader → Arp × List Effect
handle m sent s now dev h =
    let known = if not (h.spa == 0) then cache_add s now h.spa (some h.sha) else s in
    let flushed = flush h.spa h.sha known.pending in
    if ntohs h.op == 1
    then (
      known,
      if h.tpa == ntohl dev.ip_addr
          then (arp_output m sent dev 2 (ntohl h.spa) (some h.sha)).0
          else [],
    )
    else if ntohs h.op == 2
    then (record known { pending = flushed.0 }, flushed.1)
    else (known, [])

abbrev pub and_free : ℕ → Arp × List Effect → Arp × List Effect
and_free buf r = (r.0, r.1 ++ (free_buf buf ∷ []))

unfoldable pub arp_input :
    Allocation → Status → Arp → ℕ → NetworkDevice → Received → Arp × List Effect
arp_input m sent s now dev r =
    if r.buf == 0 || dev.ptr == 0
    then (s, if not (r.buf == 0) then free_buf r.buf ∷ [] else [])
    else if ltb r.len 28
    then (s, free_buf r.buf ∷ [])
    else if not (is_arp r.header)
    then (s, free_buf r.buf ∷ [])
    else and_free r.buf (handle m sent s now dev r.header)

-- The loop of ArpTick.
unfoldable pub expire : ℕ → List Waiting → List Waiting × List Effect
expire now [] = ([], [])
expire now (w ∷ ws) =
    let rest = expire now ws in
    if w.valid && leb w.expires_at now
    then (vacated w ∷ rest.0, if not (w.buf == 0) then free_buf w.buf ∷ rest.1 else rest.1)
    else (w ∷ rest.0, rest.1)

unfoldable pub arp_tick : Arp → ℕ → ℕ → Arp × List Effect
arp_tick s now timeout =
    let purged = purge_expired s now timeout in
    let expired = expire now purged.pending in (record purged { pending = expired.0 }, expired.1)

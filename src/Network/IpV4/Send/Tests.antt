-- ===== src/Network/IpV4/Send/Tests.antt =====
-- A payload of eight bytes that is broadcast, and a device that gets it.
use k_os.Prelude.{
  ℕ, ◌≡◌, refl, sym, ap, subst, ◌∙◌, ◌⊎◌, inl, inr, true, false, Option, none, some, List, [], ◌∷◌,
  ◌++◌, arith, true≢false, replicate,
}
use k_os.Network.Buf.{Allocation, NetworkBuf, success}
use k_os.Network.Arp.{Arp, zero_waiting}
use k_os.Network.Arp.Input.{ntohl}
use k_os.Network.IpV4.{ip_checksum, sum_loop, fold_loop}
use k_os.Network.IpV4.Address.{is_broadcast}
use k_os.Network.IpV4.Routes.{IpV4Route, route_lookup, lookup_loop}
use k_os.Network.IpV4.Header.{header_of, bytes_at, write_bytes}
use k_os.Network.IpV4.Receive.{Receiver, handled, is_for, ip_input}
use k_os.Network.IpV4.Receive.Datagram.{HasMemory, IsDatagram, Judged, IsFreed, one_more_error}
use k_os.Network.IpV4.Receive.Verdict.{ip_input_lem}
use k_os.Network.IpV4.Send.{
  IpV4, Surroundings, Interface, framed, ip_output, send_over, send_datagram, send_frame,
}
use k_os.Network.IpV4.Send.Datagrams.{IsReceived}
use k_os.Network.IpV4.Send.Outcome.{
  IsSurroundings, IsStuck, IsBlocked, GoesOn, GivenBack, ip_output_lem,
}
use k_os.Network.IpV4.Send.RoundTrip.{IsUnderWay, ip_input-ip_output}

abbrev eight_bytes : NetworkBuf
eight_bytes = record {
  head = 1000;
  data_ptr = 1020;
  tail = 1028;
  end = 1028;
  len = 8;
  head_room = 20;
  true_size = 28;
  protocol = 0;
  ip_src = 0;
  ip_dst = 0;
  flags = 0;
  ref_count = 1;
  bytes = replicate 20 0 ++ (1 ∷ 2 ∷ 3 ∷ 4 ∷ 5 ∷ 6 ∷ 7 ∷ 8 ∷ []);
}

eight_bytes-HasMemory : HasMemory eight_bytes
eight_bytes-HasMemory = record {
  valid = record {
    order = (omega arith, omega arith, omega arith);
    len = omega arith;
    head_room = omega arith;
    true_size = omega arith;
    small = omega arith;
  };
  bytes = ground arith;
  size = refl;
}

abbrev card : ℕ → Interface
card n = record {
  dev = record { ptr = n; mac_addr = replicate 6 2; ip_addr = 0x0f02000a };
  mtu = 1500;
  is_loopback_type = false;
}

abbrev one_card : Surroundings
one_card = record {
  device = card;
  memory = record { buf_ptr = 5000; head_ptr = 6000; garbage = replicate 156 0 };
  request_sent = success;
  frame_sent = success;
  now = 100;
  cache_timeout = 1000;
  request_timeout = 10;
}

one_card-IsSurroundings : IsSurroundings one_card
one_card-IsSurroundings = record {
  ptr = λ n. refl;
  mtu = λ n. omega arith;
  ip_addr = λ n. omega arith;
}

abbrev everywhere : IpV4Route
everywhere = record { dest = 0; netmask = 0; gateway = 0; src = 0; dev = 0x5000; metric = 100 }

abbrev up : IpV4
up = record {
  routes = everywhere ∷ [];
  id_counter = 0;
  protocols = replicate 256 0;
  initialized = true;
}

abbrev no_cache : Arp
no_cache = record { cache = []; pending = zero_waiting ∷ [] }

abbrev handlers : List ℕ
handlers = replicate 17 0 ++ (0x7000 ∷ [])

abbrev listener : Receiver
listener = record { ip_addr = 0; rx_errors = 0; rx_dropped = 0 }

everywhere_found : route_lookup up.routes 0xffffffff ≡ some everywhere
unfolding route_lookup lookup_loop
everywhere_found = refl

-- The header: 28 bytes of protocol 17 to everyone.
first_bytes :
    (ip_output one_card up no_cache 900 eight_bytes 0xffffffff 0 17).fate
    ≡ framed
        (record eight_bytes {
          data_ptr = 1000;
          head_room = 0;
          len = 28;
          bytes =
              0x45 ∷ 0 ∷ 0 ∷ 28 ∷ 0 ∷ 1 ∷ 0 ∷ 0 ∷ 64 ∷ 17 ∷ 0x7a ∷ 0xd1 ∷ 0 ∷ 0 ∷ 0 ∷ 0 ∷ 0xff
              ∷ 0xff ∷ 0xff ∷ 0xff ∷ 1 ∷ 2 ∷ 3 ∷ 4 ∷ 5 ∷ 6 ∷ 7 ∷ 8 ∷ [];
        })
        (replicate 6 0xff)
unfolding ip_output send_over send_datagram send_frame lookup_loop is_broadcast
    k_os.Network.Buf.reserve ip_checksum sum_loop fold_loop bytes_at write_bytes
first_bytes = refl

abbrev route_or : Option IpV4Route → IpV4Route
route_or none = everywhere
route_or (some r) = r

everywhere_serves : ¬ IsStuck one_card no_cache eight_bytes 0xffffffff 0x0a00020f everywhere
everywhere_serves (inl no_dev) = absurd (omega arith)
everywhere_serves (inr (inl small)) = absurd (omega arith)
everywhere_serves (inr (inr (inl cramped))) = absurd (omega arith)
everywhere_serves (inr (inr (inr (inl (src, _, _))))) = absurd (omega arith)
everywhere_serves (inr (inr (inr (inr full)))) = true≢false (sym full.0)

not-IsBlocked : ¬ IsBlocked one_card up no_cache eight_bytes 0xffffffff 0x0a00020f
not-IsBlocked (inl unreachable) = cc (sym everywhere_found ∙ unreachable)
not-IsBlocked (inr (r, found, stuck)) =
    let same : r ≡ everywhere = ap route_or (sym found ∙ everywhere_found) in
    everywhere_serves
      (subst (IsStuck one_card no_cache eight_bytes 0xffffffff 0x0a00020f) same stuck)

listener_takes : is_for listener 0xffffffff ≡ true
unfolding ntohl
listener_takes = refl

ip_input-ip_output_example :
    (q : NetworkBuf) × (p : NetworkBuf) × IsUnderWay
      (ip_output one_card up no_cache 900 eight_bytes 0xffffffff 0x0a00020f 17).fate
      q
    × (ip_input handlers q listener
        ≡ (listener, handled 0x7000 p (header_of q).src_addr 0xffffffff))
    × IsReceived eight_bytes p
ip_input-ip_output_example =
    ip_input-ip_output one_card up no_cache 900 eight_bytes 0xffffffff 0x0a00020f 17 handlers
      listener one_card-IsSurroundings (omega arith) eight_bytes-HasMemory (omega arith)
      (omega arith) (omega arith) not-IsBlocked listener_takes (omega arith)

ip_output_example :
    GoesOn one_card eight_bytes 0xffffffff 17
      (ip_output one_card up no_cache 900 eight_bytes 0xffffffff 0x0a00020f 17)
    ⊎ (GivenBack eight_bytes
          (ip_output one_card up no_cache 900 eight_bytes 0xffffffff 0x0a00020f 17)
        × IsBlocked one_card up no_cache eight_bytes 0xffffffff 0x0a00020f)
ip_output_example =
    ip_output_lem one_card up no_cache 900 eight_bytes 0xffffffff 0x0a00020f 17
      one_card-IsSurroundings (omega arith) eight_bytes-HasMemory (omega arith) (omega arith)
      (omega arith)

-- The packet of the first test, as it arrives.
abbrev arrived : NetworkBuf
arrived = record eight_bytes {
  data_ptr = 1000;
  head_room = 0;
  len = 28;
  bytes =
      0x45 ∷ 0 ∷ 0 ∷ 28 ∷ 0 ∷ 1 ∷ 0 ∷ 0 ∷ 64 ∷ 17 ∷ 0x7a ∷ 0xd1 ∷ 0 ∷ 0 ∷ 0 ∷ 0 ∷ 0xff ∷ 0xff ∷ 0xff
      ∷ 0xff ∷ 1 ∷ 2 ∷ 3 ∷ 4 ∷ 5 ∷ 6 ∷ 7 ∷ 8 ∷ [];
}

arrived-HasMemory : HasMemory arrived
arrived-HasMemory = record {
  valid = record {
    order = (omega arith, omega arith, omega arith);
    len = omega arith;
    head_room = omega arith;
    true_size = omega arith;
    small = omega arith;
  };
  bytes = ground arith;
  size = refl;
}

ip_input_example :
    (IsDatagram arrived × Judged handlers arrived listener (ip_input handlers arrived listener))
    ⊎ ((¬ IsDatagram arrived)
        × IsFreed arrived (one_more_error listener) (ip_input handlers arrived listener))
ip_input_example = ip_input_lem handlers arrived listener arrived-HasMemory

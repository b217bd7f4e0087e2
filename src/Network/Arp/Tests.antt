-- ===== src/Network/Arp/Tests.antt =====
-- A cache of two entries, one of them old, and two packets that wait for 10.0.2.2.
use k_os.Prelude.{
  ℕ, suc, ◌+◌, ◌≡◌, refl, sym, ◌≢◌, ◌⊎◌, true, none, some, List, [], ◌∷◌, arith, true≢false,
  replicate, All, All-replicate,
}
use k_os.Network.Buf.{Allocation, success, no_memory, not_found}
use k_os.Network.Arp.{Arp, zero_entry, zero_waiting, cache_add, queue_packet, added}
use k_os.Network.Arp.Input.{
  transmit, free_buf, arp_input, arp_tick, arp_resolve, Received, NetworkDevice, ArpHeader,
  arp_header, is_arp, ntohs, ntohl,
}
use k_os.Network.Arp.View.{view, IsUnique, IsUnique-zeros}
use k_os.Network.Arp.Cache.{IsCache, Kept, cache_add_lem}
use k_os.Network.Arp.Flush.{held, count, is_forward, is_free, packets_accounted}
use k_os.Network.Arp.Exchange.{
  IsPacket, HasBuf, waiting_for, arp_input-request, arp_resolve-arp_input,
}

abbrev mac_a : List ℕ
mac_a = 2 ∷ 0 ∷ 0 ∷ 0 ∷ 0 ∷ 10 ∷ []

abbrev mac_b : List ℕ
mac_b = 2 ∷ 0 ∷ 0 ∷ 0 ∷ 0 ∷ 11 ∷ []

-- 10.0.2.2 and 10.0.2.15, as they are loaded from a packet.
abbrev gateway : ℕ
gateway = 0x0202000a

abbrev host : ℕ
host = 0x0f02000a

abbrev two_known : Arp
two_known = record {
  cache = added 1000 host mac_a ∷ added 400000 0x0302000a mac_b ∷ replicate 30 zero_entry;
  pending =
      (record { ip = gateway; dev = 0x5000; buf = 0x7000; expires_at = 401000; valid = true })
      ∷ zero_waiting
      ∷ (record { ip = gateway; dev = 0x5000; buf = 0x7100; expires_at = 402000; valid = true })
      ∷ replicate 5 zero_waiting;
}

two_known-IsCache : IsCache two_known.cache
unfolding IsUnique view
two_known-IsCache = record { size = refl; unique = (λ _. refl, (λ _. refl, IsUnique-zeros 30)) }

cache_add_example :
    IsCache (cache_add two_known 401000 gateway (some mac_b)).cache
    × (view (cache_add two_known 401000 gateway (some mac_b)).cache gateway
        ≡ some (added 401000 gateway mac_b))
    × Kept two_known.cache (cache_add two_known 401000 gateway (some mac_b)).cache host
cache_add_example =
    cache_add_lem two_known 401000 gateway mac_b host two_known-IsCache (λ e. omega arith)

abbrev card : NetworkDevice
card = record { ptr = 0x5000; mac_addr = mac_a; ip_addr = host }

abbrev memory : Allocation
memory = record { buf_ptr = 0x9000; head_ptr = 0xa000; garbage = replicate 156 0xcc }

-- A reply of the gateway.
abbrev reply : Received
reply = record {
  buf = 0x8000;
  len = 46;
  header = record {
    hrd = 0x100;
    pro = 8;
    hln = 6;
    pln = 4;
    op = 0x200;
    sha = mac_b;
    spa = gateway;
    tha = mac_a;
    tpa = host;
  };
}

reply-IsPacket : IsPacket card reply
reply-IsPacket = record {
  some_buf = λ e. omega arith;
  some_dev = λ e. omega arith;
  long = omega arith;
  well_formed = refl;
  some_sender = λ e. omega arith;
}

two_known-HasBuf : All HasBuf two_known.pending
two_known-HasBuf = (
  λ v e. omega arith,
  (
    λ v. absurd (true≢false (sym v)),
    (λ v e. omega arith, All-replicate HasBuf 5 zero_waiting (λ v. absurd (true≢false (sym v)))),
  ),
)

packets_example :
    ((queue_packet two_known 400500 1000 0x5000 gateway 0x7100 ≡ (two_known, no_memory))
      ⊎ (((queue_packet two_known 400500 1000 0x5000 gateway 0x7100).1 ≡ success)
          × (held 0x7100 (queue_packet two_known 400500 1000 0x5000 gateway 0x7100).0.pending
              ≡ suc (held 0x7100 two_known.pending))))
    × (held 0x7100 (arp_input memory success two_known 400500 card reply).0.pending
          + count (is_forward 0x7100) (arp_input memory success two_known 400500 card reply).1
        ≡ held 0x7100 two_known.pending)
    × (held 0x7100 (arp_tick two_known 400500 1000).0.pending
          + count (is_free 0x7100) (arp_tick two_known 400500 1000).1
        ≡ held 0x7100 two_known.pending)
packets_example =
    packets_accounted memory success two_known 400500 1000 0x7100 card reply 0x5000 gateway
      (λ e. omega arith) (λ e. omega arith)

two_packets :
    waiting_for gateway two_known.pending
    ≡ (record { ip = gateway; dev = 0x5000; buf = 0x7000; expires_at = 401000; valid = true })
      ∷ (record { ip = gateway; dev = 0x5000; buf = 0x7100; expires_at = 402000; valid = true })
      ∷ []
unfolding waiting_for
two_packets = refl

arp_resolve_example :
    ((arp_resolve memory success
        (arp_input memory success two_known 400500 card reply).0
        400600
        300000
        card
        gateway).status
      ≡ not_found)
    × ((arp_resolve memory success
          (arp_input memory success two_known 400500 card reply).0
          400600
          300000
          card
          gateway).effects
        ≡ transmit 0x5000 (replicate 6 0xff) (arp_header card 1 gateway none) ∷ [])
unfolding view ntohl
arp_resolve_example =
    arp_resolve-arp_input memory two_known 400500 400600 300000 card reply reply-IsPacket
      (λ e. omega arith, λ e. omega arith) refl two_known-HasBuf two_known-IsCache swapped unseen
  where
    swapped : gateway ≢ ntohl gateway
    swapped e = omega arith

    unseen : view two_known.cache (ntohl gateway) ≡ none
    unseen = refl

-- A request for the address of the card, whose bytes stand in the order that ArpInput compares with.
abbrev request : Received
request = record {
  buf = 0x8000;
  len = 46;
  header = record {
    hrd = 0x100;
    pro = 8;
    hln = 6;
    pln = 4;
    op = 0x100;
    sha = mac_b;
    spa = gateway;
    tha = replicate 6 0;
    tpa = 0x0a00020f;
  };
}

request-IsPacket : IsPacket card request
request-IsPacket = record {
  some_buf = λ e. omega arith;
  some_dev = λ e. omega arith;
  long = omega arith;
  well_formed = refl;
  some_sender = λ e. omega arith;
}

arp_input-request_example :
    (answer : ArpHeader) × ((arp_input memory success two_known 400500 card request).1
      ≡ transmit 0x5000 mac_b answer ∷ free_buf 0x8000 ∷ [])
    × is_arp answer ≡ true
    × ntohs answer.op ≡ 2
    × answer.sha ≡ mac_a
    × answer.tha ≡ mac_b
    × answer.spa ≡ ntohl 0x0a00020f
    × answer.tpa ≡ ntohl gateway
unfolding ntohl
arp_input-request_example =
    arp_input-request memory success two_known 400500 card request request-IsPacket
      (λ e. omega arith, λ e. omega arith) (omega arith) refl mine
  where
    mine : 0x0a00020f ≡ ntohl host
    mine = refl

-- ===== src/Network/IpV4/Send/RoundTrip.antt =====
-- A packet that IpV4Output sends and IpV4Input gets.
use k_os.Prelude.{ℕ, ◌^◌, ◌<◌, ◌≡◌, ◌≢◌, ◌⊎◌, inl, inr, true, List, get_or}
use k_os.Network.Buf.{NetworkBuf}
use k_os.Network.Arp.{Arp}
use k_os.Network.IpV4.Header.{header_of}
use k_os.Network.IpV4.Receive.{Receiver, handled, is_for, ip_input}
use k_os.Network.IpV4.Receive.Datagram.{HasMemory}
use k_os.Network.IpV4.Send.{IpV4, Surroundings, Fate, queued, framed, ip_output}
use k_os.Network.IpV4.Send.Datagrams.{IsReceived, ip_input-IsBuilt}
use k_os.Network.IpV4.Send.Outcome.{IsSurroundings, IsBlocked, ip_output_lem}

-- The buffer has gone to EthernetOutput, or waits in the queue.
abbrev pub IsUnderWay : Fate → NetworkBuf → Type 0
IsUnderWay fate q = ((mac : List ℕ) × (fate ≡ framed q mac)) ⊎ (fate ≡ queued q)

-- A payload that IpV4Output is not kept from sending is sent as a datagram of which IpV4Input, on a device
-- that takes the destination and has a handler for the protocol, hands the handler the same window with the
-- same bytes.
pub ip_input-ip_output :
    (w : Surroundings) (s : IpV4) (arp : Arp) (ptr : ℕ) (b : NetworkBuf) (dest src protocol : ℕ)
    (protocols : List ℕ) (d : Receiver)
    → IsSurroundings w
    → ptr ≢ 0
    → HasMemory b
    → dest < 2 ^ 32
    → src < 2 ^ 32
    → protocol < 2 ^ 8
    → ¬ IsBlocked w s arp b dest src
    → is_for d dest ≡ true
    → get_or protocols protocol 0 ≢ 0
    → (q : NetworkBuf) × (p : NetworkBuf) × IsUnderWay
        (ip_output w s arp ptr b dest src protocol).fate
        q
      × (ip_input protocols q d
          ≡ (d, handled (get_or protocols protocol 0) p (header_of q).src_addr dest))
      × IsReceived b p
ip_input-ip_output w s arp ptr b dest src protocol protocols d k some_buf v ld ls lp free for_us
      some_handler =
    elim (ip_output_lem w s arp ptr b dest src protocol k some_buf v ld ls lp) [
      | inr (_, blocked) ↦ absurd (free blocked)
      | inl (q, g, inl (mac, fate, _)) ↦
          let (p, e, same) =
            ip_input-IsBuilt protocols b q d dest protocol v.valid g for_us some_handler in
          (q, p, inl (mac, fate), e, same)
      | inl (q, g, inr (fate, _)) ↦
          let (p, e, same) =
            ip_input-IsBuilt protocols b q d dest protocol v.valid g for_us some_handler in
          (q, p, inr fate, e, same)
    ]

-- ===== src/Network/IpV4/Send/Unresolved.antt =====
-- ArpResolve and ArpQueuePacket, as IpV4Output meets them.
use k_os.Prelude.{
  ℕ, ◌+◌, ◌%◌, ◌^◌, ◌≡◌, refl, sym, ap, ◌∙◌, ◌≢◌, ◌⊎◌, inl, inr, Bool, true, false, ◌&&◌, Option,
  none, some, List, [], ◌∷◌, arith, ne→==, true≢false, Bool-cases, Option-cases, All,
}
use k_os.Network.Buf.{Allocation, Status, success, not_found}
use k_os.Network.Arp.{Arp, Waiting, queue_packet, queue_loop, cache_lookup, purge_expired}
use k_os.Network.Arp.Input.{
  NetworkDevice, Effect, Resolution, resolved, ntohl, is_success, arp_resolve, arp_output,
}

abbrev pub AllTaken : List Waiting → Type 0
AllTaken = All (λ x. x.valid ≡ true)

pub not_success : (code : Status) → is_success code ≡ false → code ≢ success
not_success code h e = true≢false (sym (ap is_success e) ∙ h)

pub both : (a c : Bool) → (a && c) ≡ true → (a ≡ true) × (c ≡ true)
both true c h = (refl, h)
both false c h = ground arith

queue_loop-full : (ws : List Waiting) (x : Waiting) → queue_loop ws x ≡ none → AllTaken ws
unfolding queue_loop
queue_loop-full [] x h = tt
queue_loop-full (y ∷ ws) x h = elim (Bool-cases y.valid) [
  | inr free ↦ ground arith
  | inl taken ↦ elim (Option-cases (queue_loop ws x)) [
    | inl full ↦ (taken, queue_loop-full ws x full)
    | inr (p, found) ↦ ground arith
  ]
]

-- A queue that does not take the packet is full.
pub queue_packet-full :
    (s : Arp) (now timeout dev ip buf : ℕ)
    → dev ≢ 0
    → buf ≢ 0
    → ((queue_packet s now timeout dev ip buf).1 ≡ success) ⊎ AllTaken s.pending
unfolding queue_packet
queue_packet-full s now timeout dev ip buf nd nb =
    let x : Waiting = record {
      ip = ip;
      dev = dev;
      buf = buf;
      expires_at = (now + timeout) % 2 ^ 64;
      valid = true;
    } in
    elim (Option-cases (queue_loop s.pending x)) [
      | inl full ↦ inr (queue_loop-full s.pending x full)
      | inr (p, found) ↦ inl (rw (ne→== dev 0 nd, ne→== buf 0 nb, found) refl)
    ]

-- ArpResolve has a MAC, or it fails and the queue is as it was.
abbrev pub IsAnswer : Arp → Resolution → Type 0
IsAnswer arp r =
    ((mac : List ℕ) × (r.mac ≡ some mac))
    ⊎ ((r.mac ≡ none) × (r.status ≢ success) × (r.state.pending ≡ arp.pending))

resolved-IsAnswer :
    (arp s : Arp) (request : List Effect × Status) (o : Option (List ℕ))
    → s.pending ≡ arp.pending
    → IsAnswer arp (resolved request (s, o))
resolved-IsAnswer arp s request none same = inr (
  refl,
  elim (Bool-cases (is_success request.1)) [
    | inl y ↦ rw y (not_success not_found refl)
    | inr n ↦ rw n (not_success request.1 n)
  ],
  same,
)
resolved-IsAnswer arp s request (some mac) same = inl (mac, refl)

pub arp_resolve-IsAnswer :
    (m : Allocation) (sent : Status) (arp : Arp) (now timeout : ℕ) (dev : NetworkDevice) (ip : ℕ)
    → dev.ptr ≢ 0
    → IsAnswer arp (arp_resolve m sent arp now timeout dev ip)
unfolding arp_resolve cache_lookup purge_expired
arp_resolve-IsAnswer m sent arp now timeout dev ip nz = rw (ne→== dev.ptr 0 nz) (
    resolved-IsAnswer arp (cache_lookup arp now timeout (ntohl ip)).0
      (arp_output m sent dev 1 ip none) (cache_lookup arp now timeout (ntohl ip)).1 refl)

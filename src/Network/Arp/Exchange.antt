-- ===== src/Network/Arp/Exchange.antt =====
-- Requests and replies: what ArpInput does with each, and the byte order of the addresses.
use k_os.Prelude.{
  ℕ, ◌+◌, ◌^◌, ◌≤◌, ◌<◌, ◌≡◌, refl, sym, ap, subst, ◌∙◌, ◌≢◌, inl, inr, true, false, Option, none,
  some, List, [], ◌∷◌, ◌++◌, map, arith, ltb, ◌==◌, if◌then◌else◌, le→ltb, ne→==, ==_refl,
  Bool-cases, replicate, All,
}
use k_os.Network.Buf.{Allocation, Status, success, not_found, alloc_buf, put}
use k_os.Network.Arp.{Arp, Waiting, cache_add, cache_lookup, is_expired}
use k_os.Network.Arp.Input.{
  Effect, transmit, forward, free_buf, waits_for, vacated, flush, handle, arp_input, arp_output,
  Received, NetworkDevice, ArpHeader, and_free, is_arp, ntohs, ntohl, arp_header, arp_resolve,
  mac_or,
}
use k_os.Network.Arp.Flush.{&&-left}
use k_os.Network.Arp.View.{view}
use k_os.Network.Arp.Cache.{IsCache, cache_add_lem, cache_lookup-view, without, mac_of}

-- A packet that passes the checks of ArpInput on a device.
pub record IsPacket (dev : NetworkDevice) (r : Received) : Type 0 where
  pub some_buf : r.buf ≢ 0
  pub some_dev : dev.ptr ≢ 0
  pub long : 28 ≤ r.len
  pub well_formed : is_arp r.header ≡ true
  pub some_sender : r.header.spa ≢ 0

-- Two buffers can be allocated.
abbrev pub HasRoom : Allocation → Type 0
HasRoom m = (m.buf_ptr ≢ 0) × (m.head_ptr ≢ 0)

abbrev pub HasBuf : Waiting → Type 0
HasBuf w = w.valid ≡ true → w.buf ≢ 0

-- The packets for the address, in the order of the slots.
unfoldable pub waiting_for : ℕ → List Waiting → List Waiting
waiting_for ip [] = []
waiting_for ip (w ∷ ws) = let rest = waiting_for ip ws in if waits_for ip w then w ∷ rest else rest

abbrev pub forwarded : List ℕ → Waiting → Effect
forwarded mac w = forward w.buf w.dev mac

abbrev pub leave : ℕ → Waiting → Waiting
leave ip w = if waits_for ip w then vacated w else w

flush_lem :
    (ip : ℕ) (mac : List ℕ) (ws : List Waiting)
    → All HasBuf ws
    → flush ip mac ws ≡ (map (leave ip) ws, map (forwarded mac) (waiting_for ip ws))
unfolding flush waiting_for
flush_lem ip mac [] h = refl
flush_lem ip mac (w ∷ ws) h =
    let ih = flush_lem ip mac ws h.1 in
    elim (Bool-cases (waits_for ip w)) [
      | inr n ↦ simp (n, ih) refl
      | inl y ↦
          let valid = &&-left w.valid (w.ip == ip) y in
          let some_buf = ne→== w.buf 0 (h.0 valid) in simp (y, ih, some_buf) refl
    ]

waiting_for-leave : (ip : ℕ) (ws : List Waiting) → waiting_for ip (map (leave ip) ws) ≡ []
unfolding waiting_for
waiting_for-leave ip [] = refl
waiting_for-leave ip (w ∷ ws) = elim (Bool-cases (waits_for ip w)) [
  | inl y ↦ simp (y, waiting_for-leave ip ws) refl
  | inr n ↦ simp (n, waiting_for-leave ip ws) refl
]

passes :
    (m : Allocation) (sent : Status) (s : Arp) (now : ℕ) (dev : NetworkDevice) (r : Received)
    → IsPacket dev r
    → arp_input m sent s now dev r ≡ and_free r.buf (handle m sent s now dev r.header)
unfolding arp_input
passes m sent s now dev r v =
    simp
      (ne→== r.buf 0 v.some_buf, ne→== dev.ptr 0 v.some_dev, le→ltb r.len 28 v.long, v.well_formed)
      refl

-- ArpInput of a reply caches the sender and sends every packet that waits for it to its MAC, in the order
-- of the slots, and leaves none that waits for it.
pub arp_input-reply :
    (m : Allocation) (sent : Status) (s : Arp) (now : ℕ) (dev : NetworkDevice) (r : Received)
    → IsPacket dev r
    → ntohs r.header.op ≡ 2
    → All HasBuf s.pending
    → ((arp_input m sent s now dev r).0.cache
        ≡ (cache_add s now r.header.spa (some r.header.sha)).cache)
      × ((arp_input m sent s now dev r).1
          ≡ map (forwarded r.header.sha) (waiting_for r.header.spa s.pending)
            ++ (free_buf r.buf ∷ []))
      × (waiting_for r.header.spa (arp_input m sent s now dev r).0.pending ≡ [])
unfolding handle cache_add
arp_input-reply m sent s now dev r v reply held =
    let no_request : (ntohs r.header.op == 1) ≡ false = rw reply refl in
    let is_reply : (ntohs r.header.op == 2) ≡ true = rw reply refl in
    let known = ne→== r.header.spa 0 v.some_sender in
    let flushed = flush_lem r.header.spa r.header.sha s.pending held in
    rw (passes m sent s now dev r v) (
      rw (no_request, is_reply, known) refl,
      rw (no_request, is_reply, known, flushed) refl,
      rw (no_request, is_reply, known, flushed) (waiting_for-leave r.header.spa s.pending),
    )

ntohl_twice : (n : ℕ) → n < 2 ^ 32 → ntohl (ntohl n) ≡ n
unfolding ntohl
ntohl_twice n lt = omega arith

arp_output_lem :
    (m : Allocation) (sent : Status) (dev : NetworkDevice) (op ip : ℕ) (mac : Option (List ℕ))
    → HasRoom m
    → dev.ptr ≢ 0
    → arp_output m sent dev op ip mac
      ≡ (transmit dev.ptr (mac_or mac 0xff) (arp_header dev op ip mac) ∷ [], sent)
unfolding arp_output alloc_buf put
arp_output_lem m sent dev op ip mac room some_dev =
    let fits : ltb (m.head_ptr + 156) (m.head_ptr + 128 + 28) ≡ false = le→ltb _ _ (omega arith) in
    simp (ne→== dev.ptr 0 some_dev, ne→== m.buf_ptr 0 room.0, ne→== m.head_ptr 0 room.1, fits) refl

-- ArpInput of a request for the address that Ntohl makes of the device's answers with the device's MAC; the
-- addresses in the answer are those of the request in the opposite byte order.
pub arp_input-request :
    (m : Allocation) (sent : Status) (s : Arp) (now : ℕ) (dev : NetworkDevice) (r : Received)
    → IsPacket dev r
    → HasRoom m
    → dev.ip_addr < 2 ^ 32
    → ntohs r.header.op ≡ 1
    → r.header.tpa ≡ ntohl dev.ip_addr
    → (answer : ArpHeader) × ((arp_input m sent s now dev r).1
        ≡ transmit dev.ptr r.header.sha answer ∷ free_buf r.buf ∷ [])
      × is_arp answer ≡ true
      × ntohs answer.op ≡ 2
      × answer.sha ≡ dev.mac_addr
      × answer.tha ≡ r.header.sha
      × answer.spa ≡ ntohl r.header.tpa
      × answer.tpa ≡ ntohl r.header.spa
unfolding handle arp_header
arp_input-request m sent s now dev r v room small request mine =
    let is_request : (ntohs r.header.op == 1) ≡ true = rw request refl in
    let same : (r.header.tpa == ntohl dev.ip_addr) ≡ true = rw mine (==_refl (ntohl dev.ip_addr)) in
    (
      arp_header dev 2 (ntohl r.header.spa) (some r.header.sha),
      rw (passes m sent s now dev r v) (
          rw
            (
              is_request,
              same,
              arp_output_lem m sent dev 2 (ntohl r.header.spa) (some r.header.sha) room v.some_dev,
            )
            refl),
      refl,
      refl,
      refl,
      refl,
      rw mine (sym (ntohl_twice dev.ip_addr small)),
      refl,
    )

unseen-resolve :
    (m : Allocation) (s : Arp) (now timeout : ℕ) (dev : NetworkDevice) (ip : ℕ)
    → IsCache s.cache
    → view s.cache (ntohl ip) ≡ none
    → HasRoom m
    → dev.ptr ≢ 0
    → ((arp_resolve m success s now timeout dev ip).status ≡ not_found)
      × ((arp_resolve m success s now timeout dev ip).effects
          ≡ transmit dev.ptr (replicate 6 0xff) (arp_header dev 1 ip none) ∷ [])
unfolding arp_resolve
unseen-resolve m s now timeout dev ip v unseen room some_dev =
    let (_, _, answer) = cache_lookup-view s now timeout (ntohl ip) (ntohl ip) v in
    let absent : (cache_lookup s now timeout (ntohl ip)).1 ≡ none =
      answer ∙ ap (λ o. mac_of (without (is_expired now timeout) o)) unseen in
    let request = arp_output_lem m success dev 1 ip none room some_dev in
    (
      rw (ne→== dev.ptr 0 some_dev, absent, request) refl,
      rw (ne→== dev.ptr 0 some_dev, absent, request) refl,
    )

-- After a reply from an address, ArpResolve of the same address still answers NOT_FOUND and sends another
-- request, where Ntohl changes the address and the cache has no entry of the changed one.
pub arp_resolve-arp_input :
    (m : Allocation) (s : Arp) (now later timeout : ℕ) (dev : NetworkDevice) (r : Received)
    → IsPacket dev r
    → HasRoom m
    → ntohs r.header.op ≡ 2
    → All HasBuf s.pending
    → IsCache s.cache
    → r.header.spa ≢ ntohl r.header.spa
    → view s.cache (ntohl r.header.spa) ≡ none
    → ((arp_resolve m success
          (arp_input m success s now dev r).0
          later
          timeout
          dev
          r.header.spa).status
        ≡ not_found)
      × ((arp_resolve m success
            (arp_input m success s now dev r).0
            later
            timeout
            dev
            r.header.spa).effects
          ≡ transmit dev.ptr (replicate 6 0xff) (arp_header dev 1 r.header.spa none) ∷ [])
arp_resolve-arp_input m s now later timeout dev r v room reply held c swapped unseen =
    let (same, _, _) = arp_input-reply m success s now dev r v reply held in
    let (kept, _, other) =
      cache_add_lem s now r.header.spa r.header.sha (ntohl r.header.spa) c swapped in
    let still : view (cache_add s now r.header.spa (some r.header.sha)).cache (ntohl r.header.spa)
        ≡ none =
      elim other [ inl e ↦ e ∙ unseen | inr (gone, _) ↦ gone ] in
    unseen-resolve m (arp_input m success s now dev r).0 later timeout dev r.header.spa
      (subst IsCache (sym same) kept)
      (subst (λ k. view k (ntohl r.header.spa) ≡ none) (sym same) still) room v.some_dev

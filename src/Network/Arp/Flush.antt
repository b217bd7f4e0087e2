-- ===== src/Network/Arp/Flush.antt =====
-- The packets that wait: which leave at a reply and at a tick, and that none is lost or sent twice.
use k_os.Prelude.{
  ℕ, suc, ◌+◌, ◌%◌, ◌^◌, ◌≡◌, refl, sym, ap, ◌∙◌, ◌≢◌, ◌⊎◌, inl, inr, Bool, true, false, not, ◌&&◌,
  ◌||◌, Option, none, some, List, [], ◌∷◌, ◌++◌, arith, ltb, leb, ◌==◌, if◌then◌else◌, ==→eq, ne→==,
  ==_refl, Bool-cases, either-branch,
}
use k_os.Network.Buf.{Status, success, no_memory, Allocation, NetworkBuf, put, alloc_buf}
use k_os.Network.Arp.{Arp, Waiting, queue_loop, queue_packet, cache_add, purge_expired}
use k_os.Network.Arp.Input.{
  ntohs, ntohl, mac_or, arp_header, is_success, output_in, Effect, forward, free_buf, waits_for,
  flush, expire, arp_tick, handle, arp_input, arp_output, Received, NetworkDevice, ArpHeader,
  is_arp,
}

-- How many valid slots hold the buffer.
unfoldable pub held : ℕ → List Waiting → ℕ
held b [] = 0
held b (w ∷ ws) = let rest = held b ws in if w.valid && w.buf == b then suc rest else rest

abbrev pub is_forward : ℕ → Effect → Bool
is_forward b (forward buf dev mac) = buf == b
is_forward b _ = false

abbrev pub is_free : ℕ → Effect → Bool
is_free b (free_buf buf) = buf == b
is_free b _ = false

-- How many of the effects pass.
unfoldable pub count : (Effect → Bool) → List Effect → ℕ
count f [] = 0
count f (e ∷ es) = let rest = count f es in if f e then suc rest else rest

pub &&-left : (a b : Bool) → (a && b) ≡ true → a ≡ true
&&-left true b h = refl
&&-left false b h = h

flush-held :
    (ip : ℕ) (mac : List ℕ) (b : ℕ) (ws : List Waiting)
    → b ≢ 0
    → held b (flush ip mac ws).0 + count (is_forward b) (flush ip mac ws).1 ≡ held b ws
unfolding flush held count
flush-held ip mac b [] nz = omega arith
flush-held ip mac b (w ∷ ws) nz =
    let ih = flush-held ip mac b ws nz in
    elim (Bool-cases (waits_for ip w)) [
      | inl y ↦
          let valid = &&-left w.valid (w.ip == ip) y in
          elim (Bool-cases (w.buf == b)) [
            | inl same ↦
                let some_buf = ne→== w.buf 0 (λ e. nz (sym (==→eq _ _ same) ∙ e)) in
                rw (y, valid, some_buf) (rw same (omega (arith, ih)))
            | inr other ↦ elim (Bool-cases (w.buf == 0)) [
              | inl nothing ↦ rw (y, valid, other, nothing) ih
              | inr something ↦ rw (y, valid, something) (rw other ih)
            ]
          ]
      | inr n ↦ rw n (ground (arith, ih))
    ]

expire-held :
    (now b : ℕ) (ws : List Waiting)
    → b ≢ 0
    → held b (expire now ws).0 + count (is_free b) (expire now ws).1 ≡ held b ws
unfolding expire held count
expire-held now b [] nz = omega arith
expire-held now b (w ∷ ws) nz =
    let ih = expire-held now b ws nz in
    elim (Bool-cases (w.valid && leb w.expires_at now)) [
      | inl y ↦
          let valid = &&-left w.valid (leb w.expires_at now) y in
          elim (Bool-cases (w.buf == b)) [
            | inl same ↦
                let some_buf = ne→== w.buf 0 (λ e. nz (sym (==→eq _ _ same) ∙ e)) in
                rw (y, valid, some_buf) (rw same (omega (arith, ih)))
            | inr other ↦ elim (Bool-cases (w.buf == 0)) [
              | inl nothing ↦ rw (y, valid, other, nothing) ih
              | inr something ↦ rw (y, valid, something) (rw other ih)
            ]
          ]
      | inr n ↦ rw n (ground (arith, ih))
    ]

queue_loop-held :
    (b : ℕ) (ws : List Waiting) (x : Waiting)
    → x.valid ≡ true
    → (queue_loop ws x ≡ none)
      ⊎ ((p : List Waiting) × (queue_loop ws x ≡ some p)
          × (held b p ≡ held b ws + (if x.buf == b then 1 else 0)))
unfolding queue_loop held
queue_loop-held b [] x h = inl refl
queue_loop-held b (w ∷ ws) x h = elim (Bool-cases w.valid) [
  | inr free ↦ inr (x ∷ ws, rw free refl, rw (free, h) (ground arith))
  | inl taken ↦ elim (queue_loop-held b ws x h) [
    | inl full ↦ inl (simp (taken, full) refl)
    | inr (p, found, grown) ↦ inr (w ∷ p, simp (taken, found) refl, ground (arith, grown))
  ]
]

queue_packet-held :
    (s : Arp) (now timeout to ip b : ℕ)
    → b ≢ 0
    → to ≢ 0
    → (queue_packet s now timeout to ip b ≡ (s, no_memory))
      ⊎ (((queue_packet s now timeout to ip b).1 ≡ success)
          × (held b (queue_packet s now timeout to ip b).0.pending ≡ suc (held b s.pending)))
unfolding queue_packet
queue_packet-held s now timeout to ip b nz some_dev =
    let x : Waiting = record {
      ip = ip;
      dev = to;
      buf = b;
      expires_at = (now + timeout) % 2 ^ 64;
      valid = true;
    } in
    elim (queue_loop-held b s.pending x refl) [
      | inl full ↦ inl (rw (ne→== to 0 some_dev, ne→== b 0 nz, full) refl)
      | inr (p, found, grown) ↦ inr (
        rw (ne→== to 0 some_dev, ne→== b 0 nz, found) refl,
        rw (ne→== to 0 some_dev, ne→== b 0 nz, found) (grown ∙ rw (==_refl b) (omega arith)),
      )
    ]

count-append :
    (f : Effect → Bool) (xs ys : List Effect) → count f (xs ++ ys) ≡ count f xs + count f ys
unfolding count
count-append f [] ys = omega arith
count-append f (x ∷ xs) ys = ground (arith, count-append f xs ys)

-- Nothing is lost between a state and what comes of it.
abbrev Conserved : ℕ → Arp → Arp × List Effect → Type 0
Conserved b s r = held b r.0.pending + count (is_forward b) r.1 ≡ held b s.pending

cache_add-pending :
    (s : Arp) (now ip : ℕ) (mac : Option (List ℕ)) → (cache_add s now ip mac).pending ≡ s.pending
unfolding cache_add
cache_add-pending s now ip none = refl
cache_add-pending s now ip (some mac) = refl

arp_output-forwards :
    (m : Allocation) (sent : Status) (dev : NetworkDevice) (op ip b : ℕ)
    → (mac : Option (List ℕ)) → count (is_forward b) (arp_output m sent dev op ip mac).0 ≡ 0
unfolding arp_output count
arp_output-forwards m sent dev op ip b mac =
    either-branch (λ (r : List Effect × Status). count (is_forward b) r.0 ≡ 0) (dev.ptr == 0) _ _
      refl (packet (alloc_buf m 28))
  where
    packet :
        (o : Option NetworkBuf)
        → count
            (is_forward b)
            (output_in sent dev (mac_or mac 0xff) (arp_header dev op ip mac) m.buf_ptr o).0
          ≡ 0
    packet none = refl
    packet (some buf) =
        either-branch (λ (r : List Effect × Status). count (is_forward b) r.0 ≡ 0)
          (is_success (put buf 28).1) _ _ refl refl

handle-Conserved :
    (m : Allocation) (sent : Status) (s : Arp) (now b : ℕ) (dev : NetworkDevice) (h : ArpHeader)
    → b ≢ 0
    → Conserved b s (handle m sent s now dev h)
unfolding handle count
handle-Conserved m sent s now b dev h nz =
    let known = if not (h.spa == 0) then cache_add s now h.spa (some h.sha) else s in
    let same : held b known.pending ≡ held b s.pending = ap (held b) (
      either-branch (λ (k : Arp). k.pending ≡ s.pending) (not (h.spa == 0)) _ _
        (cache_add-pending s now h.spa (some h.sha)) refl) in
    let silent : count (is_forward b) (
          if h.tpa == ntohl dev.ip_addr
          then (arp_output m sent dev 2 (ntohl h.spa) (some h.sha)).0
          else [])
        ≡ 0 =
      either-branch (λ es. count (is_forward b) es ≡ 0) (h.tpa == ntohl dev.ip_addr) _ _
        (arp_output-forwards m sent dev 2 (ntohl h.spa) b (some h.sha)) refl in
    either-branch (Conserved b s) (ntohs h.op == 1) _ _ (omega (arith, same, silent)) (
      either-branch (Conserved b s) (ntohs h.op == 2) _ _
        (flush-held h.spa h.sha b known.pending nz ∙ same) (omega (arith, same)))

arp_input-Conserved :
    (m : Allocation) (sent : Status) (s : Arp) (now b : ℕ) (dev : NetworkDevice) (r : Received)
    → b ≢ 0
    → Conserved b s (arp_input m sent s now dev r)
unfolding arp_input count
arp_input-Conserved m sent s now b dev r nz =
    either-branch (Conserved b s) (r.buf == 0 || dev.ptr == 0) _ _
      (either-branch (λ es. held b s.pending + count (is_forward b) es ≡ held b s.pending)
        (not (r.buf == 0)) _ _ (omega arith) (omega arith))
      (either-branch (Conserved b s) (ltb r.len 28) _ _ (omega arith) (
        either-branch (Conserved b s) (not (is_arp r.header)) _ _ (omega arith) (
          omega (
            arith,
            handle-Conserved m sent s now b dev r.header nz,
            count-append (is_forward b) (handle m sent s now dev r.header).1 (free_buf r.buf ∷ []),
          ))))

arp_tick-held :
    (s : Arp) (now timeout b : ℕ)
    → b ≢ 0
    → held b (arp_tick s now timeout).0.pending + count (is_free b) (arp_tick s now timeout).1
      ≡ held b s.pending
unfolding arp_tick purge_expired
arp_tick-held s now timeout b nz = expire-held now b s.pending nz

-- What waits is accounted for: ArpQueuePacket adds the buffer once or answers NO_MEMORY and adds nothing,
-- ArpInput sends each buffer that it takes off once, and ArpTick frees each that it takes off once.
pub packets_accounted :
    (m : Allocation) (sent : Status) (s : Arp) (now timeout b : ℕ) (dev : NetworkDevice)
    → (r : Received) → (to ip : ℕ) → b ≢ 0
    → to ≢ 0
    → ((queue_packet s now timeout to ip b ≡ (s, no_memory))
        ⊎ (((queue_packet s now timeout to ip b).1 ≡ success)
            × (held b (queue_packet s now timeout to ip b).0.pending ≡ suc (held b s.pending))))
      × (held b (arp_input m sent s now dev r).0.pending
            + count (is_forward b) (arp_input m sent s now dev r).1
          ≡ held b s.pending)
      × (held b (arp_tick s now timeout).0.pending + count (is_free b) (arp_tick s now timeout).1
          ≡ held b s.pending)
packets_accounted m sent s now timeout b dev r to ip nz some_dev = (
  queue_packet-held s now timeout to ip b nz some_dev,
  arp_input-Conserved m sent s now b dev r nz,
  arp_tick-held s now timeout b nz,
)

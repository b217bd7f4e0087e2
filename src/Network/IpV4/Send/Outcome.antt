-- ===== src/Network/IpV4/Send/Outcome.antt =====
-- IpV4Output: where the buffer goes.
use k_os.Prelude.{
  ℕ, ◌+◌, ◌%◌, ◌^◌, ◌≤◌, ◌<◌, ◌≡◌, refl, sym, subst, ◌∙◌, ◌≢◌, ◌⊎◌, inl, inr, true, false, not,
  ◌&&◌, ◌||◌, Option, none, some, List, arith, ltb, ◌==◌, ltb→lt, ltb→le, ==→eq, ==→ne, ne→==,
  Bool-cases, either-branch, in_branch, replicate,
}
use native.Mathlib.Decide.{ℕ_discrete}
use k_os.Network.Buf.{NetworkBuf, Status, success, no_object, incorrect_value, no_memory, buf_unref}
use k_os.Network.Arp.{Arp, queue_packet}
use k_os.Network.Arp.Input.{Effect, Resolution, ntohl, is_success}
use k_os.Network.IpV4.Routes.{IpV4Route, route_lookup, lookup_loop}
use k_os.Network.IpV4.Address.{is_broadcast, is_loopback}
use k_os.Network.IpV4.Receive.Datagram.{HasMemory}
use k_os.Network.IpV4.Send.Build.{IsBuilt}
use k_os.Network.IpV4.Send.Datagrams.{with_room, reserve-room, reserve-no_room, datagram-IsBuilt}
use k_os.Network.IpV4.Send.Unresolved.{
  AllTaken, not_success, both, queue_packet-full, IsAnswer, arp_resolve-IsAnswer,
}
use k_os.Network.IpV4.Send.{
  IpV4, Surroundings, Sent, released, queued, framed, header_for, source_of, is_unsourced, next_hop,
  queue_or_free, after_resolve, send_resolved, send_frame, send_datagram, send_over, send_by,
  ip_output, write_header,
}

-- The devices are known by their addresses, and their packets and addresses fit their fields.
pub record IsSurroundings (w : Surroundings) : Type 0 where
  pub ptr : (n : ℕ) → (w.device n).dev.ptr ≡ n
  pub mtu : (n : ℕ) → (w.device n).mtu < 2 ^ 16
  pub ip_addr : (n : ℕ) → (w.device n).dev.ip_addr < 2 ^ 32

-- The caller names no source address, the destination is not the broadcast, and neither the route nor its
-- device has an address; or the field of the route is no 32-bit number.
abbrev pub HasNoSource : Surroundings → ℕ → ℕ → IpV4Route → Type 0
HasNoSource w dest src r =
    (src ≡ 0)
    × (dest ≢ 0xffffffff)
    × (((r.src ≡ 0) × ((w.device r.dev).dev.ip_addr ≡ 0)) ⊎ (2 ^ 32 ≤ r.src))

ntohl_zero : (n : ℕ) → n ≢ 0 → ntohl n ≡ 0 → 2 ^ 32 ≤ n
unfolding ntohl
ntohl_zero n ne e = omega arith

not_broadcast : (dest : ℕ) → is_broadcast dest ≡ false → dest ≢ 0xffffffff
unfolding is_broadcast
not_broadcast dest n = ==→ne _ _ n

source_of-HasNoSource :
    (w : Surroundings) (r : IpV4Route) (dest src : ℕ)
    → is_unsourced dest src ≡ true
    → source_of w r dest src ≡ 0
    → HasNoSource w dest src r
source_of-HasNoSource w r dest src unsourced nothing =
    let (no_src, single) = both (src == 0) (not (is_broadcast dest)) unsourced in
    let zero_src : src ≡ 0 = ==→eq _ _ no_src in
    let apart : is_broadcast dest ≡ false = ground arith in
    (
      zero_src,
      (λ e. not_broadcast dest apart e),
      elim (ℕ_discrete r.src 0) [
        | yes z ↦ inl (z, rw (no_src, apart, z) at nothing)
        | no n ↦ inr (ntohl_zero r.src n (rw (no_src, apart, ne→== r.src 0 n) at nothing))
      ],
    )

abbrev pub IsStuck : Surroundings → Arp → NetworkBuf → ℕ → ℕ → IpV4Route → Type 0
IsStuck w arp b dest src r =
    (r.dev ≡ 0)
    ⊎ (((w.device r.dev).mtu < b.len + 20)
        ⊎ ((b.head_room < 20) ⊎ (HasNoSource w dest src r ⊎ AllTaken arp.pending)))

-- No route, or a route that does not serve.
abbrev pub IsBlocked : Surroundings → IpV4 → Arp → NetworkBuf → ℕ → ℕ → Type 0
IsBlocked w s arp b dest src =
    (route_lookup s.routes dest ≡ none)
    ⊎ ((r : IpV4Route) × (route_lookup s.routes dest ≡ some r) × IsStuck w arp b dest src r)

-- The buffer goes on as a datagram, to EthernetOutput or into the queue, or it is given back.
abbrev pub GoesOn : Surroundings → NetworkBuf → ℕ → ℕ → Sent → Type 0
GoesOn w b dest protocol x =
    (q : NetworkBuf) × IsBuilt b q dest protocol
    × (((mac : List ℕ) × (x.fate ≡ framed q mac) × (x.status ≡ w.frame_sent))
        ⊎ ((x.fate ≡ queued q) × (x.status ≢ success)))

abbrev pub GivenBack : NetworkBuf → Sent → Type 0
GivenBack b x =
    (q : NetworkBuf) × (x.fate ≡ released (buf_unref q))
    × (q.ref_count ≡ b.ref_count)
    × (x.status ≢ success)

module _ (w : Surroundings) (s : IpV4) (arp : Arp) (ptr : ℕ) (b : NetworkBuf)
    (dest src protocol : ℕ) (k : IsSurroundings w) (some_buf : ptr ≢ 0) where
  abbrev Outcome : IpV4Route → Sent → Type 0
  Outcome r x = GoesOn w b dest protocol x ⊎ (GivenBack b x × IsStuck w arp b dest src r)

  -- Of a datagram that is built, and whose route has a device.
  module _ (c : IpV4) (q : NetworkBuf) (r : IpV4Route) (nd : r.dev ≢ 0)
      (g : IsBuilt b q dest protocol) (refs : q.ref_count ≡ b.ref_count) where
    queued_or_freed :
        (effects : List Effect) (code : Status) (answer : Arp × Status)
        → code ≢ success
        → (answer.1 ≡ success) ⊎ AllTaken arp.pending
        → Outcome r (queue_or_free c effects code q answer)
    queued_or_freed effects code (after, reply) failed h = elim (Bool-cases (is_success reply)) [
      | inl y ↦ inl (q, g, inr (rw y refl, failed))
      | inr n ↦ elim h [
        | inl taken ↦ absurd (not_success reply n taken)
        | inr full ↦ inr ((q, rw n refl, refs, failed), inr (inr (inr (inr full))))
      ]
    ]

    after_resolve_lem :
        (answer : Resolution)
        → IsAnswer arp answer
        → Outcome r (after_resolve w c ptr q r dest answer answer.mac)
    after_resolve_lem answer (inl (mac, found)) = rw found (inl (q, g, inl (mac, refl, refl)))
    after_resolve_lem answer (inr (nothing, failed, same)) =
        let nz : (w.device r.dev).dev.ptr ≢ 0 = λ e. nd (sym (k.ptr r.dev) ∙ e) in
        let reply =
          queue_packet answer.state w.now w.request_timeout (w.device r.dev).dev.ptr
            (next_hop r dest) ptr in
        let room =
          queue_packet-full answer.state w.now w.request_timeout (w.device r.dev).dev.ptr
            (next_hop r dest) ptr nz some_buf in
        rw nothing (
          queued_or_freed answer.effects answer.status reply failed
            (subst (λ l. (reply.1 ≡ success) ⊎ AllTaken l) same room))

    send_frame_lem : Outcome r (send_frame w c arp ptr q r dest)
    unfolding send_frame send_resolved
    send_frame_lem =
        either-branch (Outcome r) (is_broadcast dest) _ _
          (inl (q, g, inl (replicate 6 0xff, refl, refl)))
          (either-branch (Outcome r) (is_loopback dest || (w.device r.dev).is_loopback_type) _ _
            (inl (q, g, inl ((w.device r.dev).dev.mac_addr, refl, refl)))
            (after_resolve_lem _ (
              arp_resolve-IsAnswer w.memory w.request_sent arp w.now w.cache_timeout
                (w.device r.dev).dev (next_hop r dest) (λ e. nd (sym (k.ptr r.dev) ∙ e)))))

  module _ (v : HasMemory b) (ld : dest < 2 ^ 32) (ls : src < 2 ^ 32) (lp : protocol < 2 ^ 8)
      (r : IpV4Route) where
    source_of-lt : source_of w r dest src < 2 ^ 32
    unfolding ntohl
    source_of-lt =
        either-branch (λ x. x < 2 ^ 32) (not (src == 0)) _ _ ls
          (either-branch (λ x. x < 2 ^ 32) (is_broadcast dest) _ _ (omega arith)
            (either-branch (λ x. x < 2 ^ 32) (not (r.src == 0)) _ _ (omega arith)
              (k.ip_addr r.dev)))

    send_datagram_lem :
        r.dev ≢ 0
        → 20 ≤ b.head_room
        → b.len + 20 < 2 ^ 16
        → Outcome r (send_datagram w s arp ptr (with_room b) r dest src protocol)
    unfolding send_datagram
    send_datagram_lem nd room short =
        let id = (s.id_counter + 1) % 2 ^ 16 in
        let source = source_of w r dest src in
        let li : id < 2 ^ 16 = omega arith in
        in_branch (Outcome r) (is_unsourced dest src && source == 0) _ _
          (λ y.
            let (unsourced, nothing) = both (is_unsourced dest src) (source == 0) y in
            inr (
              (
                write_header (with_room b) (header_for (with_room b).len id protocol source dest),
                refl,
                refl,
                not_success no_object refl,
              ),
              inr (
                  inr
                    (inr (inl (source_of-HasNoSource w r dest src unsourced (==→eq _ _ nothing))))),
            ))
          (λ _.
            send_frame_lem (record s { id_counter = id }) _ r nd
              (datagram-IsBuilt b v room short id protocol source dest li lp source_of-lt ld) refl)

    send_over_lem : Outcome r (send_over w s arp ptr b r dest src protocol)
    unfolding send_over
    send_over_lem =
        in_branch (Outcome r) (r.dev == 0) _ _
          (λ z. inr ((b, refl, refl, not_success no_object refl), inl (==→eq _ _ z)))
          (λ nz.
            in_branch (Outcome r) (ltb (w.device r.dev).mtu ((b.len + 20) % 2 ^ 32)) _ _
              (λ big. inr (
                (b, refl, refl, not_success incorrect_value refl),
                inr (
                    inl (
                      let lt = ltb→lt _ _ big in
                      omega (arith, v.valid.len, v.valid.order, v.valid.true_size, v.valid.small))),
              ))
              (λ fits. elim (Bool-cases (ltb b.head_room 20)) [
                | inl y ↦ rw (reserve-no_room b y) (
                    inr
                      ((b, refl, refl, not_success no_memory refl), inr (inr (inl (ltb→lt _ _ y)))))
                | inr n ↦
                    let room = ltb→le _ _ n in
                    rw (reserve-room b room) (
                      send_datagram_lem (==→ne _ _ nz) room (
                        let le = ltb→le _ _ fits in
                        omega (
                          arith,
                          k.mtu r.dev,
                          v.valid.len,
                          v.valid.order,
                          v.valid.true_size,
                          v.valid.small,
                        )))
              ]))

  send_by_lem :
      HasMemory b
      → dest < 2 ^ 32
      → src < 2 ^ 32
      → protocol < 2 ^ 8
      → (o : Option IpV4Route) → route_lookup s.routes dest ≡ o
      → GoesOn w b dest protocol (send_by w s arp ptr b dest src protocol o)
        ⊎ (GivenBack b (send_by w s arp ptr b dest src protocol o) × IsBlocked w s arp b dest src)
  send_by_lem v ld ls lp none e = inr ((b, refl, refl, not_success no_object refl), inl e)
  send_by_lem v ld ls lp (some r) e = elim (send_over_lem v ld ls lp r) [
    | inl on ↦ inl on
    | inr (back, stuck) ↦ inr (back, inr (r, e, stuck))
  ]

  -- IpV4Output gives the buffer on as a datagram for the destination and the protocol with the payload behind
  -- the header, to EthernetOutput, whose code it answers, or to the queue of the ARP layer with an error; or
  -- it gives the buffer back with an error. It does the last only where no route matches, or the route that
  -- IpV4RouteLookup prefers has no device, the datagram is longer than its MTU, there is no room for the
  -- header, every slot of the queue is taken, or no source address is known: the caller gives none, the
  -- destination is not the broadcast, and the route and its device have none. The devices fit their fields,
  -- and the buffer is well-formed, with its bytes.
  pub ip_output_lem :
      HasMemory b
      → dest < 2 ^ 32
      → src < 2 ^ 32
      → protocol < 2 ^ 8
      → GoesOn w b dest protocol (ip_output w s arp ptr b dest src protocol)
        ⊎ (GivenBack b (ip_output w s arp ptr b dest src protocol) × IsBlocked w s arp b dest src)
  unfolding ip_output route_lookup
  ip_output_lem v ld ls lp = send_by_lem v ld ls lp (lookup_loop dest none s.routes) refl

-- ===== src/Network/IpV4/Receive/Verdict.antt =====
-- IpV4Input: which packets are handed on, which are counted as errors and which as dropped.
use k_os.Prelude.{
  ℕ, ◌+◌, ◌-◌, ◌*◌, ◌%◌, ◌^◌, ◌≤◌, bit_or, ◌≡◌, refl, ap, ◌∙◌, ◌≢◌, ◌⊎◌, inl, inr, true, false, not,
  ◌||◌, List, arith, ltb, ◌==◌, if◌then◌else◌, ltb→lt, ltb→le, le→ltb, ==→eq, ==→ne, ==_refl,
  Bool-cases, in_branch, get_or,
}
use k_os.Network.Buf.{NetworkBuf, pull, trim}
use k_os.Network.Buf.Windows.{IsValid}
use k_os.Network.Arp.Input.{ntohs}
use k_os.Network.IpV4.Header.{
  IpV4Header, header_of, checksum_of, clear_checksum, store16, data_offset,
}
use k_os.Network.IpV4.Header.Fields.{checksum_put_back}
use k_os.Network.IpV4.Receive.Datagram.{
  header_len, total_len, IsDatagram, HasMemory, IsPayload, IsFreed, one_more_error, Judged,
}
use k_os.Network.IpV4.Receive.{
  Receiver, Consumed, handled, fail, discard_packet, is_for, dispatch, is_fragment, open_packet,
  verify, trimmed, ip_input,
}

trimmed_lem :
    (b : NetworkBuf) (total : ℕ)
    → IsValid b
    → total ≤ b.len
    → trimmed b total ≡ record b { tail = b.data_ptr + total; len = total }
unfolding trim
trimmed_lem b total v le =
    let short : b.tail - (b.len - total) ≡ b.data_ptr + total = omega (arith, v.len, v.order) in
    let less : b.len - (b.len - total) ≡ total = omega arith in
    in_branch (λ x. x ≡ record b { tail = b.data_ptr + total; len = total }) (ltb total b.len)
      (trim b (b.len - total)).0 b
      (λ lt. rw (le→ltb b.len (b.len - total) (omega arith), short, less) refl)
      (λ ge.
        let same : total ≡ b.len = (let le' = ltb→le _ _ ge in omega arith) in
        let back : b.data_ptr + total ≡ b.tail = omega (arith, v.len, v.order) in
        rw (back, same) refl)

-- The window without the header, with the addresses.
abbrev opened : NetworkBuf → IpV4Header → NetworkBuf
opened b h = record b {
  data_ptr = b.data_ptr + h.ihl * 4;
  head_room = (b.head_room + h.ihl * 4) % 2 ^ 32;
  len = b.len - h.ihl * 4;
  ip_src = h.src_addr;
  ip_dst = h.dst_addr;
}

module _ (protocols : List ℕ) (b : NetworkBuf) (d : Receiver) (h : IpV4Header) where
  open_packet_lem :
      h.ihl * 4 ≤ b.len
      → open_packet protocols b d h
        ≡ (if is_fragment h then discard_packet b d else dispatch protocols (opened b h) d h)
  unfolding open_packet pull
  open_packet_lem le = rw (le→ltb b.len (h.ihl * 4) le) refl

  dispatch_lem :
      ((is_for d h.dst_addr ≡ true)
        × (get_or protocols h.protocol 0 ≢ 0)
        × (dispatch protocols b d h
            ≡ (d, handled (get_or protocols h.protocol 0) b h.src_addr h.dst_addr)))
      ⊎ (((is_for d h.dst_addr ≡ false) ⊎ (get_or protocols h.protocol 0 ≡ 0))
          × (dispatch protocols b d h ≡ discard_packet b d))
  unfolding dispatch
  dispatch_lem = elim (Bool-cases (is_for d h.dst_addr)) [
    | inl y ↦ elim (Bool-cases (get_or protocols h.protocol 0 == 0)) [
      | inl z ↦ inr (inr (==→eq _ _ z), rw (y, z) refl)
      | inr nz ↦ inl (y, ==→ne _ _ nz, rw (y, nz) refl)
    ]
    | inr n ↦ inr (inl n, rw n refl)
  ]

  -- The comparison of the checksums, where the field is put back.
  verify_lem :
      store16 (clear_checksum b) (data_offset b + 10) h.checksum ≡ b.bytes
      → verify protocols b d h ≡ (
          if not (ntohs (checksum_of b (h.ihl * 4)) == h.checksum)
          then fail b d
          else open_packet protocols (record b { flags = bit_or b.flags 1 }) d h)
  unfolding verify
  verify_lem e = rw e refl

module _ (protocols : List ℕ) (b : NetworkBuf) (d : Receiver) (v : HasMemory b) where
  put_back :
      20 ≤ b.len → store16 (clear_checksum b) (data_offset b + 10) (header_of b).checksum ≡ b.bytes
  put_back long =
      checksum_put_back b v.bytes
        (omega (arith, v.size, v.valid.len, v.valid.order, v.valid.true_size))

  -- The buffer that is cut to the datagram, and its payload, with the flag of the checksum.
  abbrev cut : NetworkBuf
  cut = record b { tail = b.data_ptr + total_len b; len = total_len b }

  abbrev payload_of : NetworkBuf
  payload_of = opened (record cut { flags = bit_or b.flags 1 }) (header_of b)

  payload_of-IsPayload : IsDatagram b → IsPayload b payload_of
  payload_of-IsPayload g = record {
    valid = record {
      order = (
        omega (arith, v.valid.order),
        omega (arith, g.inside),
        omega (arith, v.valid.order, v.valid.len, g.whole),
      );
      len = omega (arith, g.inside);
      head_room = omega (
        arith, v.valid.order, v.valid.head_room, v.valid.len, v.valid.true_size, v.valid.small,
        g.inside, g.whole,
      );
      true_size = v.valid.true_size;
      small = v.valid.small;
    };
    front = refl;
    back = refl;
    bytes = refl;
    head = refl;
    ref_count = refl;
    addresses = (refl, refl);
  }

  verified :
      IsDatagram b
      → verify protocols (trimmed b (total_len b)) d (header_of b) ≡ (
          if is_fragment (header_of b)
          then discard_packet (record cut { flags = bit_or b.flags 1 }) d
          else dispatch protocols payload_of d (header_of b))
  verified g =
      let sum : (ntohs (checksum_of cut ((header_of b).ihl * 4)) == (header_of b).checksum) ≡ true =
        rw g.sum (==_refl (header_of b).checksum) in
      let first =
        ap (λ x. verify protocols x d (header_of b))
          (trimmed_lem b (total_len b) v.valid g.whole) in
      let second : verify protocols cut d (header_of b)
          ≡ open_packet protocols (record cut { flags = bit_or b.flags 1 }) d (header_of b) =
        verify_lem protocols cut d (header_of b)
          (put_back (omega (arith, g.options, g.inside, g.whole)))
        ∙ rw sum refl in
      first
      ∙ second
      ∙ open_packet_lem protocols (record cut { flags = bit_or b.flags 1 }) d (header_of b) g.inside

  judged_lem :
      IsDatagram b
      → Judged protocols b d (verify protocols (trimmed b (total_len b)) d (header_of b))
  judged_lem g = elim (Bool-cases (is_fragment (header_of b))) [
    | inl y ↦
        inr (inl y, (record cut { flags = bit_or b.flags 1 }, verified g ∙ rw y refl, refl, refl))
    | inr n ↦
        let opened_up : verify protocols (trimmed b (total_len b)) d (header_of b)
            ≡ dispatch protocols payload_of d (header_of b) =
          verified g ∙ rw n refl in
        elim (dispatch_lem protocols payload_of d (header_of b)) [
          | inl (for_us, some_handler, e) ↦
              inl (n, (for_us, some_handler, (payload_of, payload_of-IsPayload g, opened_up ∙ e)))
          | inr (why, e) ↦ inr (inr why, (payload_of, opened_up ∙ e, refl, refl))
        ]
  ]

  abbrev Verdict : Receiver × Consumed → Type 0
  Verdict r =
      (IsDatagram b × Judged protocols b d r) ⊎ ((¬ IsDatagram b) × IsFreed b (one_more_error d) r)

  not_datagram : (¬ IsDatagram b) → Verdict (fail b d)
  not_datagram ng = inr (ng, (b, refl, refl, refl))

  -- The checks before the checksum.
  record Framed : Type 0 where
    version : (header_of b).version ≡ 4
    options : (20 ≤ header_len b) × (header_len b ≤ 60)
    inside : header_len b ≤ total_len b
    whole : total_len b ≤ b.len

  summed : Framed → Verdict (verify protocols (trimmed b (total_len b)) d (header_of b))
  summed f = elim (Bool-cases (ntohs (checksum_of b (header_len b)) == (header_of b).checksum)) [
    | inl y ↦
        let g : IsDatagram b = record {
          version = f.version;
          options = f.options;
          inside = f.inside;
          whole = f.whole;
          sum = ==→eq _ _ y;
        } in
        inl (g, judged_lem g)
    | inr n ↦ inr (
      λ g. ==→ne _ _ n g.sum,
      (
        cut,
        ap (λ x. verify protocols x d (header_of b)) (trimmed_lem b (total_len b) v.valid f.whole)
            ∙ verify_lem protocols cut d (header_of b)
                (put_back (omega (arith, f.options, f.inside, f.whole)))
            ∙ rw n refl,
        refl,
        refl,
      ),
    )
  ]

  -- IpV4Input of a packet that starts with a datagram (version 4, lengths that fit each other and the packet,
  -- the right checksum) hands the handler of its protocol the window of the payload and the two addresses,
  -- with the memory as it was; or the packet counts as dropped and the buffer is given back, where it is a
  -- fragment, is for another destination or has no handler. A packet that is not a datagram counts as an
  -- error and the buffer is given back. The buffer is well formed.
  pub ip_input_lem :
      (IsDatagram b × Judged protocols b d (ip_input protocols b d))
      ⊎ ((¬ IsDatagram b) × IsFreed b (one_more_error d) (ip_input protocols b d))
  unfolding ip_input
  ip_input_lem =
      in_branch Verdict (ltb b.len 20) _ _
        (λ short.
          not_datagram
            (λ g. let lt = ltb→lt _ _ short in omega (arith, g.options, g.inside, g.whole)))
        (λ _.
          in_branch Verdict (not ((header_of b).version == 4)) _ _
            (λ other. not_datagram (λ g. ground (arith, g.version)))
            (λ four.
              in_branch Verdict
                (ltb (header_len b) 20 || ltb 60 (header_len b) || ltb b.len (header_len b)) _ _
                (λ bad. not_datagram (λ g. ground (arith, g.options, g.inside, g.whole)))
                (λ good.
                  in_branch Verdict (ltb (total_len b) (header_len b) || ltb b.len (total_len b)) _
                    _ (λ bad. not_datagram (λ g. ground (arith, g.inside, g.whole)))
                    (λ fits. summed (record {
                      version = ground arith;
                      options = ground arith;
                      inside = ground arith;
                      whole = ground arith;
                    })))))

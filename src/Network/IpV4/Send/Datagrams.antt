-- ===== src/Network/IpV4/Send/Datagrams.antt =====
-- IpV4Output: what becomes of the buffer, and that IpV4Input reads what it sends.
use k_os.Prelude.{
  ℕ, ◌+◌, ◌-◌, ◌*◌, ◌%◌, ◌^◌, ◌≤◌, ◌<◌, ◌≡◌, refl, sym, ap, ap₂, ◌∙◌, ◌≢◌, inl, inr, true, List,
  arith, ltb, le→ltb, true≢false, get_or,
}
use k_os.Network.Buf.{NetworkBuf, success, incorrect_value, reserve}
use k_os.Network.Buf.Windows.{IsValid}
use k_os.Network.Arp.Input.{ntohs}
use k_os.Network.IpV4.Header.{header_of, data_offset}
use k_os.Network.IpV4.Receive.{Receiver, handled, is_for, is_fragment, ip_input}
use k_os.Network.IpV4.Receive.Datagram.{HasMemory}
use k_os.Network.IpV4.Receive.Verdict.{ip_input_lem}
use k_os.Network.IpV4.Send.Build.{
  IsBuilt, built_fields, built-HasMemory, built-IsDatagram, built-payload,
}
use k_os.Network.IpV4.Send.{header_for, store_checksum, write_header}

abbrev pub with_room : NetworkBuf → NetworkBuf
with_room b = record b {
  data_ptr = b.data_ptr - 20;
  head_room = b.head_room - 20;
  len = (b.len + 20) % 2 ^ 32;
}

pub reserve-room : (b : NetworkBuf) → 20 ≤ b.head_room → reserve b 20 ≡ (with_room b, success)
unfolding reserve
reserve-room b le = rw (le→ltb b.head_room 20 le) refl

pub reserve-no_room :
    (b : NetworkBuf) → ltb b.head_room 20 ≡ true → reserve b 20 ≡ (b, incorrect_value)
unfolding reserve
reserve-no_room b y = rw y refl

module _ (b : NetworkBuf) (v : HasMemory b) (room : 20 ≤ b.head_room) where
  with_room-len : (b.len + 20) % 2 ^ 32 ≡ b.len + 20
  with_room-len = omega (arith, v.valid.len, v.valid.order, v.valid.true_size, v.valid.small)

  with_room-HasMemory : HasMemory (with_room b)
  with_room-HasMemory = record {
    valid = record {
      order = (
        omega (arith, v.valid.head_room, v.valid.order),
        omega (arith, v.valid.order),
        v.valid.order.2,
      );
      len = omega (arith, with_room-len, v.valid.len, v.valid.order, v.valid.head_room);
      head_room = omega (arith, v.valid.head_room, v.valid.order);
      true_size = v.valid.true_size;
      small = v.valid.small;
    };
    bytes = v.bytes;
    size = v.size;
  }

  module _ (short : b.len + 20 < 2 ^ 16) (id protocol source dest : ℕ) (li : id < 2 ^ 16)
      (lp : protocol < 2 ^ 8) (ls : source < 2 ^ 32) (ld : dest < 2 ^ 32) where
    abbrev datagram : NetworkBuf
    datagram =
        store_checksum
          (write_header (with_room b) (header_for (with_room b).len id protocol source dest))

    pub datagram-IsBuilt : IsBuilt b datagram dest protocol
    datagram-IsBuilt =
        let long : 20 ≤ (with_room b).len = omega (arith, with_room-len) in
        let little : (with_room b).len < 2 ^ 16 = omega (arith, with_room-len) in
        let fields =
          built_fields (with_room b) with_room-HasMemory long little id protocol source dest li lp
            ls ld in
        record {
          memory =
              built-HasMemory (with_room b) with_room-HasMemory long little id protocol source dest
                li lp ls ld;
          datagram =
              built-IsDatagram (with_room b) with_room-HasMemory long little id protocol source dest
                li lp ls ld;
          unfragmented = ap is_fragment fields;
          front = omega (arith, v.valid.head_room, v.valid.order);
          back = refl;
          head = refl;
          lengths = (
            ap (λ h. h.ihl * 4) fields,
            ap (λ h. ntohs h.total_len) fields ∙ omega (arith, with_room-len),
          );
          addressed = (ap (λ h. h.dst_addr) fields, ap (λ h. h.protocol) fields);
          payload = λ i lt.
              built-payload (with_room b) with_room-HasMemory long little id protocol source dest
                (data_offset b + i) (omega (arith, v.valid.head_room, v.valid.order));
        }

-- IpV4Input of a datagram that IpV4Output has built hands the payload on, at the place where it was.
pub record IsReceived (b p : NetworkBuf) : Type 0 where
  pub window : (p.data_ptr ≡ b.data_ptr) × (p.tail ≡ b.tail) × (p.head ≡ b.head)
  pub payload :
      (i : ℕ)
      → i < b.len
      → get_or p.bytes (data_offset p + i) 0 ≡ get_or b.bytes (data_offset b + i) 0

pub ip_input-IsBuilt :
    (protocols : List ℕ) (b q : NetworkBuf) (d : Receiver) (dest protocol : ℕ)
    → IsValid b
    → IsBuilt b q dest protocol
    → is_for d dest ≡ true
    → get_or protocols protocol 0 ≢ 0
    → (p : NetworkBuf) × (ip_input protocols q d
        ≡ (d, handled (get_or protocols protocol 0) p (header_of q).src_addr dest))
      × IsReceived b p
ip_input-IsBuilt protocols b q d dest protocol v g for_us some_handler =
    let handler : get_or protocols (header_of q).protocol 0 ≡ get_or protocols protocol 0 =
      ap (λ n. get_or protocols n 0) g.addressed.1 in
    elim (ip_input_lem protocols q d g.memory) [
      | inr (not_datagram, _) ↦ absurd (not_datagram g.datagram)
      | inl (_, inr (inl fragment, _)) ↦ absurd (true≢false (sym fragment ∙ g.unfragmented))
      | inl (_, inr (inr (inl other), _)) ↦
          absurd (true≢false (sym (ap (is_for d) g.addressed.0 ∙ for_us) ∙ other))
      | inl (_, inr (inr (inr none_there), _)) ↦ absurd (some_handler (sym handler ∙ none_there))
      | inl (_, inl (_, (_, _, (p, w, e)))) ↦ (
        p,
        e ∙ ap₂ (λ n a. (d, handled n p (header_of q).src_addr a)) handler g.addressed.0,
        record {
          window = (
            omega (arith, w.front, g.front, g.lengths),
            omega (arith, w.back, g.front, g.lengths, v.len, v.order),
            w.head ∙ g.head,
          );
          payload = λ i lt.
              let place : data_offset p + i ≡ data_offset b + i =
                omega (arith, w.front, w.head, g.head, g.front, g.lengths) in
              rw (place, w.bytes) (g.payload i lt);
        },
      )
    ]

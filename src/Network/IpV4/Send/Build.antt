-- ===== src/Network/IpV4/Send/Build.antt =====
-- The header that IpV4Output puts in front of a payload.
use k_os.Prelude.{
  ℕ, suc, ◌+◌, ◌*◌, ◌/◌, ◌%◌, ◌^◌, ◌≤◌, ◌<◌, ◌≡◌, refl, sym, ap, ◌∙◌, false, List, [], ◌∷◌, arith,
  length, get_or, set, length-set, get_or-set_ne, All-set,
}
use k_os.Network.Buf.{NetworkBuf}
use k_os.Network.Arp.Input.{ntohs}
use k_os.Network.IpV4.{ip_checksum}
use k_os.Network.IpV4.Checksum.{IsBytes}
use k_os.Network.IpV4.Header.{
  IpV4Header, header_bytes, header_of, write_bytes, store16, bytes_at, data_offset, checksum_of,
  load_header,
}
use k_os.Network.IpV4.Header.Fields.{
  IsHeader, load_header-header_bytes, bytes_at-write_bytes, bytes_at-store16, length-write_bytes,
  get_or-write_behind,
}
use k_os.Network.IpV4.Receive.{is_fragment}
use k_os.Network.IpV4.Receive.Datagram.{HasMemory, IsDatagram, header_len, total_len}
use k_os.Network.IpV4.Send.{header_for, write_header, store_checksum}

-- `p` is `b` with a header for the destination and the protocol in front of its payload.
pub record IsBuilt (b p : NetworkBuf) (dest protocol : ℕ) : Type 0 where
  pub memory : HasMemory p
  pub datagram : IsDatagram p
  pub unfragmented : is_fragment (header_of p) ≡ false
  pub front : p.data_ptr + 20 ≡ b.data_ptr
  pub back : p.tail ≡ b.tail
  pub head : p.head ≡ b.head
  pub lengths : (header_len p ≡ 20) × (total_len p ≡ b.len + 20)
  pub addressed : ((header_of p).dst_addr ≡ dest) × ((header_of p).protocol ≡ protocol)
  pub payload :
      (i : ℕ)
      → i < b.len
      → get_or p.bytes (data_offset b + i) 0 ≡ get_or b.bytes (data_offset b + i) 0

ntohs-lt : (n : ℕ) → n < 2 ^ 16 → ntohs n < 2 ^ 16
ntohs-lt n lt = omega arith

ntohs-ntohs : (n : ℕ) → n < 2 ^ 16 → ntohs (ntohs n) ≡ n
ntohs-ntohs n lt = omega arith

ip_checksum-lt : (bytes : List ℕ) → ip_checksum bytes < 2 ^ 16
unfolding ip_checksum
ip_checksum-lt bytes = omega arith

write_bytes-IsBytes :
    (bytes : List ℕ) (at : ℕ) (xs : List ℕ)
    → IsBytes bytes
    → IsBytes xs
    → IsBytes (write_bytes bytes at xs)
unfolding write_bytes
write_bytes-IsBytes bytes at [] h k = h
write_bytes-IsBytes bytes at (x ∷ xs) h k =
    write_bytes-IsBytes (set bytes at x) (suc at) xs (All-set _ bytes at x h k.0) k.1

module _ (len id protocol source dest : ℕ) where
  abbrev plain : IpV4Header
  plain = header_for len id protocol source dest

  abbrev csum : ℕ
  csum = ip_checksum (header_bytes plain)

  abbrev summed_header : IpV4Header
  summed_header = record plain { checksum = ntohs csum }

  fits_in : len < 2 ^ 16 → id < 2 ^ 16 → source < 2 ^ 32 → dest < 2 ^ 32 → IsHeader summed_header
  fits_in ll li ls ld = record {
    version = omega arith;
    ihl = omega arith;
    total_len = omega arith;
    id = omega arith;
    frag_off = omega arith;
    checksum = ntohs-lt csum (ip_checksum-lt (header_bytes plain));
    src_addr = ls;
    dst_addr = ld;
  }

  header_bytes-IsBytes : protocol < 2 ^ 8 → IsBytes (header_bytes plain)
  header_bytes-IsBytes lp = ground arith

  -- The store of the checksum into the field.
  stored_sum : store16 (header_bytes plain) 10 (ntohs csum) ≡ header_bytes summed_header
  stored_sum =
      let high : ntohs csum / 2 ^ 8 % 2 ^ 8 ≡ ntohs csum / 2 ^ 8 =
        omega (arith, ip_checksum-lt (header_bytes plain)) in
      rw high refl

  cleared_sum : store16 (header_bytes summed_header) 10 0 ≡ header_bytes plain
  cleared_sum = refl

module _ (b : NetworkBuf) (v : HasMemory b) (long : 20 ≤ b.len) (short : b.len < 2 ^ 16)
    (id protocol source dest : ℕ) where
  abbrev built : NetworkBuf
  built = store_checksum (write_header b (header_for b.len id protocol source dest))

  abbrev with_sum : IpV4Header
  with_sum = summed_header b.len id protocol source dest

  within : data_offset b + 20 ≤ length b.bytes
  within = omega (arith, v.size, v.valid.len, v.valid.order, v.valid.true_size)

  abbrev header_stored : List ℕ
  header_stored =
      write_bytes b.bytes (data_offset b) (header_bytes (plain b.len id protocol source dest))

  plain_stored :
      bytes_at 20 header_stored (data_offset b) ≡ header_bytes (plain b.len id protocol source dest)
  plain_stored =
      bytes_at-write_bytes b.bytes (data_offset b)
        (header_bytes (plain b.len id protocol source dest)) within

  length-header_stored : length header_stored ≡ length b.bytes
  length-header_stored =
      length-write_bytes b.bytes (data_offset b)
        (header_bytes (plain b.len id protocol source dest))

  built_header : bytes_at 20 built.bytes (data_offset b) ≡ header_bytes with_sum
  built_header =
      bytes_at-store16 20 header_stored (data_offset b) 10
        (ntohs (ip_checksum (bytes_at 20 header_stored (data_offset b))))
        (omega (arith, within, length-header_stored))
      ∙ ap (λ xs. store16 xs 10 (ntohs (ip_checksum xs))) plain_stored
      ∙ stored_sum b.len id protocol source dest

  length-built : length built.bytes ≡ length b.bytes
  length-built =
      let value = ntohs (ip_checksum (bytes_at 20 header_stored (data_offset b))) in
      length-set (set header_stored (data_offset b + 10) (value % 2 ^ 8)) (suc (data_offset b + 10))
        (value / 2 ^ 8)
      ∙ length-set header_stored (data_offset b + 10) (value % 2 ^ 8)
      ∙ length-header_stored

  built_sum : checksum_of built 20 ≡ csum b.len id protocol source dest
  built_sum = ap ip_checksum (
      bytes_at-store16 20 built.bytes (data_offset b) 10 0 (omega (arith, within, length-built))
      ∙ ap (λ xs. store16 xs 10 0) built_header
      ∙ cleared_sum b.len id protocol source dest)

  pub built-payload : (j : ℕ) → data_offset b + 20 ≤ j → get_or built.bytes j 0 ≡ get_or b.bytes j 0
  built-payload j le =
      let value = ntohs (ip_checksum (bytes_at 20 header_stored (data_offset b))) in
      get_or-set_ne (set header_stored (data_offset b + 10) (value % 2 ^ 8))
        (suc (data_offset b + 10)) j (value / 2 ^ 8) 0 (omega arith)
      ∙ get_or-set_ne header_stored (data_offset b + 10) j (value % 2 ^ 8) 0 (omega arith)
      ∙ get_or-write_behind b.bytes (data_offset b) j
          (header_bytes (plain b.len id protocol source dest)) (omega arith)

  module _ (li : id < 2 ^ 16) (lp : protocol < 2 ^ 8) (ls : source < 2 ^ 32)
      (ld : dest < 2 ^ 32) where
    pub built_fields : header_of built ≡ with_sum
    built_fields =
        ap load_header built_header
        ∙ load_header-header_bytes with_sum (fits_in b.len id protocol source dest short li ls ld)

    pub built-HasMemory : HasMemory built
    built-HasMemory = record {
      valid = record {
        order = v.valid.order;
        len = v.valid.len;
        head_room = v.valid.head_room;
        true_size = v.valid.true_size;
        small = v.valid.small;
      };
      bytes =
          let value = ntohs (ip_checksum (bytes_at 20 header_stored (data_offset b))) in
          let small : value < 2 ^ 16 =
            ntohs-lt _ (ip_checksum-lt (bytes_at 20 header_stored (data_offset b))) in
          All-set _ (set header_stored (data_offset b + 10) (value % 2 ^ 8))
            (suc (data_offset b + 10)) (value / 2 ^ 8)
            (All-set _ header_stored (data_offset b + 10) (value % 2 ^ 8)
              (write_bytes-IsBytes b.bytes (data_offset b)
                (header_bytes (plain b.len id protocol source dest)) v.bytes
                (header_bytes-IsBytes b.len id protocol source dest lp))
              (omega arith))
            (omega arith);
      size = length-built ∙ v.size;
    }

    pub built-IsDatagram : IsDatagram built
    built-IsDatagram =
        let twenty : header_len built ≡ 20 = ap (λ h. h.ihl * 4) built_fields in
        let total : total_len built ≡ b.len =
          ap (λ h. ntohs h.total_len) built_fields ∙ omega arith in
        record {
          version = ap (λ h. h.version) built_fields;
          options = (omega arith, omega arith);
          inside = omega arith;
          whole = omega arith;
          sum = rw twenty (ap ntohs built_sum) ∙ sym (ap (λ h. h.checksum) built_fields);
        }

-- ===== src/Network/Buf.antt =====
-- The packet buffers of Kernel/Source/Network/Network.c.
--
-- A buffer is its allocation, `bytes`, from `head` on, with the pointers into it as numbers. The
-- functions that get a buffer get one that is not NULL; NetworkRegisterDevice and the rest of the file
-- are about devices and are not here. MemoryAllocate is a parameter: the two addresses that it answers
-- for a buffer, 0 for NULLPTR. The fields Next and Dev are set by other files and are left out.
pub mod Windows
pub mod Copies
mod Tests
use k_os.Prelude.{
  ℕ, zero, suc, ◌+◌, ◌-◌, ◌%◌, ◌^◌, not, Option, none, some, List, ltb, ◌==◌, if◌then◌else◌, get_or,
  set,
}

pub record NetworkBuf : Type 0 where
  pub head : ℕ
  pub data_ptr : ℕ
  pub tail : ℕ
  pub end : ℕ
  pub len : ℕ
  pub head_room : ℕ
  pub true_size : ℕ
  pub protocol : ℕ
  pub ip_src : ℕ
  pub ip_dst : ℕ
  pub flags : ℕ
  pub ref_count : ℕ
  pub bytes : List ℕ

abbrev pub network_mtu : ℕ
network_mtu = 1500

abbrev pub network_headroom : ℕ
network_headroom = 128

-- The pointers a caller of MemoryAllocate gets, and the bytes that it finds there.
pub record Allocation : Type 0 where
  pub buf_ptr : ℕ
  pub head_ptr : ℕ
  pub garbage : List ℕ

-- The codes that the functions of the network answer.
pub data Status : Type 0 where
  success incorrect_value no_object no_memory not_found : Status

-- The buffer that NetworkAllocBuf makes of its two allocations.
abbrev pub fresh_buf : Allocation → ℕ → NetworkBuf
fresh_buf m size = record {
  head = m.head_ptr;
  data_ptr = m.head_ptr + network_headroom;
  tail = m.head_ptr + network_headroom;
  end = m.head_ptr + (size + network_headroom);
  len = 0;
  head_room = network_headroom;
  true_size = size + network_headroom;
  protocol = 0;
  ip_src = 0;
  ip_dst = 0;
  flags = 0;
  ref_count = 1;
  bytes = m.garbage;
}

unfoldable pub alloc_buf : Allocation → ℕ → Option NetworkBuf
alloc_buf m size =
    if ltb network_mtu size
    then none
    else if m.buf_ptr == 0
    then none
    else if m.head_ptr == 0
    then none
    else some (fresh_buf m size)

unfoldable pub buf_ref : NetworkBuf → NetworkBuf
buf_ref b = record b { ref_count = (b.ref_count + 1) % 2 ^ 32 }

-- The buffer that is left, `none` where both of its allocations are given back.
unfoldable pub buf_unref : NetworkBuf → Option NetworkBuf
buf_unref b =
    if b.ref_count == 1
    then none
    else some (record b { ref_count = (b.ref_count + 2 ^ 32 - 1) % 2 ^ 32 })

-- The bytes from an offset on, and a MemCpy of `n` bytes of `src` from `from` on to `dst` at `to`.
unfoldable pub copy : ℕ → List ℕ → ℕ → List ℕ → ℕ → List ℕ
copy zero dst to src from = dst
copy (suc n) dst to src from = copy n (set dst to (get_or src from 0)) (suc to) src (suc from)

-- What NetworkBufClone writes to the new buffer.
unfoldable pub clone_into : NetworkBuf → NetworkBuf → NetworkBuf
clone_into src dst =
    let head_used = (src.data_ptr - src.head) % 2 ^ 32 in
    record dst {
      data_ptr = dst.head + head_used;
      head_room = src.head_room;
      tail = dst.head + head_used + src.len;
      len = src.len;
      protocol = src.protocol;
      ip_src = src.ip_src;
      ip_dst = src.ip_dst;
      flags = src.flags;
      bytes =
          if not (src.len == 0)
          then copy src.len dst.bytes head_used src.bytes (src.data_ptr - src.head)
          else dst.bytes;
    }

abbrev pub clone_result : NetworkBuf → Option NetworkBuf → Option NetworkBuf
clone_result src none = none
clone_result src (some dst) = some (clone_into src dst)

unfoldable pub clone : Allocation → NetworkBuf → Option NetworkBuf
clone m src =
    if ltb (network_mtu + network_headroom) ((src.len + src.head_room) % 2 ^ 32)
    then none
    else clone_result src (alloc_buf m ((src.len + src.head_room) % 2 ^ 32))

unfoldable pub reserve : NetworkBuf → ℕ → NetworkBuf × Status
reserve b room = if ltb b.head_room room then (b, incorrect_value) else (
  record b {
    data_ptr = b.data_ptr - room;
    head_room = b.head_room - room;
    len = (b.len + room) % 2 ^ 32;
  },
  success,
)

unfoldable pub put : NetworkBuf → ℕ → NetworkBuf × Status
put b n =
    if ltb b.end (b.tail + n)
    then (b, incorrect_value)
    else (record b { tail = b.tail + n; len = (b.len + n) % 2 ^ 32 }, success)

unfoldable pub pull : NetworkBuf → ℕ → NetworkBuf × Status
pull b n = if ltb b.len n then (b, incorrect_value) else (
  record b { data_ptr = b.data_ptr + n; head_room = (b.head_room + n) % 2 ^ 32; len = b.len - n },
  success,
)

unfoldable pub trim : NetworkBuf → ℕ → NetworkBuf × Status
trim b n =
    if ltb b.len n
    then (b, incorrect_value)
    else (record b { tail = b.tail - n; len = b.len - n }, success)

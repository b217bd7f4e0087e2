-- ===== src/Network/Buf/Tests.antt =====
-- A frame of four bytes behind the head room.
use k_os.Prelude.{ℕ, ◌+◌, ◌≤◌, ◌<◌, ◌≡◌, refl, ◌≢◌, ◌⊎◌, none, some, [], ◌∷◌, arith, replicate}
use k_os.Network.Buf.{NetworkBuf, Allocation, reserve, put, pull, trim, clone}
use k_os.Network.Buf.Windows.{IsValid, Moves, window_lem}
use k_os.Network.Buf.Copies.{Copied, clone_lem}

abbrev memory : ℕ → Allocation
memory size = record { buf_ptr = 0x9000; head_ptr = 0xa000; garbage = replicate size 0xcc }

abbrev frame : NetworkBuf
frame = record {
  head = 0x1000;
  data_ptr = 0x1002;
  tail = 0x1006;
  end = 0x1010;
  len = 4;
  head_room = 2;
  true_size = 16;
  protocol = 0x800;
  ip_src = 0;
  ip_dst = 0;
  flags = 0;
  ref_count = 1;
  bytes = 0 ∷ 0 ∷ 1 ∷ 2 ∷ 3 ∷ 4 ∷ [];
}

frame-IsValid : IsValid frame
frame-IsValid = record {
  order = (omega arith, omega arith, omega arith);
  len = refl;
  head_room = refl;
  true_size = refl;
  small = omega arith;
}

window_example :
    Moves frame (0x1002 < 0x1000 + 2) 0x1000 0x1006 (reserve frame 2)
    × Moves frame (0x1010 < 0x1006 + 2) 0x1002 0x1008 (put frame 2)
    × Moves frame (0x1006 < 0x1002 + 2) 0x1004 0x1006 (pull frame 2)
    × Moves frame (0x1006 < 0x1002 + 2) 0x1002 0x1004 (trim frame 2)
window_example = window_lem frame frame-IsValid 2

-- A frame of 1,400 bytes with all of its head room.
abbrev long_frame : NetworkBuf
long_frame = record frame {
  data_ptr = 0x1080;
  tail = 0x15f8;
  end = 0x165c;
  len = 1400;
  head_room = 128;
  true_size = 1628;
}

long_frame-IsValid : IsValid long_frame
long_frame-IsValid = record {
  order = (omega arith, omega arith, omega arith);
  len = refl;
  head_room = refl;
  true_size = refl;
  small = omega arith;
}

clone_example :
    ((1500 < 1528) × (clone (memory 1656) long_frame ≡ none))
    ⊎ (((1528 ≤ 1500)
          × (((memory 1656).buf_ptr ≡ 0) ⊎ ((memory 1656).head_ptr ≡ 0))
          × (clone (memory 1656) long_frame ≡ none))
        ⊎ ((1528 ≤ 1500)
            × ((memory 1656).buf_ptr ≢ 0)
            × ((memory 1656).head_ptr ≢ 0)
            × ((dst : NetworkBuf) × (clone (memory 1656) long_frame ≡ some dst)
                × Copied long_frame dst)))
clone_example = clone_lem (memory 1656) long_frame long_frame-IsValid refl

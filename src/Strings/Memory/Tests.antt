-- ===== src/Strings/Memory/Tests.antt =====
-- Blocks in a memory where every byte is its address.
use k_os.Prelude.{◌%◌, ◌≡◌, refl}
use k_os.Strings.Memory.{
  Memory, store, mem_move, mem_cpy, copy_down, byte_up_loop, align_down_loop, word_down_loop,
  byte_down_loop,
}
use k_os.Strings.Memory.Moves.{mem_move-store}

abbrev counting : Memory
counting = λ x. x % 256

-- Twenty bytes three places upwards, where the blocks overlap.
overlapping : mem_move counting 103 100 20 122 ≡ 119
unfolding mem_move copy_down align_down_loop word_down_loop byte_down_loop
overlapping = refl

-- `rep movsb` repeats the first bytes there.
repeats : mem_cpy counting 103 100 20 122 ≡ 101
unfolding mem_cpy byte_up_loop
repeats = refl

mem_move_example : mem_move counting 103 100 20 122 ≡ store 20 103 100 counting 122
mem_move_example = mem_move-store counting 103 100 20 122

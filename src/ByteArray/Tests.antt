-- ===== src/ByteArray/Tests.antt =====
-- Runs of the byte array at concrete inputs.
use helens.Prelude.{◌≡◌, refl, [], ◌∷◌, arith, replicate, length-replicate, flatten}
use helens.Prelude.Slices.{slice, overwrite}
use helens.ByteArray.{
  ByteArray, Machine, little, big, done, gather, scatter, seek, read, read_at, write, to_string,
  set_position, clear, init, add_capacity, ceil_div, new_blocks, append_blocks,
}
use helens.ByteArray.Valid.{IsValid, contents}
use helens.ByteArray.Grow.{Reserved, add_capacity_lem}
use helens.ByteArray.Laws.{ReadOn, read_lem}
use helens.ByteArray.Write.{Wrote, write_lem}

program : Unit {0}
unfolding gather scatter seek read read_at write to_string set_position clear init add_capacity
    ceil_div new_blocks append_blocks overwrite flatten
program = tt

abbrev pub x86 : Machine
x86 = record {
  host = little;
  block = λ n size. replicate size 0xcd;
  length-block = λ n size. length-replicate size 0xcd;
}

-- Six bytes in two blocks of four, with the position at 5.
abbrev pub sample : ByteArray
sample = record {
  base_size = 4;
  position = 5;
  capacity = 8;
  size = 6;
  endian = big;
  before = (1 ∷ 2 ∷ 3 ∷ 4 ∷ []) ∷ [];
  here = (5 ∷ 6 ∷ 0xcd ∷ 0xcd ∷ []) ∷ [];
}

pub sample-IsValid : IsValid sample
sample-IsValid = record {
  positive = omega arith;
  rooted = omega arith;
  uniform = omega arith;
  sized = refl;
  within = omega arith;
  bounded = omega arith;
  cursor_low = omega arith;
  cursor_high = omega arith;
}

-- Eight bytes fill both blocks.
abbrev full : ByteArray
full = record sample {
  position = 8;
  size = 8;
  before = (1 ∷ 2 ∷ 3 ∷ 4 ∷ []) ∷ (5 ∷ 6 ∷ 7 ∷ 8 ∷ []) ∷ [];
  here = [];
}

full-IsValid : IsValid full
full-IsValid = record {
  positive = omega arith;
  rooted = omega arith;
  uniform = omega arith;
  sized = refl;
  within = omega arith;
  bounded = omega arith;
  cursor_low = omega arith;
  cursor_high = omega arith;
}

write_over_end :
    write x86 (9 ∷ 10 ∷ 11 ∷ 12 ∷ []) sample
    ≡ done tt (record sample {
      position = 9;
      size = 9;
      capacity = 12;
      before = (1 ∷ 2 ∷ 3 ∷ 4 ∷ []) ∷ (5 ∷ 9 ∷ 10 ∷ 11 ∷ []) ∷ [];
      here = (12 ∷ 0xcd ∷ 0xcd ∷ 0xcd ∷ []) ∷ [];
    })
unfolding program
write_over_end = refl

write_lem_example :
    (s' : ByteArray) × (write x86 (9 ∷ 10 ∷ 11 ∷ 12 ∷ []) sample ≡ done tt s')
    × Wrote (9 ∷ 10 ∷ 11 ∷ 12 ∷ []) sample s'
write_lem_example = write_lem x86 (9 ∷ 10 ∷ 11 ∷ 12 ∷ []) sample sample-IsValid

read_lem_example :
    (s' : ByteArray) × (read 1 sample ≡ done (slice (contents sample) sample.position 1) s')
    × ReadOn 1 sample s'
read_lem_example = read_lem 1 sample sample-IsValid (omega arith) (omega arith)

read_at_other_block : read_at 2 1 sample ≡ done (6 ∷ 0xcd ∷ []) sample
unfolding program
read_at_other_block = refl

add_capacity_lem_example : Reserved 4 sample (add_capacity x86 4 sample)
add_capacity_lem_example = add_capacity_lem x86 4 sample sample-IsValid

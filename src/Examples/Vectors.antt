-- ===== src/Examples/Vectors.antt =====
-- Bit vectors over an allocator that moves the elements at every growth.
use bitvec_sgx.Base.{
  ℕ, zero, suc, ◌+◌, ◌-◌, ◌*◌, ◌^◌, ◌≤◌, ◌<◌, ◌≡◌, refl, ap, arith, ok, panic, some, none, Bool,
  true, false, ltb, leb, ◌&&◌, if◌then◌else◌, ◌==◌, List, [], ◌∷◌,
}
use bitvec_sgx.Store.{u8, u16}
use bitvec_sgx.Order.{lsb0, msb0}
use bitvec_sgx.Order.Laws.{msb0-IsBitOrder}
use bitvec_sgx.Indices.{span_idx}
use bitvec_sgx.Memory.{Memory, IsMemory, write}
use bitvec_sgx.Indices.Span.{span_idx-Spans}
use bitvec_sgx.Pointer.{BitPtr, pointer, head, len_of}
use bitvec_sgx.Pointer.New.{touched}
use bitvec_sgx.Slice.{get_unchecked}
use bitvec_sgx.Vec.{
  RawVec, Allocator, BitVec, push, pop, insert, remove, resize, extend_from_slice, from_iter,
}
use bitvec_sgx.Vec.Shape.{IsRawVec, IsAllocator, IsBitVec}
use bitvec_sgx.Vec.Contents.{Holds}
use bitvec_sgx.Vec.Ops.{shl_assign, shr_assign}
use bitvec_sgx.Vec.Ops.Shifts.{shl_assign-Holds, shr_assign-Holds}
use bitvec_sgx.Vec.Stack.{push-Holds, pop-Holds}
use bitvec_sgx.Vec.Edits.{insert-Holds, remove-Holds}
use bitvec_sgx.Vec.Growth.{resize-Holds, extend_from_slice-Holds}
use bitvec_sgx.Vec.Creation.{from_iter-Holds, bit_of}
use bitvec_sgx.Slice.Iterators.{count}
use bitvec_sgx.Examples.Cells.{plain_cells}
use bitvec_sgx.Examples.Bulk.{twenty_bits, twenty_bits-IsSlice, mixed_memory, mixed-IsMemory}

abbrev moved_to : ℕ → ℕ
moved_to a = if a == 2 ^ 20 then 2 ^ 30 else 2 ^ 20

-- The memory after the elements of a vector were copied.
abbrev moved : Memory → RawVec → Memory
moved m v = λ a.
    if leb (moved_to v.address) a && ltb a (moved_to v.address + v.length)
    then m (v.address + (a - moved_to v.address))
    else m a

abbrev bytes : Allocator
bytes = record {
  vec_with_capacity =
      λ n. if leb n 1000 then ok (record { address = 2 ^ 20; length = 0; capacity = n }) else panic;
  vec_push = λ x (m, v).
      if ltb v.length 1000
      then ok (
        write (moved m v) (moved_to v.address + v.length) x,
        record { address = moved_to v.address; length = v.length + 1; capacity = v.length + 1 },
      )
      else panic;
  vec_reserve = λ extra (m, v).
      if leb (v.length + extra) 1000
      then ok (
        moved m v,
        record { address = moved_to v.address; length = v.length; capacity = v.length + extra },
      )
      else panic;
}

moved-IsMemory : (m : Memory) (v : RawVec) → IsMemory u8 m → IsMemory u8 (moved m v)
moved-IsMemory m v w a = ground (arith, w a, w (v.address + (a - moved_to v.address)))

moved-kept :
    (m : Memory) (v : RawVec) (i : ℕ)
    → i < v.length
    → moved m v (moved_to v.address + i * 1) ≡ m (v.address + i * 1)
moved-kept m v i l = ground (
  arith,
  λ (x : v.address + (moved_to v.address + i * 1 - moved_to v.address) ≡ v.address + i * 1). ap m x,
)

moved-IsRawVec :
    (v : RawVec) (n c : ℕ)
    → n ≤ c
    → c ≤ 1000
    → IsRawVec u8 (record { address = moved_to v.address; length = n; capacity = c })
moved-IsRawVec v n c h l = record {
  aligned = omega arith;
  non_null = ground arith;
  filled = h;
  room = ground arith;
}

bytes-IsAllocator : IsAllocator u8 bytes 1000
bytes-IsAllocator = record {
  creates = λ n h. (
    record { address = 2 ^ 20; length = 0; capacity = n },
    ground arith,
    record {
      aligned = omega arith;
      non_null = omega arith;
      filled = omega arith;
      room = omega arith;
    },
    refl,
    omega arith,
  );
  pushes = λ x m v fits raw h. (
    (
      write (moved m v) (moved_to v.address + v.length) x,
      record { address = moved_to v.address; length = v.length + 1; capacity = v.length + 1 },
    ),
    (let e : ltb v.length 1000 ≡ true = ground arith in rw e refl),
    record {
      raw = moved-IsRawVec v (v.length + 1) (v.length + 1) (omega arith) (omega arith);
      kept = λ i l. ground (arith, moved-kept m v i l);
      typed = λ w a. ground (arith, fits, moved-IsMemory m v w a);
    },
    refl,
    ground arith,
  );
  reserves = λ extra m v raw h. (
    (
      moved m v,
      record { address = moved_to v.address; length = v.length; capacity = v.length + extra },
    ),
    (let e : leb (v.length + extra) 1000 ≡ true = ground arith in rw e refl),
    record {
      raw = moved-IsRawVec v v.length (v.length + extra) (omega arith) h;
      kept = λ i l. moved-kept m v i l;
      typed = λ w. moved-IsMemory m v w;
    },
    refl,
    omega arith,
  );
}

-- The twenty bits as a vector of three bytes, from bit 3 of the first.
abbrev twenty : BitVec
twenty = record { pointer = twenty_bits; capacity = 3 }

abbrev bit_at : ℕ → Bool
bit_at i = get_unchecked plain_cells msb0 u8 mixed_memory twenty_bits i

twenty-IsBitVec : IsBitVec u8 twenty
unfolding pointer head len_of span_idx
twenty-IsBitVec = record {
  words = twenty_bits-IsSlice.words;
  raw = record {
    aligned = omega arith;
    non_null = omega arith;
    filled = omega arith;
    room = omega arith;
  };
}

twenty-Holds : Holds plain_cells msb0 u8 (mixed_memory, twenty) 20 bit_at
unfolding len_of
twenty-Holds = record {
  vec = twenty-IsBitVec;
  memory = mixed-IsMemory;
  length = refl;
  inside = λ i l. refl;
}

room_for : (n : ℕ) → n ≤ 29 → touched u8 (head u8 twenty_bits) n ≤ 1000
unfolding head len_of span_idx
room_for zero h = omega arith
room_for (suc n) h = omega (arith, span_idx-Spans u8 (head u8 twenty_bits) (suc n))

push-Holds_example :
    (st : Memory × BitVec) × (push plain_cells msb0 u8 bytes true (mixed_memory, twenty) ≡ ok st)
    × Holds plain_cells msb0 u8 st (20 + 1) (λ i. if i == 20 then true else bit_at i)
    × (head u8 st.1.pointer ≡ head u8 twenty.pointer)
push-Holds_example =
    push-Holds plain_cells msb0 u8 bytes msb0-IsBitOrder 1000 bytes-IsAllocator true mixed_memory
      twenty 20 bit_at twenty-Holds (omega arith) (room_for (20 + 1) (omega arith))

pop-Holds_example :
    (◌≡◌ {A = ℕ} 20 0 → pop plain_cells msb0 u8 bytes (mixed_memory, twenty) ≡ ok (none, twenty))
    × ((k : ℕ)
        → ◌≡◌ {A = ℕ} 20 (suc k)
        → (b' : BitVec) × (pop plain_cells msb0 u8 bytes (mixed_memory, twenty)
            ≡ ok (some (bit_at k), b'))
          × Holds plain_cells msb0 u8 (mixed_memory, b') k bit_at)
pop-Holds_example = pop-Holds plain_cells msb0 u8 bytes mixed_memory twenty 20 bit_at twenty-Holds

insert-Holds_example :
    (4 ≤ 20
      → (st : Memory × BitVec) × (insert plain_cells msb0 u8 bytes 4 true (mixed_memory, twenty)
          ≡ some (ok st))
        × Holds plain_cells msb0 u8 st
            (20 + 1)
            (λ j. if ltb j 4 then bit_at j else if j == 4 then true else bit_at (j - 1)))
    × (20 < 4 → insert plain_cells msb0 u8 bytes 4 true (mixed_memory, twenty) ≡ some panic)
insert-Holds_example =
    insert-Holds plain_cells msb0 msb0-IsBitOrder u8 bytes 1000 bytes-IsAllocator 4 true
      mixed_memory twenty 20 bit_at twenty-Holds (omega arith) (room_for (20 + 1) (omega arith))

remove-Holds_example :
    (4 < 20
      → (st : Memory × BitVec) × (remove plain_cells msb0 u8 bytes 4 (mixed_memory, twenty)
          ≡ some (ok (bit_at 4, st.0, st.1)))
        × Holds plain_cells msb0 u8 st (20 - 1) (λ j. if ltb j 4 then bit_at j else bit_at (j + 1)))
    × (20 ≤ 4 → remove plain_cells msb0 u8 bytes 4 (mixed_memory, twenty) ≡ some panic)
remove-Holds_example =
    remove-Holds plain_cells msb0 msb0-IsBitOrder u8 bytes 4 mixed_memory twenty 20 bit_at
      twenty-Holds

resize-Holds_example :
    (st : Memory × BitVec) × (resize plain_cells msb0 u8 bytes 26 true (mixed_memory, twenty)
      ≡ ok st)
    × Holds plain_cells msb0 u8 st 26 (λ i. if ltb i 20 then bit_at i else true)
resize-Holds_example =
    resize-Holds plain_cells msb0 msb0-IsBitOrder u8 bytes 1000 bytes-IsAllocator 26 true
      mixed_memory twenty 20 bit_at twenty-Holds (omega arith) (room_for 26 (omega arith))

abbrev seven : BitPtr
seven = record { ptr = 40; len = 58 }

extend_from_slice-Holds_example :
    (st : Memory × BitVec) × (extend_from_slice plain_cells msb0 u8 bytes lsb0 u16 mixed_memory
        seven
        (mixed_memory, twenty)
      ≡ ok st)
    × Holds plain_cells msb0 u8 st (20 + len_of u16 seven) (λ i.
      if ltb i 20 then bit_at i else get_unchecked plain_cells lsb0 u16 mixed_memory seven (i - 20))
unfolding len_of
extend_from_slice-Holds_example =
    extend_from_slice-Holds plain_cells msb0 msb0-IsBitOrder u8 bytes 1000 bytes-IsAllocator lsb0
      u16 mixed_memory seven mixed_memory twenty 20 bit_at twenty-Holds (omega arith)
      (room_for (20 + len_of u16 seven) (omega arith))

abbrev three_items : List Bool
three_items = true ∷ false ∷ true ∷ []

from_iter-Holds_example :
    (st : Memory × BitVec) × (from_iter plain_cells msb0 u8 bytes 2 three_items mixed_memory
      ≡ ok st)
    × Holds plain_cells msb0 u8 st (count three_items) (bit_of three_items)
unfolding span_idx
from_iter-Holds_example =
    from_iter-Holds plain_cells msb0 u8 bytes 1000 bytes-IsAllocator msb0-IsBitOrder 2 three_items
      mixed_memory mixed-IsMemory (omega arith) (omega arith) (omega arith)

shl_assign-Holds_example :
    (st : Memory × BitVec) × (shl_assign plain_cells msb0 u8 7 (mixed_memory, twenty) ≡ ok st)
    × Holds plain_cells msb0 u8 st (20 - 7) (λ i. bit_at (i + 7))
shl_assign-Holds_example =
    shl_assign-Holds plain_cells msb0 msb0-IsBitOrder u8 7 mixed_memory twenty 20 bit_at
      twenty-Holds

shr_assign-Holds_example :
    (st : Memory × BitVec) × (shr_assign plain_cells msb0 u8 bytes 7 (mixed_memory, twenty) ≡ ok st)
    × Holds plain_cells msb0 u8 st (20 + 7) (λ i. if ltb i 7 then false else bit_at (i - 7))
shr_assign-Holds_example =
    shr_assign-Holds plain_cells msb0 msb0-IsBitOrder u8 bytes 1000 bytes-IsAllocator 7 mixed_memory
      twenty 20 bit_at twenty-Holds (omega arith) (room_for (20 + 7) (omega arith))

-- ===== src/Examples/ManualExamples.antt =====
-- A file that adds two ints and prints the sum, by the manual and by the machine.
use sprout_lang.Prelude.{ℕ, ◌≡◌, refl, Option, none, some, List, [], ◌∷◌, arith}
use sprout_lang.Prelude.Int.{pos, ◌+ℤ◌}
use sprout_lang.Result.{ok}
use sprout_lang.Values.{encode_int, unsigned64}
use sprout_lang.Vm.{int_line, Vm, BcHeader, set_reg, sprout_lang_magic, sprout_lang_version}
use sprout_lang.Bytecode.Header.{put_header}
use sprout_lang.Execution.Ints.{box}
use sprout_lang.Run.{run, main}
use sprout_lang.Run.Manual.{Effect, Instructs, Follows, halted, instruction, stopped, printed}
use sprout_lang.Run.Refines.{run-Follows}
use sprout_lang.Run.Whole.{booted, main-Follows}
use sprout_lang.Examples.{plain, blank, no_header}

abbrev sum_header : BcHeader
sum_header = record no_header {
  magic = sprout_lang_magic;
  version = sprout_lang_version;
  code_offset = 32;
}

-- load r0, 40; load r1, 2; add r2, r0, r1; end r2.
abbrev sum_code : List ℕ
sum_code =
    5 ∷ 0 ∷ 0 ∷ 0 ∷ 0x7F ∷ 0xF1 ∷ 0 ∷ 0 ∷ 0 ∷ 0 ∷ 0 ∷ 40 ∷ 5 ∷ 1 ∷ 0 ∷ 0 ∷ 0x7F ∷ 0xF1 ∷ 0 ∷ 0 ∷ 0
    ∷ 0 ∷ 0 ∷ 2 ∷ 0 ∷ 2 ∷ 0 ∷ 1 ∷ 4 ∷ 2 ∷ 0 ∷ 0 ∷ []

abbrev start : Vm
start = booted blank sum_header (put_header sum_header sum_code)

abbrev with_first : Vm
with_first = set_reg 0 (box (pos 40)) (record start { ip = 44 })

abbrev with_second : Vm
with_second = set_reg 1 (box (pos 2)) (record with_first { ip = 56 })

abbrev with_sum : Vm
with_sum = set_reg 2 (box (pos 42)) (record with_second { ip = 60 })

abbrev finished : Vm
finished = stopped (printed (int_line (pos 42)) (record with_sum { ip = 64 }))

loads_first : Instructs plain start with_first
unfolding encode_int unsigned64
loads_first = record {
  bytes = omega arith;
  small = omega arith;
  inside = omega arith;
  effect = Effect.load (omega arith);
}

loads_second : Instructs plain with_first with_second
unfolding encode_int unsigned64
loads_second = record {
  bytes = omega arith;
  small = omega arith;
  inside = omega arith;
  effect = Effect.load (omega arith);
}

adds : Instructs plain with_second with_sum
unfolding ◌+ℤ◌
adds = record {
  bytes = omega arith;
  small = omega arith;
  inside = omega arith;
  effect = Effect.add (pos 40) (pos 2) refl refl (omega arith) (omega arith);
}

ends : Instructs plain with_sum finished
ends = record {
  bytes = omega arith;
  small = omega arith;
  inside = omega arith;
  effect = Effect.end (pos 42) refl (omega arith);
}

sum-Follows : Follows plain 4 start finished
sum-Follows =
    instruction refl loads_first
      (instruction refl loads_second (instruction refl adds (instruction refl ends (halted refl))))

run-Follows_example : run plain 4 start ≡ ok finished
run-Follows_example = run-Follows plain 4 start finished sum-Follows

-- The only file, whatever the path.
abbrev one_file : List ℕ → Option (List ℕ)
one_file path = some (put_header sum_header sum_code)

main-Follows_example : main plain 4 one_file blank ([] ∷ [] ∷ []) ≡ ok (0, finished)
main-Follows_example =
    main-Follows plain 4 one_file blank finished [] [] [] sum_header sum_code refl
      (record {
        words = omega arith;
        magic = refl;
        version = refl;
        slots = omega arith;
        table = omega arith;
        small = omega arith;
      })
      sum-Follows

abbrev no_file : List ℕ → Option (List ℕ)
no_file path = none

-- ===== src/Examples.antt =====
-- Concrete states for the examples, and the example programs.
mod ValueExamples
mod MachineExamples
mod HeapExamples
mod ArenaExamples
mod LexerExamples
mod ParserExamples
mod ManualExamples
use sprout_lang.Prelude.{
  ℕ, ◌+◌, ◌*◌, ◌^◌, ◌==◌, ltb, List, [], ◌∷◌, Option, none, some, true, false, if◌then◌else◌,
}
use sprout_lang.Prelude.Int.{pos}
use sprout_lang.Ram.{Ram}
use sprout_lang.Vm.{BcHeader, FunctionInfo, Vm, Heap}
use sprout_lang.Execution.{Doubles}
use sprout_lang.Run.{empty_heap}

-- Some operations on bit patterns, in place of the machine's.
abbrev pub plain : Doubles
plain = record {
  add = λ a b. a;
  sub = λ a b. a;
  mul = λ a b. b;
  div = λ a b. b;
  eq = λ a b. a == b;
  lt = λ a b. ltb a b;
}

abbrev pub no_header : BcHeader
no_header = record {
  magic = 0;
  version = 0;
  flags = 0;
  import_count = 0;
  function_count = 0;
  import_offset = 0;
  function_offset = 0;
  code_offset = 0;
}

-- malloc answers 65536 and then 8 MB further at each call.
abbrev pub spare : Ram
spare = record { byte = λ x. 0; blocks = []; supply = λ n. some (65536 + n * 8388608); calls = 0 }

-- The zero-initialised machine of src/main.cpp.
abbrev pub blank : Vm
blank = record {
  header = no_header;
  reg = λ i. 0;
  bytecode = [];
  ip = 0;
  stack = λ i. 0;
  sp = 0;
  fp = 0;
  heap_a = empty_heap;
  heap_b = empty_heap;
  jmp_flag = pos 0;
  running = false;
  heap_a_used = false;
  function_table = λ i. record { entry_ip = 0; frame_size = 0 };
  memory = spare;
  output = [];
}

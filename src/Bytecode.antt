-- ===== src/Bytecode.antt =====
-- src/vm/bytecode.cpp: reading a file, its header and its function table. What std::ifstream finds
-- at a path is a parameter, `none` where the file cannot be opened.
pub mod Header
pub mod Table
use sprout_lang.Prelude.{
  ℕ, zero, suc, Option, none, some, [], ◌+◌, ◌-◌, ◌*◌, ◌/◌, ◌%◌, ◌^◌, List, ◌==◌, leb, ltb, length,
  if◌then◌else◌,
}
use sprout_lang.Result.{
  Result, ok, thrown, check, ensure, ◌>>=◌, ◌>>◌, header_too_small, bad_magic, bad_version,
  table_access,
}
use sprout_lang.Vm.{
  Vm, BcHeader, big_endian, sprout_lang_magic, sprout_lang_version, function_table_size, update,
  fetch_func_metadata,
}

-- The buffer for the file, if it is open.
unfoldable pub read_all : Option (List ℕ) → List ℕ
read_all none = []
read_all (some bytes) = if leb (length bytes) 0 then [] else bytes

unfoldable pub load_raw_bytecode : (List ℕ → Option (List ℕ)) → List ℕ → List ℕ
unfolding read_all
load_raw_bytecode files path = read_all (files path)

unfoldable pub load_bytecode : (List ℕ → Option (List ℕ)) → List ℕ → List ℕ
unfolding load_raw_bytecode
load_bytecode files path = load_raw_bytecode files path

unfoldable pub load_header : List ℕ → Result BcHeader
load_header bytecode = do
  check (leb 32 (length bytecode)) header_too_small
  let header : BcHeader = record {
    magic = big_endian bytecode 0;
    version = big_endian bytecode 4;
    flags = big_endian bytecode 8;
    import_count = big_endian bytecode 12;
    function_count = big_endian bytecode 16;
    import_offset = big_endian bytecode 20;
    function_offset = big_endian bytecode 24;
    code_offset = big_endian bytecode 28;
  }
  check (header.magic == sprout_lang_magic) bad_magic
  check (header.version == sprout_lang_version) bad_version
  ok header

-- The loop body for entry i, and the loop with `rounds` entries left. `i` and `addr` are uint32_t.
unfoldable pub load_entries : ℕ → ℕ → ℕ → Vm → Result Vm
load_entries zero i addr vm = ok vm
load_entries (suc rounds) i addr vm = do
  info ← fetch_func_metadata vm.bytecode addr
  ensure (ltb i function_table_size) table_access
  load_entries rounds (i + 1) ((addr + 8) % 2 ^ 32)
      (record vm { function_table = update vm.function_table i info })

unfoldable pub load_function_table : BcHeader → Vm → Result Vm
unfolding load_entries
load_function_table header vm = load_entries header.function_count 0 header.function_offset vm

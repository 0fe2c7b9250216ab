-- ===== src/Bytecode/Table.antt =====
-- The function table of src/vm/bytecode.cpp against the format of README.md: entry j at byte
-- 8 * j of the table, an entry address and a frame size, of which the code keeps 16 bits.
use sprout_lang.Prelude.{
  ℕ, zero, suc, ◌+◌, ◌*◌, ◌%◌, ◌^◌, ◌≤◌, ◌<◌, ◌≡◌, ap, inl, inr, refl, Bool-cases, ◌∙◌, List, ◌&&◌,
  length, leb, ltb, if◌then◌else◌, arith, lt→ltb,
}
use mathlib.Core.Path.{fun_ext}
use sprout_lang.Result.{ok, fault, table_access}
use sprout_lang.Vm.{
  Vm, BcHeader, FunctionInfo, big_endian, fetch_at_addr, fetch_func_metadata, function_table_size,
  update,
}
use sprout_lang.Bytecode.{load_entries, load_function_table}

-- Entry j of a table at offset `off` of a file.
abbrev pub entry_at : List ℕ → ℕ → ℕ → FunctionInfo
entry_at bytes off j = record {
  entry_ip = big_endian bytes (off + 8 * j);
  frame_size = big_endian bytes (off + 8 * j + 4) % 2 ^ 16;
}

abbrev pub with_table : Vm → (ℕ → FunctionInfo) → Vm
with_table vm t = record vm { function_table = t }

fetch_func_metadata-entry_at :
    (bytes : List ℕ) (addr : ℕ)
    → addr + 8 ≤ length bytes
    → length bytes < 2 ^ 32
    → fetch_func_metadata bytes addr
      ≡ ok (record {
        entry_ip = big_endian bytes addr;
        frame_size = big_endian bytes (addr + 4) % 2 ^ 16;
      })
unfolding fetch_func_metadata fetch_at_addr
fetch_func_metadata-entry_at bytes addr inside small = ground arith

-- The table with entries i to i + n - 1 read from a table at `off`.
abbrev loaded : List ℕ → ℕ → ℕ → ℕ → (ℕ → FunctionInfo) → ℕ → FunctionInfo
loaded bytes off i n t j = if leb i j && ltb j (i + n) then entry_at bytes off j else t j

load_entries-loaded :
    (n i off : ℕ) (vm : Vm)
    → i + n ≤ function_table_size
    → off + 8 * (i + n) ≤ length vm.bytecode
    → length vm.bytecode < 2 ^ 32
    → load_entries n i (off + 8 * i) vm
      ≡ ok (with_table vm (loaded vm.bytecode off i n vm.function_table))
unfolding load_entries
load_entries-loaded zero i off vm room inside small =
    ap (λ t. ok (with_table vm t)) (fun_ext λ j. ground arith)
load_entries-loaded (suc n) i off vm room inside small =
    rw
      (
        fetch_func_metadata-entry_at vm.bytecode (off + 8 * i) (omega arith) small,
        lt→ltb i function_table_size (omega arith),
        next,
      )
      (load_entries-loaded n (i + 1) off
          (with_table vm (update vm.function_table i (entry_at vm.bytecode off i))) (omega arith)
          (omega arith) small
        ∙ ap (λ t. ok (with_table vm t)) (fun_ext same))
  where
    next : (off + 8 * i + 8) % 2 ^ 32 ≡ off + 8 * (i + 1)
    next = omega arith

    same :
        (j : ℕ)
        → loaded vm.bytecode off
            (i + 1)
            n
            (update vm.function_table i (entry_at vm.bytecode off i))
            j
          ≡ loaded vm.bytecode off i (suc n) vm.function_table j
    same j = ground arith

-- A table that fits the file (below 4 GB) and the 2048 slots is loaded: every entry below the
-- count is the one in the file, every other slot and the rest of the state stay as they were.
pub load_function_table-entry_at :
    (h : BcHeader) (vm : Vm)
    → h.function_count ≤ function_table_size
    → h.function_offset + 8 * h.function_count ≤ length vm.bytecode
    → length vm.bytecode < 2 ^ 32
    → load_function_table h vm
      ≡ ok (
          with_table vm (λ j.
            if ltb j h.function_count
            then entry_at vm.bytecode h.function_offset j
            else vm.function_table j))
unfolding load_function_table
load_function_table-entry_at h vm room inside small =
    rw (ap (λ t. load_entries h.function_count 0 t vm) start) (
      load_entries-loaded h.function_count 0 h.function_offset vm (omega arith) (omega arith) small
      ∙ ap (λ t. ok (with_table vm t)) (fun_ext λ j. ground arith))
  where
    start : h.function_offset ≡ h.function_offset + 8 * 0
    start = omega arith

load_entries_overrun :
    (n i off : ℕ) (vm : Vm)
    → function_table_size < i + n
    → i ≤ function_table_size
    → off + 8 * (function_table_size + 1) ≤ length vm.bytecode
    → length vm.bytecode < 2 ^ 32
    → load_entries n i (off + 8 * i) vm ≡ fault table_access
unfolding load_entries
load_entries_overrun zero i off vm over low inside small = absurd (omega arith)
load_entries_overrun (suc n) i off vm over low inside small =
    rw (fetch_func_metadata-entry_at vm.bytecode (off + 8 * i) (omega arith) small)
      (elim (Bool-cases (ltb i function_table_size)) [
        | inl more ↦
            rw (more, next)
              (load_entries_overrun n (i + 1) off
                (with_table vm (update vm.function_table i (entry_at vm.bytecode off i)))
                (omega arith) (ground arith) inside small)
        | inr full ↦ rw full refl
      ])
  where
    next : (off + 8 * i + 8) % 2 ^ 32 ≡ off + 8 * (i + 1)
    next = omega arith

-- A header that counts more than 2048 functions, in a file with that many entries: the code does not
-- compare the count with the table's size, reads on and writes past the table.
pub load_function_table_overrun :
    (h : BcHeader) (vm : Vm)
    → function_table_size < h.function_count
    → h.function_offset + 8 * (function_table_size + 1) ≤ length vm.bytecode
    → length vm.bytecode < 2 ^ 32
    → load_function_table h vm ≡ fault table_access
unfolding load_function_table
load_function_table_overrun h vm over inside small =
    ap (λ t. load_entries h.function_count 0 t vm) start
    ∙ load_entries_overrun h.function_count 0 h.function_offset vm (omega arith) (omega arith)
        inside small
  where
    start : h.function_offset ≡ h.function_offset + 8 * 0
    start = omega arith

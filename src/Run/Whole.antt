-- ===== src/Run/Whole.antt =====
-- src/main.cpp: from a path on the command line to the exit code.
use sprout_lang.Prelude.{
  ℕ, ◌+◌, ◌*◌, ◌^◌, ◌≤◌, ◌<◌, ◌≡◌, refl, Option, some, List, [], ◌∷◌, true, ltb, length, arith,
  if◌then◌else◌,
}
use sprout_lang.Prelude.Int.{pos}
use sprout_lang.Result.{ok}
use sprout_lang.Vm.{Vm, BcHeader, sprout_lang_magic, sprout_lang_version, function_table_size}
use sprout_lang.Bytecode.{load_bytecode, read_all, load_header}
use sprout_lang.Bytecode.Header.{put_header, AreWords, load_header-put_header}
use sprout_lang.Bytecode.Table.{entry_at, load_function_table-entry_at}
use sprout_lang.Execution.{Doubles}
use sprout_lang.Run.{init, main, empty_heap}
use sprout_lang.Run.Manual.{Follows}
use sprout_lang.Run.Refines.{run-Follows}

-- The machine before its first instruction: the header, the entries of the table and the code of the
-- file, empty half-spaces; registers, stack and counters of before.
abbrev pub booted : Vm → BcHeader → List ℕ → Vm
booted vm h bytes = record vm {
  header = h;
  bytecode = bytes;
  function_table = λ j.
      if ltb j h.function_count then entry_at bytes h.function_offset j else vm.function_table j;
  ip = h.code_offset;
  heap_a_used = true;
  heap_a = empty_heap;
  heap_b = empty_heap;
  jmp_flag = pos 2;
  running = true;
}

-- A file of README.md's format with a table that fits.
pub record IsProgramFile (h : BcHeader) (rest : List ℕ) : Type 0 where
  pub words : AreWords h
  pub magic : h.magic ≡ sprout_lang_magic
  pub version : h.version ≡ sprout_lang_version
  pub slots : h.function_count ≤ function_table_size
  pub table : h.function_offset + 8 * h.function_count ≤ length (put_header h rest)
  pub small : length (put_header h rest) < 2 ^ 32

load_header_valid :
    (h : BcHeader) (rest : List ℕ) → IsProgramFile h rest → load_header (put_header h rest) ≡ ok h
load_header_valid h rest f =
    rw (load_header-put_header h rest f.words) (rw (f.magic, f.version) refl)

init-booted :
    (vm : Vm) (h : BcHeader) (rest : List ℕ)
    → IsProgramFile h rest
    → init vm (put_header h rest) ≡ ok (booted vm h (put_header h rest))
unfolding init
init-booted vm h rest f =
    rw
      (
        load_header_valid h rest f,
        load_function_table-entry_at h (record vm { bytecode = put_header h rest; header = h })
            f.slots f.table f.small,
      )
      refl

load_bytecode-some :
    (files : List ℕ → Option (List ℕ)) (path bytes : List ℕ)
    → files path ≡ some bytes
    → load_bytecode files path ≡ bytes
unfolding load_bytecode read_all
load_bytecode-some files path bytes e = rw e (whole bytes)
  where
    whole : (bytes : List ℕ) → read_all (some bytes) ≡ bytes
    whole [] = refl
    whole (b ∷ bytes) = ground arith

-- Of a file of README.md's format, with at most 2048 functions and a table that lies in it, whose
-- program follows the manual for n instructions and halts, main exits with 0 after running it to
-- the same state.
pub main-Follows :
    (F : Doubles) (n : ℕ) (files : List ℕ → Option (List ℕ)) (vm last : Vm) (name path : List ℕ)
    (more : List (List ℕ)) (h : BcHeader) (rest : List ℕ)
    → files path ≡ some (put_header h rest)
    → IsProgramFile h rest
    → Follows F n (booted vm h (put_header h rest)) last
    → main F n files vm (name ∷ path ∷ more) ≡ ok (0, last)
unfolding main
main-Follows F n files vm last name path more h rest e f r =
    rw
      (
        load_bytecode-some files path (put_header h rest) e,
        init-booted vm h rest f,
        run-Follows F n (booted vm h (put_header h rest)) last r,
      )
      refl

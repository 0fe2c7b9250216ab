-- ===== src/Bytecode/Header.antt =====
-- The header of src/vm/bytecode.cpp against the format of README.md: eight big-endian words.
use sprout_lang.Prelude.{
  ℕ, ◌*◌, ◌/◌, ◌%◌, ◌^◌, ◌<◌, ◌≡◌, List, ◌∷◌, bit_or, length, ◌==◌, if◌then◌else◌, arith,
}
use sprout_lang.Result.{ok, thrown, header_too_small, bad_magic, bad_version}
use sprout_lang.Vm.{BcHeader, big_endian, sprout_lang_magic, sprout_lang_version}
use sprout_lang.Vm.Words.{bit_or-word}
use sprout_lang.Bytecode.{load_header}

-- A word as four bytes, most significant first, in front of the rest.
abbrev pub put_word : ℕ → List ℕ → List ℕ
put_word w rest = (w / 2 ^ 24) ∷ (w / 2 ^ 16 % 256) ∷ (w / 2 ^ 8 % 256) ∷ (w % 256) ∷ rest

-- The format of README.md, "BCHeader fields", in front of the rest of a file.
abbrev pub put_header : BcHeader → List ℕ → List ℕ
put_header h rest = put_word h.magic (
    put_word h.version (
      put_word h.flags (
        put_word h.import_count (
          put_word h.function_count (
            put_word h.import_offset (put_word h.function_offset (put_word h.code_offset rest)))))))

abbrev pub AreWords : BcHeader → Type 0
AreWords h =
    (h.magic < 2 ^ 32)
    × (h.version < 2 ^ 32)
    × (h.flags < 2 ^ 32)
    × (h.import_count < 2 ^ 32)
    × (h.function_count < 2 ^ 32)
    × (h.import_offset < 2 ^ 32)
    × (h.function_offset < 2 ^ 32)
    × (h.code_offset < 2 ^ 32)

word_bytes :
    (w : ℕ)
    → w < 2 ^ 32
    → bit_or
        (bit_or
          (bit_or (w / 2 ^ 24 * 2 ^ 24) (w / 2 ^ 16 % 256 * 2 ^ 16))
          (w / 2 ^ 8 % 256 * 2 ^ 8))
        (w % 256)
      ≡ w
word_bytes w h = omega (
  arith,
  bit_or-word (w / 2 ^ 24) (w / 2 ^ 16 % 256) (w / 2 ^ 8 % 256) (w % 256) (omega arith)
      (omega arith) (omega arith) (omega arith),
)

-- Of a file in that format the header is read back if it has the magic and the version;
-- otherwise the exception for the first of the two that is wrong is thrown.
pub load_header-put_header :
    (h : BcHeader) (rest : List ℕ)
    → AreWords h
    → load_header (put_header h rest) ≡ (
        if h.magic == sprout_lang_magic
        then if h.version == sprout_lang_version then ok h else thrown bad_version
        else thrown bad_magic)
unfolding load_header big_endian
load_header-put_header h rest w =
    rw
      (
        word_bytes h.magic w.0,
        word_bytes h.version w.1,
        word_bytes h.flags w.2,
        word_bytes h.import_count w.3,
        word_bytes h.function_count w.4,
        word_bytes h.import_offset w.5,
        word_bytes h.function_offset w.6,
        word_bytes h.code_offset w.7,
      )
      (ground arith)

-- A file of fewer than 32 bytes is refused, whatever it holds.
pub load_header_short :
    (bytes : List ℕ) → length bytes < 32 → load_header bytes ≡ thrown header_too_small
unfolding load_header
load_header_short bytes h = ground arith

-- ===== src/Ram.antt =====
-- The memory that std::malloc hands out: bytes, and the live blocks. An access outside the live
-- blocks is undefined behaviour. `supply` is the environment: the answer to the n-th call of
-- malloc, `none` for a null pointer. Numbers are stored least significant byte first.
pub mod Laws
use sprout_lang.Prelude.{
  ℕ, zero, suc, ◌+◌, ◌-◌, ◌*◌, ◌/◌, ◌%◌, ◌^◌, Bool, true, false, ◌&&◌, ◌||◌, not, Option, none,
  some, List, [], ◌∷◌, ◌==◌, leb, ltb, if◌then◌else◌,
}
use sprout_lang.Result.{Result, ok, fault, memory_access, ensure, ◌>>=◌, ◌>>◌}

pub record Ram : Type 0 where
  pub byte : ℕ → ℕ
  pub blocks : List (ℕ × ℕ)
  pub supply : ℕ → Option ℕ
  pub calls : ℕ

-- The n bytes at address p lie in one live block.
unfoldable pub live : List (ℕ × ℕ) → ℕ → ℕ → Bool
live [] p n = false
live ((b, len) ∷ bs) p n = (leb b p && leb (p + n) (b + len)) || live bs p n

-- The number in the n bytes at p.
unfoldable pub read_bytes : (ℕ → ℕ) → ℕ → ℕ → ℕ
read_bytes f zero p = 0
read_bytes f (suc n) p = f p + 256 * read_bytes f n (p + 1)

unfoldable pub write_bytes : (ℕ → ℕ) → ℕ → ℕ → ℕ → ℕ → ℕ
write_bytes f n p v x = if leb p x && ltb x (p + n) then v / 256 ^ (x - p) % 256 else f x

unfoldable pub load : ℕ → ℕ → Ram → Result ℕ
load n p m = do ensure (live m.blocks p n) memory_access; ok (read_bytes m.byte n p)

unfoldable pub store : ℕ → ℕ → ℕ → Ram → Result Ram
store n p v m = do
  ensure (live m.blocks p n) memory_access
  ok (record m { byte = write_bytes m.byte n p v })

-- std::memset with 0, and std::memcpy.
unfoldable pub clear : ℕ → ℕ → Ram → Result Ram
clear p n m = do
  ensure (live m.blocks p n) memory_access
  ok (record m { byte = λ x. if leb p x && ltb x (p + n) then 0 else m.byte x })

unfoldable pub copy : ℕ → ℕ → ℕ → Ram → Result Ram
copy to from n m = do
  ensure (live m.blocks to n && live m.blocks from n) memory_access
  ok (record m {
    byte = λ x. if leb to x && ltb x (to + n) then m.byte (from + (x - to)) else m.byte x;
  })

-- std::malloc and std::free.
unfoldable pub malloc : ℕ → Ram → Option ℕ × Ram
malloc n m = elim (m.supply m.calls) [
  | none ↦ (none, record m { calls = m.calls + 1 })
  | some p ↦ (some p, record m { calls = m.calls + 1; blocks = (p, n) ∷ m.blocks })
]

unfoldable pub remove_block : ℕ → List (ℕ × ℕ) → List (ℕ × ℕ)
remove_block p [] = []
remove_block p ((b, len) ∷ bs) = if b == p then bs else (b, len) ∷ remove_block p bs

unfoldable pub free : ℕ → Ram → Ram
free p m = record m { blocks = remove_block p m.blocks }

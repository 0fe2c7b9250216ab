-- ===== src/Ram/Laws.antt =====
-- Reads after writes on the memory of the model.
use sprout_lang.Prelude.{
  ℕ, zero, suc, ◌+◌, ◌-◌, ◌*◌, ◌/◌, ◌%◌, ◌^◌, ◌≤◌, ◌<◌, ◌≡◌, refl, ap, sym, ◌∙◌, ◌⊎◌, List, true,
  [], ◌∷◌, arith,
}
use native.Mathlib.Numerals.{towards_suc}
use mathlib.Core.Path.{ap₂}
use native.Mathlib.Nat.{
  pow-suc, one-le-pow, mod-eq_of_lt, add-mul-mod_self_left, div-div-eq-div-mul, mod-lt, mul_comm,
  div-add-mod,
}
use sprout_lang.Ram.{Ram, live, read_bytes, write_bytes, load, store}
use sprout_lang.Result.{ok}

-- Every cell holds a byte.
abbrev pub BytesOnly : (ℕ → ℕ) → Type 0
BytesOnly f = (x : ℕ) → f x < 256

pub read_bytes-lt : (f : ℕ → ℕ) (n p : ℕ) → BytesOnly f → read_bytes f n p < 256 ^ n
unfolding read_bytes
read_bytes-lt f zero p h = omega arith
read_bytes-lt f (suc n) p h = omega (arith, h p, read_bytes-lt f n (p + 1) h, pow-suc 256 n)

pub write_bytes-BytesOnly : (f : ℕ → ℕ) (n p v : ℕ) → BytesOnly f → BytesOnly (write_bytes f n p v)
unfolding write_bytes
write_bytes-BytesOnly f n p v h x = ground (arith, h x, mod-lt (v / 256 ^ (x - p)) {m = 256})

-- A read sees only the bytes that it covers.
pub read_bytes_congr :
    (f g : ℕ → ℕ) (n p : ℕ)
    → ((x : ℕ) → p ≤ x → x < p + n → f x ≡ g x)
    → read_bytes f n p ≡ read_bytes g n p
unfolding read_bytes
read_bytes_congr f g zero p same = refl
read_bytes_congr f g (suc n) p same = omega (
  arith,
  same p (omega arith) (omega arith),
  read_bytes_congr f g n (p + 1) (λ x lo hi. same x (omega arith) (omega arith)),
)

pub read_bytes-write_bytes_apart :
    (f : ℕ → ℕ) (n p v m q : ℕ)
    → (p + n ≤ q) ⊎ (q + m ≤ p)
    → read_bytes (write_bytes f n p v) m q ≡ read_bytes f m q
unfolding write_bytes
read_bytes-write_bytes_apart f n p v m q apart =
    read_bytes_congr (write_bytes f n p v) f m q (λ x lo hi. ground arith)

-- A number's low byte and the rest of its bytes.
mod-bytes : (x m : ℕ) → 0 < m → x % 256 + 256 * (x / 256 % m) ≡ x % (256 * m)
mod-bytes x m pos = sym (
    ap (λ (t : ℕ). t % (256 * m)) whole
    ∙ add-mul-mod_self_left low (256 * m) (x / 256 / m)
    ∙ mod-eq_of_lt below)
  where
    low : ℕ
    low = x % 256 + 256 * (x / 256 % m)

    whole : x ≡ low + 256 * m * (x / 256 / m)
    whole = omega (arith, div-add-mod (x / 256) m)

    below : low < 256 * m
    below = omega (arith, mod-lt (x / 256) pos)

write_bytes_at :
    (f : ℕ → ℕ) (n k p v : ℕ) → write_bytes f (k + suc n) p v (p + k) ≡ v / 256 ^ k % 256
unfolding write_bytes
write_bytes_at f n k p v = ground (arith, ap (λ (t : ℕ). v / 256 ^ t % 256) (offset p k))
  where
    offset : (p k : ℕ) → p + k - p ≡ k
    offset p k = omega arith

read_bytes-write_bytes_from :
    (f : ℕ → ℕ) (n k p v : ℕ)
    → read_bytes (write_bytes f (k + n) p v) n (p + k) ≡ v / 256 ^ k % 256 ^ n
unfolding read_bytes
read_bytes-write_bytes_from f zero k p v = omega arith
read_bytes-write_bytes_from f (suc n) k p v =
    rw
      (
        write_bytes_at f n k p v,
        regroup ∙ read_bytes-write_bytes_from f n (k + 1) p v ∙ ap (λ (t : ℕ). t % 256 ^ n) shifted,
      )
      (mod-bytes (v / 256 ^ k) (256 ^ n) (one-le-pow n 256 (omega arith))
        ∙ ap (λ (t : ℕ). v / 256 ^ k % t) (sym (pow-suc 256 n ∙ mul_comm (256 ^ n) 256)))
  where
    regroup :
        read_bytes (write_bytes f (k + suc n) p v) n (p + k + 1)
        ≡ read_bytes (write_bytes f (k + 1 + n) p v) n (p + (k + 1))
    regroup = ap₂ (λ (a b : ℕ). read_bytes (write_bytes f a p v) n b) (omega arith) (omega arith)

    shifted : v / 256 ^ (k + 1) ≡ v / 256 ^ k / 256
    shifted =
        simp towards_suc
          (ap (λ (t : ℕ). v / t) (pow-suc 256 k) ∙ sym (div-div-eq-div-mul v (256 ^ k) 256))

-- What was written is read, up to the width.
pub read_bytes-write_bytes_same :
    (f : ℕ → ℕ) (n p v : ℕ) → v < 256 ^ n → read_bytes (write_bytes f n p v) n p ≡ v
read_bytes-write_bytes_same f n p v h =
    ap₂ (λ (a b : ℕ). read_bytes (write_bytes f a p v) n b) (omega arith) (omega arith)
    ∙ read_bytes-write_bytes_from f n 0 p v
    ∙ ap (λ (t : ℕ). t % 256 ^ n) (omega arith)
    ∙ mod-eq_of_lt h

-- A part of live memory is live.
pub live_part :
    (bs : List (ℕ × ℕ)) (b len p n : ℕ)
    → live bs b len ≡ true
    → b ≤ p
    → p + n ≤ b + len
    → live bs p n ≡ true
unfolding live
live_part [] b len p n h lo hi = cc
live_part ((c, l) ∷ bs) b len p n h lo hi = ground (arith, live_part bs b len p n)

pub store-live :
    (n p v : ℕ) (m : Ram)
    → live m.blocks p n ≡ true
    → store n p v m ≡ ok (record m { byte = write_bytes m.byte n p v })
unfolding store
store-live n p v m h = rw h refl

pub load-live :
    (n p : ℕ) (m : Ram) → live m.blocks p n ≡ true → load n p m ≡ ok (read_bytes m.byte n p)
unfolding load
load-live n p m h = rw h refl

-- ===== src/Bytes/Words.antt =====
-- The big-endian bytes of a number.
use sealed_sky_verification.Common.{
  ℕ, zero, suc, ◌+◌, ◌*◌, ◌/◌, ◌%◌, ◌^◌, ◌<◌, ◌≡◌, ap, sym, ◌∙◌, [], ◌∷◌, length, All, arith,
}
use sealed_sky_verification.Base64.Laws.{IsByte}
use sealed_sky_verification.Bytes.{Bytes, u64_loop, u64_be_bytes}

-- The number that bytes spell, the highest first, behind the number `n`.
abbrev pub be_value : ℕ → Bytes → ℕ
be_value n [] = n
be_value n (b ∷ bs) = be_value (n * 256 + b) bs

-- `i` rounds put the lowest `i` bytes of `v` before `out`.
be_value-u64_loop :
    (i v n : ℕ) (out : Bytes) → v < 256 ^ i → be_value 0 (u64_loop i v out) ≡ be_value v out
unfolding u64_loop
be_value-u64_loop zero v n out h = ap (λ (k : ℕ). be_value k out) (omega arith)
be_value-u64_loop (suc i) v n out h =
    be_value-u64_loop i (v / 256) n ((v % 256) ∷ out) (grind arith)
    ∙ ap (λ (k : ℕ). be_value k out) (omega arith)

u64_loop-IsByte : (i v : ℕ) (out : Bytes) → All IsByte out → All IsByte (u64_loop i v out)
unfolding u64_loop
u64_loop-IsByte zero v out h = h
u64_loop-IsByte (suc i) v out h = u64_loop-IsByte i (v / 256) ((v % 256) ∷ out) (omega arith, h)

length-u64_loop : (i v : ℕ) (out : Bytes) → length (u64_loop i v out) ≡ i + length out
unfolding u64_loop
length-u64_loop zero v out = omega arith
length-u64_loop (suc i) v out = omega (arith, length-u64_loop i (v / 256) ((v % 256) ∷ out))

pub length-u64_be_bytes : (n : ℕ) → length (u64_be_bytes n) ≡ 8
unfolding u64_be_bytes
length-u64_be_bytes n = length-u64_loop 8 n []

u64_be_bytes-IsByte : (n : ℕ) → All IsByte (u64_be_bytes n)
unfolding u64_be_bytes
u64_be_bytes-IsByte n = u64_loop-IsByte 8 n [] tt

-- Eight bytes, read with the highest first, are the number again.
be_value-u64_be_bytes : (n : ℕ) → n < 2 ^ 64 → be_value 0 (u64_be_bytes n) ≡ n
unfolding u64_be_bytes
be_value-u64_be_bytes n h = be_value-u64_loop 8 n 0 [] (omega arith)

pub u64_be_bytes_injective :
    (m n : ℕ) → m < 2 ^ 64 → n < 2 ^ 64 → u64_be_bytes m ≡ u64_be_bytes n → m ≡ n
u64_be_bytes_injective m n p q e =
    sym (be_value-u64_be_bytes m p) ∙ ap (be_value 0) e ∙ be_value-u64_be_bytes n q

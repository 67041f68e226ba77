-- ===== src/Symmetric/Compare.antt =====
-- The constant-time comparison decides equality.
use sealed_sky_verification.Common.{ℕ, ◌≡◌, refl, true, [], ◌∷◌, ◌↔◌, arith, length}
use sealed_sky_verification.Common.Text.{Text}
use sealed_sky_verification.Common.Bits.{bit_or-eq-zero_iff, bit_xor-eq-zero_iff}
use sealed_sky_verification.Symmetric.{diff_loop, constant_time_eq_hex}
use Prim.Native.Nat.{bit_or, bit_xor}

diff_loop_sound :
    (diff : ℕ) (a b : Text) → length a ≡ length b → diff_loop diff a b ≡ 0 → (diff ≡ 0) × (a ≡ b)
unfolding diff_loop
diff_loop_sound diff [] [] e h = (h, refl)
diff_loop_sound diff [] (y ∷ b) e h = absurd (omega arith)
diff_loop_sound diff (x ∷ a) [] e h = absurd (omega arith)
diff_loop_sound diff (x ∷ a) (y ∷ b) e h =
    let (zero_or, same) = diff_loop_sound (bit_or diff (bit_xor x y)) a b (omega arith) h in
    let (d, xor) = (bit_or-eq-zero_iff diff (bit_xor x y)).0 zero_or in
    (d, cc ((bit_xor-eq-zero_iff x y).0 xor))

diff_loop_self : (a : Text) → diff_loop 0 a a ≡ 0
unfolding diff_loop
diff_loop_self [] = refl
diff_loop_self (x ∷ a) =
    rw ((bit_or-eq-zero_iff 0 (bit_xor x x)).1 (refl, (bit_xor-eq-zero_iff x x).1 refl))
      (diff_loop_self a)

-- The comparison says true exactly for equal strings.
pub constant_time_eq_hex_iff : (a b : Text) → (constant_time_eq_hex a b ≡ true) ↔ (a ≡ b)
unfolding constant_time_eq_hex
constant_time_eq_hex_iff a b = (
  λ h. (diff_loop_sound 0 a b (ground arith) (ground arith)).1,
  λ e. rw e (ground (arith, diff_loop_self b)),
)

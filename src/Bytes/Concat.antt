-- ===== src/Bytes/Concat.antt =====
-- Writing parts into a zero-filled array joins them.
use sealed_sky_verification.Common.{
  ℕ, zero, suc, ◌+◌, ◌≡◌, refl, ◌∙◌, List, [], ◌∷◌, ◌++◌, length, drop, replicate, length-append,
  take-append,
}
use sealed_sky_verification.Bytes.{Bytes, total_length, set_at, concat_loop, concat}
use mathlib.Core.List.{append_assoc}
use native.Mathlib.Nat.{suc-add, zero-add}

-- The parts one after the other.
abbrev pub joined : List Bytes → Bytes
joined [] = []
joined (p ∷ parts) = p ++ joined parts

drop-append_add : (xs ys : Bytes) (n : ℕ) → drop (length xs + n) (xs ++ ys) ≡ drop n ys
drop-append_add [] ys n = rw (zero-add n)
drop-append_add (x ∷ xs) ys n = rw (suc-add (length xs) n) (drop-append_add xs ys n)

drop-replicate : (n m : ℕ) → drop n (replicate {A = ℕ} (n + m) 0) ≡ replicate m 0
drop-replicate zero m = rw (zero-add m)
drop-replicate (suc n) m = rw (suc-add n m) (drop-replicate n m)

set_at-replicate :
    (done p : Bytes) (n : ℕ)
    → set_at (done ++ replicate (length p + n) 0) p (length done) ≡ done ++ p ++ replicate n 0
unfolding set_at
set_at-replicate done p n =
    rw (take-append done _, drop-append_add done _ (length p), drop-replicate (length p) n)

-- What is written stands in `done`, and zeros fill the rest.
concat_loop-joined :
    (done : Bytes) (parts : List Bytes)
    → concat_loop (done ++ replicate (total_length parts) 0) (length done) parts
      ≡ done ++ joined parts
unfolding concat_loop total_length
concat_loop-joined done [] = refl
concat_loop-joined done (p ∷ parts) =
    rw (set_at-replicate done p (total_length parts), ← length-append done p)
      (concat_loop-joined (done ++ p) parts ∙ append_assoc done p (joined parts))

-- `concat` is the parts one after the other, for any number of parts of any length.
pub concat-joined : (parts : List Bytes) → concat parts ≡ joined parts
unfolding concat
concat-joined parts = concat_loop-joined [] parts

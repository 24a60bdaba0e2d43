-- ===== src/Security/Xor.antt =====
-- Exclusive or of bytes.
use Prim.Native.Nat.{bit_xor}
use inference_lab.Prelude.{
  ℕ, ◌<◌, ◌≡◌, refl, Bool, true, ◌&&◌, ◌==◌, ℕ-eq, nat_eqb_iff, ltb, holds_below, holds_below_sound,
  and_split, arith,
}

abbrev undone : ℕ → ℕ → Bool
undone k v = (bit_xor (bit_xor v k) k == v) && ltb (bit_xor v k) 256

xor_table : holds_below 256 (λ k. holds_below 256 (undone k)) ≡ true
unfolding holds_below
xor_table = refl

-- A byte that is combined twice with the same byte is itself again.
pub bit_xor_twice :
    (k v : ℕ) → k < 256 → v < 256 → (bit_xor (bit_xor v k) k ≡ v) × (bit_xor v k < 256)
bit_xor_twice k v hk hv =
    let row = holds_below_sound 256 (λ n. holds_below 256 (undone n)) k xor_table hk in
    let (back, byte) =
      and_split (bit_xor (bit_xor v k) k == v) (ltb (bit_xor v k) 256)
        (holds_below_sound 256 (undone k) v row hv) in
    ((nat_eqb_iff (bit_xor (bit_xor v k) k) v).0 back, ground arith)

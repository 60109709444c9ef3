-- ===== src/SyncFile/Bytes.antt =====
-- How tools/sync_file lays integers and buffers out in memory: an int64_t is eight bytes, the
-- lowest first, on both sides; a read into a buffer replaces a beginning of it.
use native.Mathlib.Nat.{pow-suc}
use algo.Prelude.{
  ℕ, zero, suc, ◌+◌, ◌*◌, ◌/◌, ◌%◌, ◌^◌, ◌≤◌, ◌<◌, ◌≡◌, refl, ap, List, [], ◌∷◌, ◌++◌, arith,
  length, drop, length-append, length-drop, drop_all, take, take-append, append-nil,
}

unfoldable pub le_bytes : ℕ → ℕ → List ℕ
le_bytes zero v = []
le_bytes (suc k) v = (v % 256) ∷ le_bytes k (v / 256)

unfoldable pub le_value : List ℕ → ℕ
le_value [] = 0
le_value (b ∷ bs) = b + 256 * le_value bs

pub length-le_bytes : (k v : ℕ) → length (le_bytes k v) ≡ k
unfolding le_bytes
length-le_bytes zero v = refl
length-le_bytes (suc k) v = ap suc (length-le_bytes k (v / 256))

pub le_value-le_bytes : (k v : ℕ) → v < 256 ^ k → le_value (le_bytes k v) ≡ v
unfolding le_bytes le_value
le_value-le_bytes zero v h = omega arith
le_value-le_bytes (suc k) v h =
    omega (arith, le_value-le_bytes k (v / 256) (omega (arith, pow-suc 256 k)))

-- A read of `got` into the start of `buff`, where it fits.
unfoldable pub overlay : List ℕ → List ℕ → List ℕ
overlay got buff = got ++ drop (length got) buff

pub length-overlay :
    (got buff : List ℕ) → length got ≤ length buff → length (overlay got buff) ≡ length buff
unfolding overlay
length-overlay got buff h =
    omega (arith, length-append got (drop (length got) buff), length-drop (length got) buff)

-- A whole length read over the eight zero bytes of a fresh variable.
pub le_value-overlay : (v : ℕ) → v < 256 ^ 8 → le_value (overlay (le_bytes 8 v) (le_bytes 8 0)) ≡ v
unfolding overlay
le_value-overlay v h =
    let l8 = length-le_bytes 8 v in
    rw (l8, drop_all 8 (le_bytes 8 0) (omega (arith, length-le_bytes 8 0)), append-nil)
      (le_value-le_bytes 8 v h)

pub take-overlay : (got buff : List ℕ) → take (length got) (overlay got buff) ≡ got
unfolding overlay
take-overlay got buff = take-append (length got) got (drop (length got) buff) refl

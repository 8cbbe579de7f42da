-- ===== src/IoUtil/Ids.antt =====
-- src/utils/IOUtil.H: localIDtoGlobal, the id of a particle in the output.
use native.Mathlib.Omega.{pow_step}
use native.Mathlib.Nat.{zero-add}
use hipace.Prelude.{
  ℕ, zero, suc, ◌+◌, ◌-◌, ◌*◌, ◌/◌, ◌%◌, ◌^◌, ◌<◌, ◌≡◌, refl, ◌∙◌, ap, max, ℤ, pos, negsuc, arith,
}

-- uint64_t(i) for an `int`: a negative one wraps around.
unfoldable pub to_uint64 : ℤ → ℕ
to_uint64 (pos n) = n % 2 ^ 64
to_uint64 (negsuc n) = 2 ^ 64 - 1 - n % 2 ^ 64

-- `a | b` on the lowest `width` bits.
unfoldable pub bit_or : (width : ℕ) → ℕ → ℕ → ℕ
bit_or zero a b = 0
bit_or (suc width) a b = max (a % 2) (b % 2) + 2 * bit_or width (a / 2) (b / 2)

unfoldable pub local_id_to_global : (id cpu : ℤ) → ℕ
local_id_to_global id cpu = bit_or 64 (to_uint64 id) (to_uint64 cpu * 2 ^ 32 % 2 ^ 64)

bit_or-zero : (width b : ℕ) → b < 2 ^ width → bit_or width 0 b ≡ b
unfolding bit_or
bit_or-zero zero b h = omega (arith, h)
bit_or-zero (suc width) b h = omega (arith, h, bit_or-zero width (b / 2) (omega (arith, h)))

-- The step on a number whose lowest bit is not set.
bit_or-double : (width a c : ℕ) → bit_or (suc width) a (2 * c) ≡ a % 2 + 2 * bit_or width (a / 2) c
unfolding bit_or
bit_or-double width a c =
    let half : 2 * c / 2 ≡ c = omega arith in
    let low : max (a % 2) (2 * c % 2) ≡ a % 2 = omega arith in rw (half, low) refl

even_power : (k b : ℕ) → b * 2 ^ suc k ≡ 2 * (b * 2 ^ k)
even_power k b = rw (pow_step 2 k) (grind arith)

-- On bits that do not overlap, the disjunction is the sum.
bit_or-shift :
    (k width a b : ℕ) → a < 2 ^ k → b < 2 ^ width → bit_or (k + width) a (b * 2 ^ k) ≡ a + b * 2 ^ k
bit_or-shift zero width a b ha hb =
    let none_left : a ≡ 0 = omega (arith, ha) in
    let same : b * 2 ^ 0 ≡ b = omega arith in
    rw (none_left, same, zero-add width, zero-add b) (bit_or-zero width b hb)
bit_or-shift (suc k) width a b ha hb =
    let even : b * 2 ^ suc k ≡ 2 * (b * 2 ^ k) = even_power k b in
    let small : a / 2 < 2 ^ k = omega (arith, ha, pow_step 2 k) in
    let tail : bit_or (k + width) (a / 2) (b * 2 ^ k) ≡ a / 2 + b * 2 ^ k =
      bit_or-shift k width (a / 2) b small hb in
    let longer : suc k + width ≡ suc (k + width) = omega arith in
    ap (λ t. bit_or t a (b * 2 ^ suc k)) longer
    ∙ ap (bit_or (suc (k + width)) a) even
    ∙ bit_or-double (k + width) a (b * 2 ^ k)
    ∙ omega (arith, tail, even)

global_sum :
    (id cpu : ℕ)
    → id < 2 ^ 31
    → cpu < 2 ^ 31
    → local_id_to_global (pos id) (pos cpu) ≡ id + cpu * 2 ^ 32
unfolding local_id_to_global to_uint64
global_sum id cpu h hc =
    let low : id % 2 ^ 64 ≡ id = omega (arith, h) in
    let high : cpu % 2 ^ 64 * 2 ^ 32 % 2 ^ 64 ≡ cpu * 2 ^ 32 = omega (arith, hc) in
    rw (low, high) (bit_or-shift 32 32 id cpu (omega (arith, h)) (omega (arith, hc)))

-- The global id holds both the local id and the number of the process: for ids and processes that are
-- not negative, two particles with the same global id have the same local id and the same process.
pub local_id_to_global_injective :
    (id cpu other_id other_cpu : ℕ)
    → id < 2 ^ 31
    → cpu < 2 ^ 31
    → other_id < 2 ^ 31
    → other_cpu < 2 ^ 31
    → local_id_to_global (pos id) (pos cpu) ≡ local_id_to_global (pos other_id) (pos other_cpu)
    → (id ≡ other_id) × (cpu ≡ other_cpu)
local_id_to_global_injective id cpu other_id other_cpu h hc k kc same =
    let sum = global_sum id cpu h hc in
    let other = global_sum other_id other_cpu k kc in
    (omega (arith, same, sum, other, h, k), omega (arith, same, sum, other, h, k))

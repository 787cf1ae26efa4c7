-- ===== src/Base/Digits.antt =====
-- Fields of bits, and the bitwise operations on them.
use Prim.Native.Nat.{
  ℕ, zero, suc, ◌+◌, ◌-◌, ◌*◌, ◌/◌, ◌%◌, ◌^◌, ◌≤◌, ◌<◌, min, max, bit_and, bit_or,
}
use mathlib.Core.Path.{◌≡◌, refl, sym, ap, ap₂, ◌∙◌}
use native.Mathlib.Omega.{arith}
use native.Mathlib.Nat.{
  pow-suc, le_refl, one-le-pow, mod-lt, div-add-mod', mul-add-mod_self_right, mod-eq_of_lt,
  add_comm, add-mul-div_right, div-eq_of_lt,
}
use Prim.Native.Nat.add
use chp_os.Base.Lowest.{
  bit_or-digit, bit_and-digit, bit_or_zero_left, bit_or_zero_right, bit_and_zero_left,
  bit_and_zero_right,
}

mul-pow-suc : (q k : ℕ) → q * 2 ^ suc k ≡ 2 * (q * 2 ^ k)
mul-pow-suc q k = omega (arith, ap (λ (t : ℕ). q * t) (pow-suc 2 k))

-- A mask of `k` ones is the remainder by `2 ^ k`.
pub bit_and_low : (k a : ℕ) → bit_and a (2 ^ k - 1) ≡ a % 2 ^ k
bit_and_low zero a = omega (arith, bit_and_zero_right a)
bit_and_low (suc k) a =
    let room : 0 < 2 ^ k = one-le-pow k 2 (omega arith) in
    let half : (2 ^ suc k - 1) / 2 ≡ 2 ^ k - 1 = omega (arith, pow-suc 2 k) in
    let below : bit_and (a / 2) ((2 ^ suc k - 1) / 2) ≡ a / 2 % 2 ^ k =
      ap (bit_and (a / 2)) half ∙ bit_and_low k (a / 2) in
    let r = a / 2 % 2 ^ k * 2 + a % 2 in
    let fits : r < 2 ^ suc k = omega (arith, mod-lt (a / 2) room, pow-suc 2 k) in
    let split : a ≡ a / 2 / 2 ^ k * 2 ^ suc k + r =
      omega (arith, div-add-mod' (a / 2) (2 ^ k), mul-pow-suc (a / 2 / 2 ^ k) k) in
    let digits : a % 2 ^ suc k ≡ r =
      ap (λ x. x % 2 ^ suc k) split ∙ mul-add-mod_self_right _ _ _ ∙ mod-eq_of_lt fits in
    omega (arith, bit_and-digit a (2 ^ suc k - 1), below, digits, pow-suc 2 k)

-- The `w` bits of `x` from bit `k` on.
abbrev pub bits : ℕ → ℕ → ℕ → ℕ
bits k w x = x / 2 ^ k % 2 ^ w

-- An operation given by its lowest digit acts apart on the parts above and below bit `k`.
module _ (op g : ℕ → ℕ → ℕ)
    (digit : (a b : ℕ) → op a b ≡ op (a / 2) (b / 2) * 2 + g (a % 2) (b % 2))
    (small : (a b : ℕ) → g (a % 2) (b % 2) < 2) (nothing : op 0 0 ≡ 0) where
  digit_at :
      {a b r s : ℕ} (q p : ℕ)
      → a ≡ 2 * q + r
      → b ≡ 2 * p + s
      → r < 2
      → s < 2
      → op a b ≡ op q p * 2 + g r s
  digit_at {a} {b} {r} {s} q p ea eb hr hs =
      let qa : a / 2 ≡ q = omega arith in
      let pb : b / 2 ≡ p = omega arith in
      let ra : a % 2 ≡ r = omega arith in
      let sb : b % 2 ≡ s = omega arith in
      digit a b ∙ ap₂ (λ x y. x * 2 + y) (ap₂ op qa pb) (ap₂ g ra sb)

  op_halves :
      (k q p r s : ℕ)
      → r < 2 ^ k
      → s < 2 ^ k
      → (op (q * 2 ^ k + r) (p * 2 ^ k + s) ≡ op q p * 2 ^ k + op r s) × (op r s < 2 ^ k)
  op_halves zero q p zero zero hr hs =
      let above : op (q * 1 + 0) (p * 1 + 0) ≡ op q p = ap₂ op (omega arith) (omega arith) in
      omega (arith, above, nothing)
  op_halves zero q p (suc r) s hr hs = absurd (omega arith)
  op_halves zero q p zero (suc s) hr hs = absurd (omega arith)
  op_halves (suc k) q p r s hr hs =
      let ih =
        op_halves k q p (r / 2) (s / 2) (omega (arith, pow-suc 2 k)) (omega (arith, pow-suc 2 k)) in
      let high =
        digit_at {a = q * 2 ^ suc k + r} {b = p * 2 ^ suc k + s} {r = r % 2} {s = s % 2}
          (q * 2 ^ k + r / 2) (p * 2 ^ k + s / 2) (omega (arith, mul-pow-suc q k))
          (omega (arith, mul-pow-suc p k)) (omega arith) (omega arith) in
      omega (arith, ih, high, digit r s, small r s, pow-suc 2 k, mul-pow-suc (op q p) k)

  op_split :
      (k a b : ℕ)
      → (op a b ≡ op (a / 2 ^ k) (b / 2 ^ k) * 2 ^ k + op (a % 2 ^ k) (b % 2 ^ k))
        × (op (a % 2 ^ k) (b % 2 ^ k) < 2 ^ k)
  op_split k a b =
      let room : 0 < 2 ^ k = one-le-pow k 2 (omega arith) in
      let parts = op_halves k (a / 2 ^ k) (b / 2 ^ k) _ _ (mod-lt a room) (mod-lt b room) in
      (ap₂ op (sym (div-add-mod' a (2 ^ k))) (sym (div-add-mod' b (2 ^ k))) ∙ parts.0, parts.1)

  pub op-mod : (k a b : ℕ) → op a b % 2 ^ k ≡ op (a % 2 ^ k) (b % 2 ^ k)
  op-mod k a b =
      let (sum, low) = op_split k a b in
      ap (λ x. x % 2 ^ k) sum ∙ mul-add-mod_self_right _ _ _ ∙ mod-eq_of_lt low

  pub op-div : (k a b : ℕ) → op a b / 2 ^ k ≡ op (a / 2 ^ k) (b / 2 ^ k)
  op-div k a b =
      let (sum, low) = op_split k a b in
      ap (λ x. x / 2 ^ k) (sum ∙ add_comm _ _)
      ∙ add-mul-div_right _ _ (one-le-pow k 2 (omega arith))
      ∙ ap (λ x. x + op (a / 2 ^ k) (b / 2 ^ k)) (div-eq_of_lt low)
      ∙ add.zero _

max_small : (a b : ℕ) → max (a % 2) (b % 2) < 2
max_small a b = omega arith

min_small : (a b : ℕ) → min (a % 2) (b % 2) < 2
min_small a b = omega arith

-- The operations act on each field of bits.
pub bits-bit_or : (k w a b : ℕ) → bits k w (bit_or a b) ≡ bit_or (bits k w a) (bits k w b)
bits-bit_or k w a b =
    ap (λ x. x % 2 ^ w) (op-div bit_or max bit_or-digit max_small refl k a b)
    ∙ op-mod bit_or max bit_or-digit max_small refl w _ _

pub bits-bit_and : (k w a b : ℕ) → bits k w (bit_and a b) ≡ bit_and (bits k w a) (bits k w b)
bits-bit_and k w a b =
    ap (λ x. x % 2 ^ w) (op-div bit_and min bit_and-digit min_small refl k a b)
    ∙ op-mod bit_and min bit_and-digit min_small refl w _ _

-- `(q << k) | r` is a sum where `r` fits `k` bits.
pub bit_or_fields : (k q r : ℕ) → r < 2 ^ k → bit_or (q * 2 ^ k) r ≡ q * 2 ^ k + r
bit_or_fields k q r fits =
    let room : 0 < 2 ^ k = one-le-pow k 2 (omega arith) in
    let halves = op_halves bit_or max bit_or-digit max_small refl k q 0 0 r room fits in
    ap₂ bit_or (omega arith) (omega arith)
    ∙ halves.0
    ∙ ap₂ (λ x y. x * 2 ^ k + y) (bit_or_zero_right q) (bit_or_zero_left r)

-- `|` of two values that are both split at bit `k`.
pub bit_or_halves :
    (k q p r s : ℕ)
    → r < 2 ^ k
    → s < 2 ^ k
    → bit_or (q * 2 ^ k + r) (p * 2 ^ k + s) ≡ bit_or q p * 2 ^ k + bit_or r s
bit_or_halves k q p r s hr hs = (op_halves bit_or max bit_or-digit max_small refl k q p r s hr hs).0

-- A mask of `w` ones from bit `k` on keeps those bits in their place.
pub bit_and_field : (k w x : ℕ) → bit_and x ((2 ^ w - 1) * 2 ^ k) ≡ bits k w x * 2 ^ k
bit_and_field k w x =
    let room : 0 < 2 ^ k = one-le-pow k 2 (omega arith) in
    let halves =
      op_halves bit_and min bit_and-digit min_small refl k (x / 2 ^ k) (2 ^ w - 1) (x % 2 ^ k) 0
        (mod-lt x room) room in
    ap₂ bit_and (sym (div-add-mod' x (2 ^ k))) (omega arith)
    ∙ halves.0
    ∙ ap₂ (λ a b. a * 2 ^ k + b) (bit_and_low w (x / 2 ^ k)) (bit_and_zero_right _)
    ∙ omega arith

bit_and_comm_fuel : (n a b : ℕ) → a ≤ n → bit_and a b ≡ bit_and b a
bit_and_comm_fuel n zero b h = omega (arith, bit_and_zero_left b, bit_and_zero_right b)
bit_and_comm_fuel zero (suc a) b h = absurd (omega arith)
bit_and_comm_fuel (suc n) (suc a) b h = omega (
  arith,
  bit_and-digit (suc a) b,
  bit_and-digit b (suc a),
  bit_and_comm_fuel n (suc a / 2) (b / 2) (omega arith),
)

pub bit_and_comm : (a b : ℕ) → bit_and a b ≡ bit_and b a
bit_and_comm a b = bit_and_comm_fuel a a b (le_refl a)

-- The same with the mask on the left.
pub bit_and_mask : (k w x : ℕ) → bit_and ((2 ^ w - 1) * 2 ^ k) x ≡ bits k w x * 2 ^ k
bit_and_mask k w x = bit_and_comm _ x ∙ bit_and_field k w x

pub bit_or-lt : (k a b : ℕ) → a < 2 ^ k → b < 2 ^ k → bit_or a b < 2 ^ k
bit_or-lt k a b ha hb = (op_halves bit_or max bit_or-digit max_small refl k 0 0 a b ha hb).1

pub bit_or-mod : (k a b : ℕ) → bit_or a b % 2 ^ k ≡ bit_or (a % 2 ^ k) (b % 2 ^ k)
bit_or-mod = op-mod bit_or max bit_or-digit max_small refl

pub bit_and-mod : (k a b : ℕ) → bit_and a b % 2 ^ k ≡ bit_and (a % 2 ^ k) (b % 2 ^ k)
bit_and-mod = op-mod bit_and min bit_and-digit min_small refl

-- ===== src/Model/Division.antt =====
-- Quotient and remainder of native numbers, by the library's lemmas on the unary ones.
use mathlib.Core.Nat as M
use native.Mathlib.Bridge.{
  to_ℕ, from_ℕ, to_ℕ-from_ℕ, from_ℕ-to_ℕ, to_ℕ-+, to_ℕ-*, from_le, from_le⁻¹,
}
use native.Mathlib.DivMod.{from_ℕ-/, from_ℕ-%}
use tlrs.Prelude.{ℕ, suc, ◌+◌, ◌*◌, ◌/◌, ◌%◌, ◌≤◌, ◌<◌, ◌≡◌, sym, ap, ◌∙◌, subst, arith, zero, ◌-◌}

quotient : (a b : ℕ) → M.◌/◌ (to_ℕ a) (to_ℕ b) ≡ to_ℕ (a / b)
quotient a b =
    sym (to_ℕ-from_ℕ (M.◌/◌ (to_ℕ a) (to_ℕ b)))
    ∙ ap to_ℕ (
        from_ℕ-/ (to_ℕ a) (to_ℕ b)
        ∙ ap (λ x. x / from_ℕ (to_ℕ b)) (from_ℕ-to_ℕ a)
        ∙ ap (λ y. a / y) (from_ℕ-to_ℕ b))

remainder : (a b : ℕ) → M.◌%◌ (to_ℕ a) (to_ℕ b) ≡ to_ℕ (a % b)
remainder a b =
    sym (to_ℕ-from_ℕ (M.◌%◌ (to_ℕ a) (to_ℕ b)))
    ∙ ap to_ℕ (
        from_ℕ-% (to_ℕ a) (to_ℕ b)
        ∙ ap (λ x. x % from_ℕ (to_ℕ b)) (from_ℕ-to_ℕ a)
        ∙ ap (λ y. a % y) (from_ℕ-to_ℕ b))

to_ℕ-injective : (a b : ℕ) → to_ℕ a ≡ to_ℕ b → a ≡ b
to_ℕ-injective a b h = sym (from_ℕ-to_ℕ a) ∙ ap from_ℕ h ∙ from_ℕ-to_ℕ b

pub div_add_mod : (a b : ℕ) → b * (a / b) + a % b ≡ a
div_add_mod a b = to_ℕ-injective (b * (a / b) + a % b) a (
    to_ℕ-+ (b * (a / b)) (a % b)
    ∙ ap (λ x. M.◌+◌ x (to_ℕ (a % b))) (to_ℕ-* b (a / b))
    ∙ ap (λ x. M.◌+◌ (M.◌*◌ (to_ℕ b) x) (to_ℕ (a % b))) (sym (quotient a b))
    ∙ ap (λ x. M.◌+◌ (M.◌*◌ (to_ℕ b) (M.◌/◌ (to_ℕ a) (to_ℕ b))) x) (sym (remainder a b))
    ∙ M.div-add-mod (to_ℕ a) (to_ℕ b))

pub mod_lt : (a b : ℕ) → 0 < b → a % b < b
mod_lt a b h =
    let positive : M.◌≤◌ (M.suc M.zero) (to_ℕ b) =
      from_le⁻¹ (M.suc M.zero) (to_ℕ b)
        (subst (λ x. 1 ≤ x) (sym (from_ℕ-to_ℕ b)) (omega (arith, h))) in
    let below : M.◌<◌ (to_ℕ (a % b)) (to_ℕ b) =
      subst (λ x. M.◌<◌ x (to_ℕ b)) (remainder a b) (M.mod-lt (to_ℕ a) positive) in
    let back : suc (from_ℕ (to_ℕ (a % b))) ≤ from_ℕ (to_ℕ b) = from_le below in
    let left : suc (a % b) ≤ from_ℕ (to_ℕ b) =
      subst (λ x. suc x ≤ from_ℕ (to_ℕ b)) (from_ℕ-to_ℕ (a % b)) back in
    let both : suc (a % b) ≤ b = subst (λ x. suc (a % b) ≤ x) (from_ℕ-to_ℕ b) left in
    omega (arith, both)

pub mul_le_mul : (a b c : ℕ) → a ≤ b → a * c ≤ b * c
mul_le_mul a b zero h = omega (arith, h)
mul_le_mul a b (suc c) h = omega (arith, h, mul_le_mul a b c h)

pub div_ceil_le : (a b : ℕ) → 0 < b → a ≤ b * ((a + (b - 1)) / b)
div_ceil_le a b h =
    let whole = div_add_mod (a + (b - 1)) b in
    let rest = mod_lt (a + (b - 1)) b h in omega (arith, whole, rest, h)

pub mul_swap : (a b c : ℕ) → a * b * c ≡ a * (b * c)
mul_swap a b c = grind arith

pub mul_le_left : (c a b : ℕ) → a ≤ b → c * a ≤ c * b
mul_le_left c a b h = omega (arith, mul_le_mul a b c h)

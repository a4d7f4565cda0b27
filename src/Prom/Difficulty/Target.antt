-- ===== src/Prom/Difficulty/Target.antt =====
-- `CalculateTarget` (src/prom/hasher.go) against the definition of the compact form of a target.
use native.Mathlib.Nat.{pow-suc}
use kaspa_stratum_bridge.Base.{
  ℕ, zero, suc, ◌-◌, ◌*◌, ◌/◌, ◌%◌, ◌^◌, ◌≡◌, refl, ap, arith, leb, false, if◌then◌else◌,
}
use kaspa_stratum_bridge.Prom.Difficulty.{calculate_target}

pow_256 : (k : ℕ) → 2 ^ (8 * k) ≡ 256 ^ k
pow_256 zero = refl
pow_256 (suc k) =
    let e : 8 * suc k ≡ suc (suc (suc (suc (suc (suc (suc (suc (8 * k)))))))) = omega arith in
    rw e (omega (arith, pow_256 k))

-- The two branches, for a mantissa `m` and an exponent `e`.
shift_mantissa :
    (e m : ℕ)
    → (if leb e 3 then m / 2 ^ (8 * (3 - e)) else m * 2 ^ (8 * (e - 3))) ≡ m * 256 ^ e / 256 ^ 3
shift_mantissa zero m = omega arith
shift_mantissa (suc zero) m = omega arith
shift_mantissa (suc (suc zero)) m = omega arith
shift_mantissa (suc (suc (suc zero))) m = omega arith
shift_mantissa (suc (suc (suc (suc k)))) m =
    let lessen : suc (suc (suc (suc k))) - 3 ≡ suc k = omega arith in
    let large : leb (suc (suc (suc (suc k)))) 3 ≡ false = ground arith in
    rw (large, lessen, pow_256 (suc k))
      (omega (
        arith,
        ap (λ (t : ℕ). m * t) (pow-suc 256 k),
        ap (λ (t : ℕ). m * t) (pow-suc 256 (suc k)),
        ap (λ (t : ℕ). m * t) (pow-suc 256 (suc (suc k))),
        ap (λ (t : ℕ). m * t) (pow-suc 256 (suc (suc (suc k)))),
      ))

-- The target is the mantissa times 256 to the exponent less three, rounded down: both branches.
pub calculate_target-compact :
    (bits : ℕ) → calculate_target bits ≡ bits % 2 ^ 24 * 256 ^ (bits / 2 ^ 24) / 256 ^ 3
unfolding calculate_target
calculate_target-compact bits = shift_mantissa (bits / 2 ^ 24) (bits % 2 ^ 24)

-- ===== src/Supervision/Backoff.antt =====
-- `get_backoff_delay` of sendtoinflux.py, by which the supervisor waits too.
use Prim.Native.Nat.{◌^◌, ◌/◌, min}
use native.Mathlib.Nat.{
  pow-succ', div-add-mod, mod-lt, mul-le-mul_left, pow-le-pow_right, min-eq_left, min-eq_right,
}
use send_to_influx.Prelude.{
  ℕ, zero, suc, ◌-◌, ◌*◌, ◌≤◌, ◌<◌, ◌≡◌, ap, sym, ◌∙◌, max, if◌then◌else◌, leb, arith, Bool-cases,
  inl, inr,
}

abbrev pub backoff_base_seconds : ℕ
backoff_base_seconds = 5

abbrev pub backoff_max_seconds : ℕ
backoff_max_seconds = 300

-- `int.bit_length`, on fuel.
unfoldable pub bits : ℕ → ℕ → ℕ
bits zero n = 0
bits (suc fuel) n = let rest = bits fuel (n / 2) in if leb n 0 then 0 else suc rest

abbrev pub bit_length : ℕ → ℕ
bit_length n = bits n n

-- `get_backoff_delay`, in whole seconds.
unfoldable pub get_backoff_delay : ℕ → ℕ → ℕ → ℕ
unfolding bits
get_backoff_delay failure_count base ceiling =
    let ratio = max 1 (ceiling / base) in
    let exponent = min (failure_count - 1) (bit_length ratio) in
    if leb base 0 then 0 else min (base * 2 ^ exponent) ceiling

n_lt_bits : (fuel n : ℕ) → n ≤ fuel → n < 2 ^ bits fuel n
unfolding bits
n_lt_bits zero n h = omega (arith, h)
n_lt_bits (suc fuel) n h = elim (Bool-cases (leb n 0)) [
  | inl e ↦ rw e (ground (arith, e))
  | inr e ↦ rw e (
      let half = n_lt_bits fuel (n / 2) (omega (arith, h)) in
      (omega (arith, half, pow-succ' 2 (bits fuel (n / 2)))))
]

-- A ceiling is at most the base as often as its quotient and once more.
quotient_bound : (ceiling base top : ℕ) → 0 < base → ceiling / base < top → ceiling ≤ base * top
quotient_bound ceiling base top h q =
    omega (arith, div-add-mod ceiling base, mod-lt ceiling h, mul-le-mul_left base q)

-- An exponent beyond the last one that matters changes nothing.
capped_exponent :
    (base ceiling e last : ℕ)
    → ceiling ≤ base * 2 ^ last
    → min (base * 2 ^ min e last) ceiling ≡ min (base * 2 ^ e) ceiling
capped_exponent base ceiling e last h = elim (Bool-cases (leb e last)) [
  | inl k ↦ ap (λ x. min (base * 2 ^ x) ceiling) (min-eq_left (ground (arith, k)))
  | inr k ↦
      let past : last ≤ e = ground (arith, k) in
      let more = mul-le-mul_left base (pow-le-pow_right {n = 2} (omega arith) past) in
      ap (λ x. min (base * 2 ^ x) ceiling) (min-eq_right past)
      ∙ min-eq_right h
      ∙ sym (min-eq_right (omega (arith, h, more)))
]

-- Where the base is positive, the delay is the base doubled for each failure after the first, or
-- the ceiling where that is less.
pub get_backoff_delay_lem :
    (failure_count base ceiling : ℕ)
    → 0 < base
    → get_backoff_delay failure_count base ceiling ≡ min (base * 2 ^ (failure_count - 1)) ceiling
unfolding get_backoff_delay
get_backoff_delay_lem failure_count base ceiling h =
    let ratio = max 1 (ceiling / base) in
    let top = 2 ^ bit_length ratio in
    let large =
      quotient_bound ceiling base top h (omega (arith, n_lt_bits ratio ratio (omega arith))) in
    elim (Bool-cases (leb base 0)) [
      | inl e ↦ ground (arith, e, h)
      | inr e ↦ rw e (capped_exponent base ceiling (failure_count - 1) (bit_length ratio) large)
    ]

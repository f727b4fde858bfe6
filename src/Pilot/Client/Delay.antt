-- ===== src/Pilot/Client/Delay.antt =====
-- The delays between the tries of src/pilot/pilot_integration_client.cpp.
use nodus_vision.Prelude.{ℕ, zero, suc, ◌-◌, ◌*◌, ◌^◌, ◌≤◌, ltb, if◌then◌else◌, arith}
use native.Mathlib.Nat.{mul-le-mul}
use nodus_vision.Prelude.Int.{ℤ, pos, negsuc, ltb_ℤ}
use nodus_vision.Config.{PilotConfig}
use nodus_vision.Config.Fields.Accepted.{Within}
use nodus_vision.Config.Accepted.{IsPilotConfig}
use nodus_vision.Pilot.Client.{backoff, scale, capped_delay}

power-le : (n : ℕ) → n ≤ 10 → (1 ≤ 2 ^ n) × (2 ^ n ≤ 1024)
power-le zero h = (omega arith, omega arith)
power-le (suc zero) h = (omega arith, omega arith)
power-le (suc (suc zero)) h = (omega arith, omega arith)
power-le (suc (suc (suc zero))) h = (omega arith, omega arith)
power-le (suc (suc (suc (suc zero)))) h = (omega arith, omega arith)
power-le (suc (suc (suc (suc (suc zero))))) h = (omega arith, omega arith)
power-le (suc (suc (suc (suc (suc (suc zero)))))) h = (omega arith, omega arith)
power-le (suc (suc (suc (suc (suc (suc (suc zero))))))) h = (omega arith, omega arith)
power-le (suc (suc (suc (suc (suc (suc (suc (suc zero)))))))) h = (omega arith, omega arith)
power-le (suc (suc (suc (suc (suc (suc (suc (suc (suc zero))))))))) h = (omega arith, omega arith)
power-le (suc (suc (suc (suc (suc (suc (suc (suc (suc (suc zero)))))))))) h =
    (omega arith, omega arith)
power-le (suc (suc (suc (suc (suc (suc (suc (suc (suc (suc (suc n))))))))))) h = ground arith

mul-Within : (a k : ℕ) → 1 ≤ a → a ≤ 60000 → 1 ≤ k → k ≤ 1024 → (1 ≤ a * k) × (a * k ≤ 2 ^ 31 - 1)
mul-Within a k h i l u =
    let low : 1 * 1 ≤ a * k = mul-le-mul h l in
    let high : a * k ≤ 60000 * 1024 = mul-le-mul i u in (omega (arith, low), omega (arith, high))

scale-Within :
    (z : ℤ) (k : ℕ)
    → Within (pos 1) (pos 60000) z
    → 1 ≤ k
    → k ≤ 1024
    → Within (pos 1) (pos (2 ^ 31 - 1)) (scale z k)
scale-Within (pos a) k h l u =
    let r : ((1 ≤ a * k) × (a * k ≤ 2 ^ 31 - 1)) =
      mul-Within a k (omega (arith, h.0)) (omega (arith, h.1)) l u in
    (omega (arith, r.0), omega (arith, r.1))
scale-Within (negsuc a) k h l u = ground arith

exponent-le : (n : ℕ) → (if ltb 10 n then 10 else n) ≤ 10
exponent-le n = ground arith

between :
    (z m : ℤ) → Within (pos 1) m z → Within (pos 1) (pos 60000) m → Within (pos 1) (pos 60000) z
between z m h k = ground arith

smaller-Within :
    (d m : ℤ)
    → Within (pos 1) (pos (2 ^ 31 - 1)) d
    → Within (pos 1) (pos 60000) m
    → Within (pos 1) m (if ltb_ℤ d m then d else m)
smaller-Within d m h k = ground arith

initial-Within :
    (pilot : PilotConfig)
    → IsPilotConfig pilot
    → Within (pos 1) (pos 60000) pilot.retry_initial_delay_ms
initial-Within pilot (url, clock, connect, request, response, initial, maximum, shutdown, name) =
    between pilot.retry_initial_delay_ms pilot.retry_max_delay_ms initial maximum

maximum-Within :
    (pilot : PilotConfig)
    → IsPilotConfig pilot
    → Within (pos 1) (pos 60000) pilot.retry_max_delay_ms
maximum-Within pilot (url, clock, connect, request, response, initial, maximum, shutdown, name) =
    maximum

backoff-Within :
    (pilot : PilotConfig) (count : ℕ)
    → IsPilotConfig pilot
    → Within (pos 1) (pos (2 ^ 31 - 1)) (backoff pilot count)
unfolding backoff
backoff-Within pilot count h =
    let k : ℕ = if ltb 10 (count - 1) then 10 else count - 1 in
    let small : k ≤ 10 = exponent-le (count - 1) in
    let p : (1 ≤ 2 ^ k) × (2 ^ k ≤ 1024) = power-le k small in
    scale-Within pilot.retry_initial_delay_ms (2 ^ k) (initial-Within pilot h) p.0 p.1

-- With an accepted configuration the product of `publishCatalog` and `runWorker` is an `int` at
-- every try, so that it does not overflow, and the delay lies between 1 ms and the largest delay.
pub capped_delay-Within :
    (pilot : PilotConfig) (count : ℕ)
    → IsPilotConfig pilot
    → Within (pos 1) (pos (2 ^ 31 - 1)) (backoff pilot count)
      × Within (pos 1) pilot.retry_max_delay_ms (capped_delay pilot count)
unfolding capped_delay
capped_delay-Within pilot count h = (
  backoff-Within pilot count h,
  smaller-Within (backoff pilot count) pilot.retry_max_delay_ms (backoff-Within pilot count h)
      (maximum-Within pilot h),
)

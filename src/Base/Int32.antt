-- ===== src/Base/Int32.antt =====
-- Go's `int32`: an integer between -2^31 and 2^31 - 1, with what the operator does to one.
use Prim.Native.Nat.{ℕ, zero, suc, ◌+◌, ◌/◌, ◌%◌, ◌<◌}
use Prim.Native.String.{String}
use mathlib.Core.Path.{◌≡◌, refl}
use mathlib.Core.Logic.{◌↔◌, dite}
use mathlib.Core.Bool.{Bool, true, false}
use mathlib.Core.WellFounded.{Acc, WellFounded}
use native.Mathlib.Decide.{dec_lt}
use native.Mathlib.Omega.{arith}
use llm_d_scheduler_sim_oper.Base.Tests.{if◌then◌else◌, nat_eq, ◌<>◌}

-- `negsuc n` is -(n + 1).
pub data ℤ : Type 0 where
  pos : ℕ → ℤ
  negsuc : ℕ → ℤ

-- Go's `a == b` on integers.
unfoldable pub int_eq : ℤ → ℤ → Bool
int_eq (pos a) (pos b) = nat_eq a b
int_eq (negsuc a) (negsuc b) = nat_eq a b
int_eq _ _ = false

pub int_eq_iff : (a b : ℤ) → (int_eq a b ≡ true) ↔ (a ≡ b)
unfolding int_eq
int_eq_iff (pos a) (pos b) = ground arith
int_eq_iff (negsuc a) (negsuc b) = ground arith
int_eq_iff (pos a) (negsuc b) = ground arith
int_eq_iff (negsuc a) (pos b) = ground arith

-- Go's `a > 0`.
unfoldable pub is_positive : ℤ → Bool
is_positive (pos zero) = false
is_positive (pos (suc n)) = true
is_positive (negsuc n) = false

-- Go's `a + 1` on an `int32`, which wraps round at 2^31 - 1.
unfoldable pub add_one32 : ℤ → ℤ
add_one32 (pos n) = if nat_eq n 2147483647 then negsuc 2147483647 else pos (n + 1)
add_one32 (negsuc zero) = pos 0
add_one32 (negsuc (suc n)) = negsuc n

-- Every number under a bound is accessible, by recursion on the bound.
under-Acc : (bound : ℕ) {n : ℕ} → n < bound → Acc ◌<◌ n
under-Acc zero lt = absurd (omega arith)
under-Acc (suc b) lt = Acc.intro _ (λ m smaller. under-Acc b {n = m} (omega arith))

lt_wf : WellFounded ◌<◌
unfolding under-Acc
lt_wf = record { apply = λ k. under-Acc (suc k) {n = k} (omega arith) }

digit : ℕ → String
digit zero = "0"
digit (suc zero) = "1"
digit (suc (suc zero)) = "2"
digit (suc (suc (suc zero))) = "3"
digit (suc (suc (suc (suc zero)))) = "4"
digit (suc (suc (suc (suc (suc zero))))) = "5"
digit (suc (suc (suc (suc (suc (suc zero)))))) = "6"
digit (suc (suc (suc (suc (suc (suc (suc zero))))))) = "7"
digit (suc (suc (suc (suc (suc (suc (suc (suc zero)))))))) = "8"
digit _ = "9"

pub tenth_lt : {n : ℕ} → ¬ (n < 10) → n / 10 < n
tenth_lt h = omega arith

decimal : (n : ℕ) → Acc ◌<◌ n → String
decimal n (Acc.intro _ smaller) =
    dite (dec_lt n 10) (λ _. digit n)
      (λ h. decimal (n / 10) (smaller (n / 10) (tenth_lt h)) <> digit (n % 10))

-- `strconv.Itoa`, and `fmt.Sprintf("%d", n)`.
unfoldable pub itoa : ℤ → String
unfolding digit decimal lt_wf dec_lt
itoa (pos n) = decimal n (lt_wf.apply n)
itoa (negsuc n) = "-" <> decimal (suc n) (lt_wf.apply (suc n))

itoa_port : itoa (pos 9002) ≡ "9002"
unfolding itoa
itoa_port = refl

itoa_wrapped : itoa (add_one32 (pos 2147483647)) ≡ "-2147483648"
unfolding itoa add_one32
itoa_wrapped = refl

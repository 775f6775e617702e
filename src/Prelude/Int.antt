-- ===== src/Prelude/Int.antt =====
-- Signed machine integers: the library's ℤ stands on another ℕ, so the type is declared here.
use Prim.Native.Nat.{ℕ, ◌-◌, ◌*◌}
use evtx.Prelude.Tests.{ltb, if◌then◌else◌}

-- `negsuc n` is -(n + 1).
pub data ℤ : Type 0 where
  pos : ℕ → ℤ
  negsuc : ℕ → ℤ

-- The integer that an unsigned word stands for in two's complement; `half` is 2^(w-1).
unfoldable pub to_signed : ℕ → ℕ → ℤ
to_signed half u = if ltb u half then pos u else negsuc (2 * half - 1 - u)

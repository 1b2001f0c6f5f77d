-- ===== src/FilePaths/Processes.antt =====
-- readlink_proc() of path/proc.c for the process that a path below /proc names by its pid.
use vm_forge.Prelude.{ℕ, zero, suc, ◌*◌, ◌<◌, ◌≤◌, [], ◌∷◌}
use vm_forge.Prelude.Bytes.{Bytes}
use vm_forge.FilePaths.Host.{Host}

-- Digits alone.
abbrev AllDigits : Bytes → Type 0
AllDigits [] = Unit
AllDigits (c ∷ s) = (48 ≤ c) × (c < 58) × AllDigits s

abbrev ten_to : ℕ → ℕ
ten_to zero = 1
ten_to (suc k) = 10 * ten_to k

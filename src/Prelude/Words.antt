-- ===== src/Prelude/Words.antt =====
-- `size_t`, a natural number modulo 2^64.
use distributed_data_science.Prelude.{ℕ, ◌+◌, ◌-◌, ◌%◌, ◌^◌}

-- `++` and `--` on `size_t`.
unfoldable pub increment : ℕ → ℕ
increment n = (n + 1) % 2 ^ 64

unfoldable pub decrement : ℕ → ℕ
decrement n = (n + (2 ^ 64 - 1)) % 2 ^ 64

-- ===== src/Radio/Backoff.antt =====
-- src/radioManager.cpp: how long the transmitting task waits when the channel is busy.
use Prim.Native.Nat.{◌^◌}
use eie4_mesh_network.Prelude.{if◌then◌else◌, ltb, min, ℕ, ◌%◌, ◌*◌, ◌+◌, ◌-◌, ◌/◌}
use eie4_mesh_network.Radio.{BackoffScheme, CsmaOptions, be, binary, legacy}

-- `pdMS_TO_TICKS`, and `portTICK_PERIOD_MS`
unfoldable pub ticks : ℕ → ℕ → ℕ
ticks rate ms = ms * rate / 1000

unfoldable pub tick_period : ℕ → ℕ
tick_period rate = 1000 / rate

-- `if (beExp > beMaxExp) beExp = beMaxExp`
unfoldable pub clamp_exp : ℕ → ℕ → ℕ
clamp_exp max_exp exp = if ltb max_exp exp then max_exp else exp

-- The wait in milliseconds, for a random number and the two variables of the loop.
unfoldable pub back_off_ms : CsmaOptions → ℕ → ℕ → ℕ → ℕ → BackoffScheme → ℕ
back_off_ms o rate random bin exp binary = random % (bin / tick_period rate + 1)
back_off_ms o rate random bin exp be = random % (2 ^ clamp_exp o.be_max_exp exp) * o.be_unit_ms
back_off_ms o rate random bin exp legacy =
    o.legacy_min_ms + random % (o.legacy_max_ms - o.legacy_min_ms + 1)

-- The two variables after the wait: `backoffBin` in ticks, and `beExp`, a `uint8_t`.
unfoldable pub next_bin : CsmaOptions → ℕ → ℕ → BackoffScheme → ℕ
next_bin o rate bin binary = min (bin * 2) (ticks rate o.bin_max_ms)
next_bin o rate bin _ = bin

unfoldable pub next_exp : CsmaOptions → ℕ → BackoffScheme → ℕ
next_exp o exp be = (clamp_exp o.be_max_exp exp + 1) % 256
next_exp o exp _ = exp

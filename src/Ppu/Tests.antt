-- ===== src/Ppu/Tests.antt =====
-- The theorems at concrete positions.
use dendy.Prelude.{◌≡◌, arith}
use dendy.Ppu.Address.{increment_x, increment_y}
use dendy.Ppu.Position.{place, InPlane, increment_x-place, increment_y-place}

abbrev corner : InPlane 7 0 1 29 31
corner = record {
  fine_below = omega arith;
  ny_below = omega arith;
  nx_below = omega arith;
  y_below = omega arith;
  x_below = omega arith;
}

increment_x-place_example : increment_x (place 7 0 1 29 31) ≡ place 7 0 0 29 0
increment_x-place_example = increment_x-place 7 0 1 29 31 corner

increment_y-place_example : increment_y (place 7 0 1 29 31) ≡ place 0 1 1 0 31
increment_y-place_example = increment_y-place 7 0 1 29 31 corner

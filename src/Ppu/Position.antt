-- ===== src/Ppu/Position.antt =====
-- The two increments of ppu/address.go as moves on a plane of two by two nametables.
use dendy.Prelude.{
  ℕ, ◌+◌, ◌-◌, ◌*◌, ◌<◌, ◌≡◌, ap, ◌∙◌, arith, bit_xor, ltb, ◌==◌, if◌then◌else◌, Bool-cases, inl,
  inr,
}
use dendy.Ppu.Address
use dendy.Ppu.Scroll.{
  coarse_x_lem, coarse_y_lem, fine_y_lem, set_coarse_x_lem, set_coarse_y_lem, set_fine_y_lem,
  flip_x, flip_y,
}

-- The address of a position: the fine row, the nametable's row and column, and the tile's.
abbrev pub place : ℕ → ℕ → ℕ → ℕ → ℕ → ℕ
place fine ny nx y x = fine * 4096 + ny * 2048 + nx * 1024 + y * 32 + x

-- The position is in the plane.
pub record InPlane (fine ny nx y x : ℕ) : Type 0 where
  pub fine_below : fine < 8
  pub ny_below : ny < 2
  pub nx_below : nx < 2
  pub y_below : y < 32
  pub x_below : x < 32

module _ (fine ny nx y x : ℕ) (h : InPlane fine ny nx y x) where
  -- A step to the right goes to the next tile of the row, and from the last one to the first tile of
  -- the same row in the nametable beside.
  pub increment_x-place :
      Address.increment_x (place fine ny nx y x)
      ≡ (if x == 31 then place fine ny (1 - nx) y 0 else place fine ny nx y (x + 1))
  unfolding Address.increment_x Address.flip_nametable_x
  increment_x-place =
      let v = place fine ny nx y x in
      let hf = h.fine_below in
      let hny = h.ny_below in
      let hnx = h.nx_below in
      let hy = h.y_below in
      let hx = h.x_below in
      let col : Address.coarse_x v ≡ x = coarse_x_lem v ∙ omega arith in
      elim (Bool-cases (x == 31)) [
        | inl e ↦
            let flipped : bit_xor v 0x400 ≡ place fine ny (1 - nx) y x = flip_x v ∙ omega arith in
            rw (col, e)
              (ap (λ t. Address.set_coarse_x t 0) flipped
                ∙ set_coarse_x_lem (place fine ny (1 - nx) y x) (omega arith)
                ∙ omega arith)
        | inr e ↦ rw (col, e) (ground arith)
      ]

  -- A step down goes to the next of the eight lines of the tile, then to the next row of tiles, from
  -- row 29 to row 0 of the nametable below and from row 31, which is no row of tiles, to row 0 of the
  -- same one.
  pub increment_y-place : Address.increment_y (place fine ny nx y x) ≡ (
      if ltb fine 7
      then place (fine + 1) ny nx y x
      else if y == 29
      then place 0 (1 - ny) nx 0 x
      else if y == 31
      then place 0 ny nx 0 x
      else place 0 ny nx (y + 1) x)
  unfolding Address.increment_y Address.flip_nametable_y
  increment_y-place =
      let v = place fine ny nx y x in
      let hf = h.fine_below in
      let hny = h.ny_below in
      let hnx = h.nx_below in
      let hy = h.y_below in
      let hx = h.x_below in
      let row : Address.coarse_y v ≡ y = coarse_y_lem v ∙ omega arith in
      let line : Address.fine_y v ≡ fine = fine_y_lem v ∙ omega arith in
      let top : Address.set_fine_y v 0 ≡ place 0 ny nx y x =
        set_fine_y_lem v (omega arith) ∙ omega arith in
      elim (Bool-cases (ltb fine 7)) [
        | inl e ↦ rw (line, e) (omega arith)
        | inr e ↦ elim (Bool-cases (y == 29)) [
          | inl e1 ↦
              let flipped : bit_xor (place 0 ny nx y x) 0x800 ≡ place 0 (1 - ny) nx y x =
                flip_y (place 0 ny nx y x) ∙ omega arith in
              rw (line, e, row, e1, top)
                (ap (λ t. Address.set_coarse_y t 0) flipped
                  ∙ set_coarse_y_lem (place 0 (1 - ny) nx y x) 0 (omega arith) (omega arith)
                  ∙ omega arith)
          | inr e1 ↦ elim (Bool-cases (y == 31)) [
            | inl e2 ↦
                rw (line, e, row, e1, e2, top)
                  (set_coarse_y_lem (place 0 ny nx y x) 0 (omega arith) (omega arith) ∙ omega arith)
            | inr e2 ↦
                rw (line, e, row, e1, e2, top)
                  (set_coarse_y_lem (place 0 ny nx y x) (y + 1) (omega arith) (ground arith)
                    ∙ omega arith)
          ]
        ]
      ]

-- ===== src/Ppu/Screen/Inside.antt =====
-- The character position of uzi-nes-port/ppu/ppu_databuf.c stays in a name table.
use uzi_build.Prelude.{
  ℕ, ◌+◌, ◌-◌, ◌*◌, ◌%◌, ◌<◌, ◌≤◌, ◌≡◌, refl, inl, inr, Bool, true, false, ◌&&◌, [], arith, ◌==◌,
  leb, if◌then◌else◌, add16, Bool-cases,
}
use uzi_build.Ppu.Screen.{
  Screen, cols, vis_size, row_px, screen_size, table0, table1, swap_nametable, scroll_one_row,
  advance, start_scroll, update_screen_ptrs, next_line, ppu_putc, carriage_return,
}

-- The screen pointer is the current name table's address and the position in it, which is on the screen.
pub record IsInside (s : Screen) : Type 0 where
  pub position : s.cur_nametable_pos < screen_size
  pub pointer :
      s.cur_screen_ptr ≡ (if s.cur_nametable == 0 then table0 else table1) + s.cur_nametable_pos

advance-IsInside :
    (dist : ℕ) (s : Screen)
    → IsInside s
    → s.cur_nametable_pos + dist ≤ screen_size
    → IsInside (advance dist s)
unfolding advance swap_nametable
advance-IsInside dist s v p = elim (Bool-cases (leb screen_size (add16 s.cur_nametable_pos dist))) [
  | inl e ↦ elim (Bool-cases (s.cur_nametable == 0)) [
    | inl q ↦ rw (e, q) (record { position = omega arith; pointer = refl })
    | inr q ↦ rw (e, q) (record { position = omega arith; pointer = refl })
  ]
  | inr e ↦
      rw e (record { position = ground arith; pointer = ground (arith, v.position, v.pointer) })
]

scroll-IsInside :
    (c : Bool) (t : Screen) → IsInside t → IsInside (if c then scroll_one_row t else (t, [])).0
unfolding scroll_one_row
scroll-IsInside false t v = v
scroll-IsInside true t v = elim (Bool-cases (leb (row_px * 30) (add16 t.y_scroll_fine row_px))) [
  | inl e ↦ rw e (record { position = v.position; pointer = v.pointer })
  | inr e ↦ rw e (record { position = v.position; pointer = v.pointer })
]

start-IsInside : (s : Screen) → IsInside s → IsInside (start_scroll s)
unfolding start_scroll
start-IsInside s v =
    elim (Bool-cases (s.scroll_started == 0 && leb (vis_size + cols) s.cur_nametable_pos)) [
      | inl e ↦ rw e (record { position = v.position; pointer = v.pointer })
      | inr e ↦ rw e v
    ]

update-IsInside :
    (dist : ℕ) (s : Screen)
    → IsInside s
    → s.cur_nametable_pos + dist ≤ screen_size
    → IsInside (update_screen_ptrs dist s).0
unfolding update_screen_ptrs
update-IsInside dist s v p = elim (Bool-cases (dist == 0)) [
  | inl e ↦ rw e v
  | inr e ↦ rw e (
      scroll-IsInside _ (start_scroll (advance dist s))
        (start-IsInside (advance dist s) (advance-IsInside dist s v p)))
]

-- Every character, printed or a carriage return, leaves the position in a name table.
pub ppu_putc-IsInside : (c : ℕ) (s : Screen) → IsInside s → IsInside (ppu_putc c s).0
unfolding ppu_putc next_line
ppu_putc-IsInside c s v = elim (Bool-cases (c == carriage_return)) [
  | inl e ↦
      rw e (
        update-IsInside (cols - s.cur_screen_ptr % cols) s v
          (ground (arith, v.position, v.pointer)))
  | inr e ↦ rw e (update-IsInside 1 s v (ground (arith, v.position)))
]

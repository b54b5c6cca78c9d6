-- ===== src/Ppu/Screen.antt =====
-- The screen of uzi-nes-port/ppu/ppu_databuf.c: `swap_nametable`, `scroll_one_row`, `update_screen_ptrs`,
-- `next_line` and `ppu_putc`. What a routine queues is a list of descriptors with their data.
pub mod Inside
use uzi_build.Prelude.{
  ℕ, zero, suc, ◌+◌, ◌-◌, ◌*◌, ◌/◌, ◌%◌, Bool, true, false, not, ◌&&◌, ◌||◌, List, [], ◌∷◌, ◌++◌,
  ◌==◌, ltb, leb, if◌then◌else◌, add16,
}
use uzi_build.Ppu.Queue.{PpuDesc, flag_null}

abbrev pub cols : ℕ
cols = 32

abbrev pub screen_size : ℕ
screen_size = 30 * cols

abbrev pub vis_size : ℕ
vis_size = 28 * cols

abbrev pub row_px : ℕ
row_px = 8

abbrev pub table0 : ℕ
table0 = 0x2000

abbrev pub table1 : ℕ
table1 = 0x2800

pub record Screen : Type 0 where
  pub cur_screen_ptr : ℕ
  pub cur_nametable_pos : ℕ
  pub scroll_started : ℕ
  pub cur_nametable : ℕ
  pub y_scroll_coarse : ℕ
  pub y_scroll_fine : ℕ

pub swap_nametable : Screen → Screen
swap_nametable s =
    if s.cur_nametable == 0
    then record s { cur_nametable_pos = 0; cur_nametable = 1; cur_screen_ptr = table1 }
    else record s { cur_nametable_pos = 0; cur_nametable = 0; cur_screen_ptr = table0 }

abbrev pub Output : Type 0
Output = List (PpuDesc × List ℕ)

pub write_blank_line_desc : Screen → Output
write_blank_line_desc s =
    (record { size = cols; target = s.cur_screen_ptr; flags = flag_null }, []) ∷ []

pub scroll_one_row : Screen → Screen × Output
scroll_one_row s =
    let fine = add16 s.y_scroll_fine row_px in
    (
      (if leb (row_px * 30) fine
          then record s {
            y_scroll_coarse = if s.y_scroll_coarse == 0 then 1 else 0;
            y_scroll_fine = 1;
          }
          else record s { y_scroll_fine = fine }),
      write_blank_line_desc s,
    )

-- The part of `update_screen_ptrs` that moves the position.
advance : ℕ → Screen → Screen
advance dist s =
    let t = record s {
      cur_screen_ptr = add16 s.cur_screen_ptr dist;
      cur_nametable_pos = add16 s.cur_nametable_pos dist;
    } in
    if leb screen_size t.cur_nametable_pos then swap_nametable t else t

start_scroll : Screen → Screen
start_scroll s =
    if s.scroll_started == 0 && leb (vis_size + cols) s.cur_nametable_pos
    then record s { scroll_started = 1 }
    else s

-- The positions are not negative.
pub update_screen_ptrs : ℕ → Screen → Screen × Output
update_screen_ptrs dist s =
    if dist == 0
    then (s, [])
    else (let t = start_scroll (advance dist s) in
        let cur_x = t.cur_nametable_pos % cols in
        let orig_x = s.cur_nametable_pos % cols in
        if not (t.scroll_started == 0) && (ltb cur_x orig_x || (cur_x == orig_x && cur_x == 0))
        then scroll_one_row t
        else (t, []))

pub next_line : Screen → Screen × Output
next_line s = update_screen_ptrs (cols - s.cur_screen_ptr % cols) s

abbrev pub carriage_return : ℕ
carriage_return = 13

pub ppu_putc : ℕ → Screen → Screen × Output
ppu_putc c s =
    if c == carriage_return
    then next_line s
    else (let (t, out) = update_screen_ptrs 1 s in
        (t, (record { size = 1; target = s.cur_screen_ptr; flags = 0 }, c ∷ []) ∷ out))

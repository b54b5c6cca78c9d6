-- ===== src/Tests/Video.antt =====
-- The picture processor of uzi-nes-port/ppu/ppu_databuf.c and drivers/devppuwd.c.
use uzi_build.Prelude.{◌≡◌, refl, [], ◌∷◌, arith, replicate}
use uzi_build.Ppu.Queue.{
  PpuDesc, Databuf, queue_descriptor, get_desc_type, cycles, calc_desc_weight,
}
use uzi_build.Ppu.Queue.Room.{IsTerminated, queue_descriptor-IsTerminated}
use uzi_build.Ppu.Disk.{ppuwd_read, ppuwd_write}
use uzi_build.Ppu.Disk.Banks.{swap_aliases_root}
use uzi_build.Ppu.Screen.{Screen, ppu_putc}
use uzi_build.Ppu.Screen.Inside.{IsInside, ppu_putc-IsInside}

abbrev empty : Databuf
empty = record { bytes = replicate 65 0; databuf_pos = 0 }

empty-IsTerminated : IsTerminated empty
empty-IsTerminated = record { size = refl; within = omega arith; stop = refl }

-- One character at the second row.
abbrev letter : PpuDesc
letter = record { size = 1; target = 0x2020; flags = 0 }

queue_descriptor-IsTerminated_example :
    IsTerminated (record { bytes = 1 ∷ 0x20 ∷ 0x20 ∷ 0 ∷ 65 ∷ replicate 60 0; databuf_pos = 5 })
unfolding queue_descriptor calc_desc_weight cycles get_desc_type
queue_descriptor-IsTerminated_example =
    queue_descriptor-IsTerminated letter (65 ∷ []) empty
      (record { bytes = 1 ∷ 0x20 ∷ 0x20 ∷ 0 ∷ 65 ∷ replicate 60 0; databuf_pos = 5 })
      empty-IsTerminated (omega arith) refl

swap_aliases_root_example :
    (ppuwd_read 4096 77 ≡ ppuwd_read 0 77)
    × (ppuwd_write 4096 77 (replicate 512 5) ≡ ppuwd_write 0 77 (replicate 512 5))
swap_aliases_root_example = swap_aliases_root 77 (replicate 512 5) (omega arith)

-- The last place of the first name table.
abbrev corner : Screen
corner = record {
  cur_screen_ptr = 9151;
  cur_nametable_pos = 959;
  scroll_started = 1;
  cur_nametable = 0;
  y_scroll_coarse = 0;
  y_scroll_fine = 1;
}

corner-IsInside : IsInside corner
corner-IsInside = record { position = omega arith; pointer = refl }

ppu_putc-IsInside_example : IsInside (ppu_putc 65 corner).0
ppu_putc-IsInside_example = ppu_putc-IsInside 65 corner corner-IsInside

-- ===== src/Tests/Files.antt =====
-- File positions and path names of uzi-nes-port/kernel/scall1.c and fs/filesys.c.
use uzi_build.Prelude.{ℕ, ◌<◌, ◌≡◌, ◌≢◌, ◌↔◌, List, [], ◌∷◌, arith}
use uzi_build.Kernel.{Off}
use uzi_build.Files.Offset.{settle}
use uzi_build.Files.Offset.Position.{position, settle_position}
use uzi_build.Path.{namecomp}
use uzi_build.Path.Compare.{component, namecomp-component}

abbrev far_out : Off
far_out = record { o_blkno = 3; o_offset = 1700 }

settle_position_example :
    (position (settle 128 far_out) ≡ position far_out) × ((settle 128 far_out).o_offset < 512)
settle_position_example = settle_position 128 far_out (omega arith) (omega arith)

-- `bin/ls` against `bin`.
abbrev bin_ls : List ℕ
bin_ls = 98 ∷ 105 ∷ 110 ∷ 47 ∷ 108 ∷ 115 ∷ []

abbrev bin : List ℕ
bin = 98 ∷ 105 ∷ 110 ∷ 0 ∷ 0 ∷ []

namecomp-component_example : (namecomp bin_ls bin ≢ 0) ↔ (component 14 bin_ls ≡ component 14 bin)
namecomp-component_example = namecomp-component bin_ls bin

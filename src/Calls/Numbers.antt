-- ===== src/Calls/Numbers.antt =====
-- Error numbers and access modes of uzi-nes-port/include/unix.h, and what calls share.
use uzi_build.Prelude.{ℕ, ◌-◌, minus_one}
use uzi_build.Kernel.{M, pure, modify, set_error, ◌>>◌}

abbrev pub eperm : ℕ
eperm = 1

abbrev pub enoent : ℕ
enoent = 2

abbrev pub enxio : ℕ
enxio = 6

abbrev pub eacces : ℕ
eacces = 13

abbrev pub enotblk : ℕ
enotblk = 15

abbrev pub ebusy : ℕ
ebusy = 16

abbrev pub eexist : ℕ
eexist = 17

abbrev pub exdev : ℕ
exdev = 18

abbrev pub enotdir : ℕ
enotdir = 20

abbrev pub eisdir : ℕ
eisdir = 21

abbrev pub einval : ℕ
einval = 22

abbrev pub enotty : ℕ
enotty = 25

abbrev pub o_rdwr : ℕ
o_rdwr = 2

-- `MODE_MASK`
abbrev pub mode_mask : ℕ
mode_mask = 0xfff

-- `~n`
abbrev pub complement : ℕ → ℕ
complement n = 65535 - n

-- `udata.u_error = e; return (-1);`
abbrev pub fails : ℕ → M ℕ
fails e = modify (set_error e) >> pure minus_one

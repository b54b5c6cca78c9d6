-- ===== src/Ppu/Queue.antt =====
-- The write buffer of uzi-nes-port/ppu/ppu_databuf.c: `get_desc_type`, `calc_desc_weight` and
-- `__queue_descriptor`. The lock around the last is against the video interrupt.
pub mod Room
use uzi_build.Prelude.{
  ℕ, zero, suc, ◌+◌, ◌*◌, ◌/◌, ◌%◌, Bool, not, ◌||◌, List, [], ◌∷◌, ◌++◌, Option, none, some, ◌==◌,
  ltb, leb, if◌then◌else◌, take, drop, length, set, add8, bit_and,
}

pub record PpuDesc : Type 0 where
  pub size : ℕ
  pub target : ℕ
  pub flags : ℕ

pub data DescType : Type 0 where
  video_desc read_desc write_desc null_desc bad_desc : DescType

abbrev pub flag_null : ℕ
flag_null = 1

abbrev pub flag_read : ℕ
flag_read = 2

abbrev pub flag_write : ℕ
flag_write = 4

abbrev pub has : ℕ → ℕ → Bool
has flags flag = not (bit_and flags flag == 0)

unfoldable pub get_desc_type : PpuDesc → DescType
get_desc_type d =
    let low = bit_and d.flags 0x0f in
    if d.flags == 0
    then video_desc
    else if has low flag_read
    then read_desc
    else if has low flag_write
    then write_desc
    else if has low flag_null
    then null_desc
    else bad_desc

-- The overhead and the cycles for each byte; the latter of an empty descriptor are those of its overhead
-- as the code has them. Nothing stands for a panic.
unfoldable pub cycles : DescType → Option (ℕ × ℕ)
cycles video_desc = some (74, 20)
cycles read_desc = some (115, 20)
cycles write_desc = some (115, 20)
cycles null_desc = some (78, 78)
cycles bad_desc = none

unfoldable pub calc_desc_weight : PpuDesc → Option ℕ
calc_desc_weight d = elim (cycles (get_desc_type d)) [
  | none ↦ none
  | some (overhead, perbyte) ↦ some ((overhead + d.size * perbyte) % 65536)
]

abbrev pub desc_size : ℕ
desc_size = 4

-- `PPU_MAX_CHAR_WRITE * PPU_BUF_BYTE`, where the latter is `sizeof(struct ppu_desc) + 1` without
-- parentheses.
abbrev pub buf_size : ℕ
buf_size = 16 * desc_size + 1

abbrev pub base_cycles : ℕ
base_cycles = 171

abbrev pub max_cycles : ℕ
max_cycles = 2200

pub record Databuf : Type 0 where
  pub bytes : List ℕ
  pub databuf_pos : ℕ

abbrev pub datalen : PpuDesc → ℕ
datalen d =
    if has d.flags flag_read
    then 1
    else if has d.flags flag_null
    then 0
    else if has d.flags flag_write
    then add8 d.size 1
    else d.size

abbrev pub desc_bytes : PpuDesc → List ℕ
desc_bytes d = d.size ∷ d.target % 256 ∷ d.target / 256 ∷ d.flags ∷ []

-- `bcopy` of `xs` into the buffer at `n`.
abbrev pub copy_to : ℕ → List ℕ → List ℕ → List ℕ
copy_to n xs buf = take n buf ++ (xs ++ drop (n + length xs) buf)

pub data Queued : Type 0 where
  queued : Databuf → Queued
  again : Queued
  bad : Queued

unfoldable pub queue_descriptor : PpuDesc → List ℕ → Databuf → Queued
queue_descriptor d src b =
    let n = datalen d in
    if ltb buf_size (b.databuf_pos + desc_size + n + 1) then again else elim (calc_desc_weight d) [
      | none ↦ bad
      | some weight ↦
          if ltb max_cycles (weight + base_cycles)
          then again
          else (let pos = b.databuf_pos + desc_size + n in
              queued (record {
                bytes = set (copy_to b.databuf_pos (desc_bytes d ++ take n src) b.bytes) pos 0;
                databuf_pos = pos;
              }))
    ]

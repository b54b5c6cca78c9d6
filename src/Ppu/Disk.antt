-- ===== src/Ppu/Disk.antt =====
-- The disk of uzi-nes-port/drivers/devppuwd.c: a block lies in a bank of 4096 bytes of the picture
-- processor's memory, and is moved in chunks.
pub mod Banks
use uzi_build.Prelude.{
  ℕ, zero, suc, ◌+◌, ◌*◌, ◌/◌, ◌%◌, List, [], ◌∷◌, ◌++◌, add16, bit_or, bit_and, take, drop,
}
use uzi_build.Ppu.Queue.{PpuDesc, flag_read, flag_write}

abbrev pub bank_size : ℕ
bank_size = 4096

abbrev pub blocks_per_bank : ℕ
blocks_per_bank = 8

abbrev pub disk_bank_start : ℕ
disk_bank_start = 0x1000

abbrev pub read_chunk : ℕ
read_chunk = 64

abbrev pub write_chunk : ℕ
write_chunk = 32

abbrev pub blk_bank : ℕ → ℕ
blk_bank blk = blk / blocks_per_bank

abbrev pub blk_base_addr : ℕ → ℕ
blk_base_addr blk = disk_bank_start + blk % blocks_per_bank * 512

pub record BankDesc : Type 0 where
  pub lower_byte : ℕ
  pub upper_bits : ℕ

-- `buf_blk` is the block number in the buffer; the first argument is not used.
pub populate_bank_desc : ℕ → ℕ → BankDesc
populate_bank_desc blk buf_blk = record {
  lower_byte = bit_and (blk_bank buf_blk) 0xff;
  upper_bits = bit_and (blk_bank buf_blk / 256) 3;
}

-- The descriptors with the data that go with them, from pass `i` on.
reads : ℕ → BankDesc → ℕ → ℕ → List (PpuDesc × List ℕ)
reads blk bank i zero = []
reads blk bank i (suc n) =
    (
      record {
        size = read_chunk;
        target = blk_base_addr blk + i * read_chunk;
        flags = bit_or bank.upper_bits flag_read;
      },
      bank.lower_byte ∷ [],
    )
    ∷ reads blk bank (suc i) n

pub ppuwd_read : ℕ → ℕ → List (PpuDesc × List ℕ)
ppuwd_read minor buf_blk =
    reads (add16 buf_blk minor) (populate_bank_desc (add16 buf_blk minor) buf_blk) 0 8

writes : ℕ → BankDesc → List ℕ → ℕ → ℕ → List (PpuDesc × List ℕ)
writes blk bank bytes i zero = []
writes blk bank bytes i (suc n) =
    (
      record {
        size = write_chunk;
        target = blk_base_addr blk + i * write_chunk;
        flags = bit_or bank.upper_bits flag_write;
      },
      bank.lower_byte ∷ take write_chunk (drop (write_chunk * i) bytes),
    )
    ∷ writes blk bank bytes (suc i) n

pub ppuwd_write : ℕ → ℕ → List ℕ → List (PpuDesc × List ℕ)
ppuwd_write minor buf_blk bytes =
    writes (add16 buf_blk minor) (populate_bank_desc (add16 buf_blk minor) buf_blk) bytes 0 16

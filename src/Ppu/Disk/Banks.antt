-- ===== src/Ppu/Disk/Banks.antt =====
-- Where the blocks of the two disks of uzi-nes-port/drivers/devppuwd.c lie.
use uzi_build.Prelude.{
  ℕ, zero, suc, ◌+◌, ◌-◌, ◌*◌, ◌/◌, ◌%◌, ◌<◌, ◌≡◌, refl, List, arith, add16, get_or, drop,
}
use uzi_build.Ppu.Queue.{PpuDesc}
use uzi_build.Ppu.Disk.{
  BankDesc, blk_base_addr, populate_bank_desc, reads, writes, ppuwd_read, ppuwd_write,
}

-- The byte of the picture processor's memory at which a request begins, by the layout that ppu/ppu_databuf.S
-- documents: bits 4 and 5 of the flags are the upper bits of the bank, the first byte that follows is the
-- lower byte, and the target lies in the second 4096 bytes of what can be addressed.
abbrev pub chr_address : PpuDesc × List ℕ → ℕ
chr_address (desc, follows) =
    4096 * (256 * (desc.flags / 16 % 4) + get_or follows 0 0) + (desc.target - 4096)

-- The flags of a request.
abbrev pub flags_of : PpuDesc × List ℕ → ℕ
flags_of (desc, follows) = desc.flags

-- How many bytes a request moves, and the data that follow the lower byte of the bank.
abbrev pub load_of : PpuDesc × List ℕ → ℕ × List ℕ
load_of (desc, follows) = (desc.size, drop 1 follows)

reads-base :
    (a b : ℕ) (bank : BankDesc) (i n : ℕ)
    → blk_base_addr a ≡ blk_base_addr b
    → reads a bank i n ≡ reads b bank i n
unfolding reads
reads-base a b bank i zero e = refl
reads-base a b bank i (suc n) e = rw (e, reads-base a b bank (suc i) n e)

writes-base :
    (a b : ℕ) (bank : BankDesc) (bytes : List ℕ) (i n : ℕ)
    → blk_base_addr a ≡ blk_base_addr b
    → writes a bank bytes i n ≡ writes b bank bytes i n
unfolding writes
writes-base a b bank bytes i zero e = refl
writes-base a b bank bytes i (suc n) e = rw (e, writes-base a b bank bytes (suc i) n e)

-- For every 16-bit block number and all data, the swap disk (minor 4096) reads and writes the same places
-- as the root disk (minor 0): the bank is taken from the number in the buffer, without the minor number.
pub swap_aliases_root :
    (blk : ℕ) (bytes : List ℕ)
    → blk < 65536
    → (ppuwd_read 4096 blk ≡ ppuwd_read 0 blk)
      × (ppuwd_write 4096 blk bytes ≡ ppuwd_write 0 blk bytes)
unfolding ppuwd_read ppuwd_write populate_bank_desc
swap_aliases_root blk bytes p =
    let same : blk_base_addr (add16 blk 4096) ≡ blk_base_addr (add16 blk 0) = omega arith in
    (
      reads-base (add16 blk 4096) (add16 blk 0) (populate_bank_desc blk blk) 0 8 same,
      writes-base (add16 blk 4096) (add16 blk 0) (populate_bank_desc blk blk) bytes 0 16 same,
    )

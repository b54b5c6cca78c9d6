-- ===== src/Tests/Buffers.antt =====
-- The buffer pool of uzi-nes-port/drivers/devio.c on a pool of two buffers.
use uzi_build.Prelude.{ℕ, ◌≡◌, refl, ◌<◌, none, some, arith, get_elem?, replicate}
use uzi_build.Kernel.{Blkbuf}
use uzi_build.Kernel.Returns.{Returns}
use uzi_build.Buffer.{ndevs, eio, bfind, oldest_buf, bread, bfree, bufsync, freebuf}
use uzi_build.Buffer.View.{view}
use uzi_build.Buffer.Lru.{IsOldest}
use uzi_build.Buffer.Evict.{Evicted, freebuf-Evicted}
use uzi_build.Buffer.Obtain.{Obtained, bread-Obtained}
use uzi_build.Buffer.Release.{Released, bfree-Released}
use uzi_build.Buffer.Sync.{bufsync-flushes}
use uzi_build.Buffer.Failure.{bread_after_failure}
use uzi_build.Tests.Sample.{sample, good, buffer, good-PoolCoherent, good-AllIdle, good-Quiet}

bread-Obtained_example :
    Returns (bread 0 7 0 good) (λ r k'. (i : ℕ) × (r ≡ some i) × Obtained good 0 7 0 i k')
bread-Obtained_example = bread-Obtained good 0 7 0 (good-Quiet 7)

freebuf-Evicted_example :
    Returns (freebuf good) (λ i k'. (o : IsOldest 4 (good.bufpool) i) × Evicted good i o.buf k')
freebuf-Evicted_example =
    freebuf-Evicted good 0 (buffer 1 3) refl refl good-PoolCoherent (λ d n. refl)

bfree-Released_example : Returns (bfree 1 2 good) (λ r k'. Released good 1 2 (buffer 5 2) k')
bfree-Released_example =
    bfree-Released good 1 2 (buffer 5 2) refl good-PoolCoherent (λ d n. refl) (omega arith)
      (omega arith) (λ e q. refl)

bufsync-flushes_example : Returns (bufsync good) (λ _ k'.
    (k' ≡ record good { disk = k'.disk })
    × ((d n : ℕ) → d < ndevs → (k'.disk d n ≡ view good d n) × (view k' d n ≡ view good d n)))
bufsync-flushes_example = bufsync-flushes good good-PoolCoherent good-AllIdle (λ d n. refl)

-- Device 1 fails.
bread_after_failure_example : Returns (bread 1 7 0 sample) (λ r k₁.
    (r ≡ none)
    × (k₁.udata.u_error ≡ eio)
    × Returns (bread 1 7 0 k₁) (λ r' k₂.
      (r' ≡ some 1)
      × (k₂.udata.u_error ≡ eio)
      × ((b' : Blkbuf) × (get_elem? k₂.bufpool 1 ≡ some b') × (b'.bf_data ≡ replicate 512 0))))
unfolding bfind oldest_buf
bread_after_failure_example =
    bread_after_failure sample 1 7 1 (buffer 5 2) (omega arith) refl refl refl refl refl refl

-- ===== src/Fixtures/Load.antt =====
-- A kernel of 64 KiB at 1 MiB, and a bitmap that is all zero.
use treeos.Base.{ℕ, zero, suc, ◌^◌, ◌<◌, ◌≡◌, arith, some, List, replicate, get_elem?}
use treeos.Bitmap.Bits.{IsWords}
use treeos.Pmm.{Kernel}

abbrev pub kernel : Kernel
kernel = record { kern_start = 0xc0100000; kern_end = 0xc0110000; kern_high_offset = 0xc0000000 }

abbrev pub zeros : List ℕ
zeros = replicate 1024 0

zeros_below : (n i w : ℕ) → get_elem? (replicate n 0) i ≡ some w → w < 2 ^ 32
zeros_below zero i w h = cc
zeros_below (suc n) zero w h = ground arith
zeros_below (suc n) (suc i) w h = zeros_below n i w h

pub zeros-IsWords : IsWords zeros
zeros-IsWords i w h = zeros_below 1024 i w h

-- ===== src/Mq/Forge/Batch/Bytes.antt =====
-- Big-endian bytes read back, and the two's complement of a timestamp.
use go_common.Common.{ℕ, zero, suc, ◌^◌, ◌<◌, ◌≡◌, refl, ap, length, arith}
use go_common.Common.Int.{ℤ, bits64, signed64, InI64}
use go_common.Mq.Forge.Batch.{put_be, be_from}

pub be_from-one : (x : ℕ) → x < 2 ^ 8 → be_from 0 (put_be 1 x) ≡ x
unfolding put_be be_from
be_from-one x h = omega arith

pub be_from-two : (x : ℕ) → x < 2 ^ 16 → be_from 0 (put_be 2 x) ≡ x
unfolding put_be be_from
be_from-two x h = omega arith

pub be_from-four : (x : ℕ) → x < 2 ^ 32 → be_from 0 (put_be 4 x) ≡ x
unfolding put_be be_from
be_from-four x h = omega arith

pub be_from-eight : (x : ℕ) → x < 2 ^ 64 → be_from 0 (put_be 8 x) ≡ x
unfolding put_be be_from
be_from-eight x h = omega arith

pub signed64-bits64 : (v : ℤ) → InI64 v → signed64 (bits64 v) ≡ v
signed64-bits64 v h = ground arith

pub bits64-bound : (v : ℤ) → bits64 v < 2 ^ 64
bits64-bound v = ground arith

pub length-put_be : (k x : ℕ) → length (put_be k x) ≡ k
unfolding put_be
length-put_be zero x = refl
length-put_be (suc k) x = ap suc (length-put_be k x)

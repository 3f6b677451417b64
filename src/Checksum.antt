-- ===== src/Checksum.antt =====
-- `cksum` of sr_utils.c: the Internet checksum. `data[0] << 8 | data[1]` of two bytes is
-- `data[0] * 256 + data[1]`, and `sum & 0xffff` is the remainder by 2 ^ 16.
pub mod Laws
pub mod Header
use cs.Base.{
  ℕ, zero, suc, ◌+◌, ◌-◌, ◌*◌, ◌/◌, ◌%◌, ◌^◌, leb, ◌==◌, if◌then◌else◌, Run, done, fault, ◌>>=◌,
}
use cs.Bytes.{Buf, fits, htons}

-- The loop over pairs of bytes and the odd byte behind it, from the offset `off` with `len` bytes
-- to go.
pub sum_loop : Buf → ℕ → ℕ → ℕ → ℕ
sum_loop b off zero sum = sum
sum_loop b off (suc zero) sum = (sum + b.at off * 256) % 2 ^ 32
sum_loop b off (suc (suc len)) sum =
    sum_loop b (off + 2) len ((sum + (b.at off * 256 + b.at (off + 1))) % 2 ^ 32)

-- `while (sum > 0xffff)`, with fuel; a fault stands for fuel that ran out.
pub fold_loop : ℕ → ℕ → Run ℕ
fold_loop zero sum = fault
fold_loop (suc fuel) sum =
    let rest = fold_loop fuel (sum / 2 ^ 16 + sum % 2 ^ 16) in
    if leb sum 0xffff then done sum else rest

-- A 32-bit sum takes two rounds and one last test.
abbrev pub fold_fuel : ℕ
fold_fuel = 3

unfoldable pub cksum : Buf → ℕ → ℕ → Run ℕ
unfolding sum_loop fold_loop
cksum b off len =
    if fits b off len
    then (do
      sum ← fold_loop fold_fuel (sum_loop b off len 0)
      let negated = htons ((2 ^ 32 - 1 - sum) % 2 ^ 16)
      done (if negated == 0 then 0xffff else negated))
    else fault

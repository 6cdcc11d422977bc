-- ===== src/Matrix/Edges.antt =====
-- Edges of bit sets and the permutations that partition by them: src/tilematrix/matrix.rs.
use frayed_cascade.Base.{
  ℕ, zero, suc, ◌+◌, ◌-◌, ◌*◌, ◌/◌, ◌%◌, ◌^◌, bit_and, bit_or, bit_xor, not, Option, none, some,
  List, [], ◌∷◌, ◌++◌, ltb, ◌==◌, if◌then◌else◌, set, take, drop, replicate, shr, bit_not,
  wrapping_sub, wrapping_mul, trailing_zeros,
}
use frayed_cascade.BitSet.{BitSet, word}
use frayed_cascade.Tile.{edge_bits}
use frayed_cascade.Tile.Columns.{Permutation, permute_zero}

-- The rows of `set` in tile-row `trow`, and those of the other rows below `n`.
unfoldable pub set_by_edges : ℕ → BitSet → ℕ → ℕ × ℕ
set_by_edges n s trow =
    let setu64 = word s (trow / 4) in
    let edge = bit_and (shr setu64 (trow * edge_bits % 64)) (2 ^ 16 - 1) in
    let mask2 =
      if ltb (n - trow * edge_bits) edge_bits then 2 ^ (n - trow * edge_bits) - 1 else 2 ^ 16 - 1 in
    (edge % 2 ^ 16, bit_xor mask2 edge % 2 ^ 16)

-- The loop of `edge2perms`, with `n` bits at most to go: a bit is written for each round, and none
-- is left after as many rounds as an edge has bits.
unfoldable pub edge_loop : ℕ → ℕ → List ℕ → ℕ → List ℕ × ℕ
edge_loop zero e perms offset = (perms, offset)
edge_loop (suc n) e perms offset =
    let rest =
      edge_loop n (bit_and e (e - 1)) (set perms offset (trailing_zeros 16 e)) (offset + 1) in
    if not (e == 0) then rest else (perms, offset)

-- Two permutations, for the bytes at and behind the offset, and the new offset. A write behind both
-- is a panic.
unfoldable pub edge2perms : ℕ → ℕ → Option (Permutation × Permutation × ℕ)
edge2perms e offset =
    let (perms, offset') = edge_loop 16 e (replicate 32 permute_zero) offset in
    if ltb 32 offset' then none else some (take 16 perms, take 16 (drop 16 perms), offset')

pub spread_edge : ℕ → ℕ
spread_edge e =
    bit_and (bit_or (wrapping_mul 64 (bit_and e 0xFE) 0x2040810204081) e) 0x0101010101010101

abbrev comb : ℕ
comb = 0x0101010101010101

abbrev mask4 : ℕ
mask4 = 0x0F0F0F0F0F0F0F0F

-- `to_le_bytes` of a 64-bit word, from byte `n` from the end.
pub le_bytes : ℕ → ℕ → List ℕ
le_bytes zero x = []
le_bytes (suc n) x = x % 256 ∷ le_bytes n (x / 256)

-- For the eight bits that `bits` spreads, the offsets before each bit are the bytes of `before`: the
-- bytes of the first permutation, and of the second.
pub first_bytes : ℕ → ℕ → List ℕ
first_bytes bits before =
    let mask = wrapping_mul 64 bits 0xFF in
    let over = wrapping_mul 64 (bit_and (shr before 4) comb) 0xFF in
    le_bytes 8 (bit_or (bit_or (bit_not 64 mask) over) before)

pub second_bytes : ℕ → ℕ → List ℕ
second_bytes bits before =
    let mask = wrapping_mul 64 bits 0xFF in
    let over = wrapping_mul 64 (bit_and (shr before 4) comb) 0xFF in
    le_bytes 8 (bit_or (bit_or (bit_not 64 mask) (bit_not 64 over)) (bit_and before mask4))

pub co_edge2perms : ℕ → ℕ → Permutation × Permutation × ℕ
co_edge2perms e offset =
    let lo = spread_edge (bit_and e 0xFF) in
    let hi = spread_edge (shr e 8) in
    let lo_sums = wrapping_mul 64 (lo + offset) comb in
    let hi_sums = wrapping_mul 64 (hi + shr lo_sums 56) comb in
    let lo_cumu = wrapping_sub 64 lo_sums lo in
    let hi_cumu = wrapping_sub 64 hi_sums hi in
    (
      first_bytes lo lo_cumu ++ first_bytes hi hi_cumu,
      second_bytes lo lo_cumu ++ second_bytes hi hi_cumu,
      shr hi_sums 56,
    )

-- ===== src/Maglev.antt =====
-- control/src/maglev.rs: the precomputed Maglev table, its construction and its lookup.
pub mod Inverse
pub mod Probe
pub mod Turn
pub mod Turns
pub mod Rounds
pub mod Start
pub mod Built
pub mod Examples
use plecto.Prelude.{
  ℕ, zero, suc, ◌+◌, ◌*◌, ◌-◌, ◌%◌, Bool, true, false, ◌||◌, List, [], ◌∷◌, Option, none, some,
  Text, length, map, get_or, get_elem?, set, replicate, max, if◌then◌else◌, ltb, ◌==◌,
}
use plecto.Hash.{murmur3_x64_128, wrapping_mul}

pub record MaglevTable : Type 0 where
  pub table : List ℕ

-- The items of the vectors `offset`, `skip`, `weights`, `target` and `next` at one index.
pub record Backend : Type 0 where
  pub offset : ℕ
  pub skip : ℕ
  pub weight : ℕ
  pub target : ℕ
  pub next : ℕ

-- An entry of -1 is `none`.
pub record Filling : Type 0 where
  pub entry : List (Option ℕ)
  pub filled : ℕ

unfoldable pub backend_of : ℕ → Text × ℕ → Backend
backend_of m (name, weight) =
    let (h1, h2) = murmur3_x64_128 name 0 in
    record { offset = h1 % m; skip = h2 % (m - 1) + 1; weight = weight; target = weight; next = 0 }

-- The slot that a backend prefers in place `n`.
abbrev pub slot : ℕ → Backend → ℕ → ℕ
slot m b n = (b.offset + wrapping_mul n b.skip) % m

abbrev pub is_taken : Option ℕ → Bool
is_taken none = false
is_taken (some i) = true

-- The `while` loop: the first place from `n` on whose slot is free, among `fuel` places.
unfoldable pub probe : ℕ → ℕ → List (Option ℕ) → Backend → ℕ → ℕ
probe zero m entry b n = n
probe (suc fuel) m entry b n =
    let rest = probe fuel m entry b (n + 1) in
    if is_taken (get_or entry (slot m b n) none) then rest else n

-- Backend `i` takes its turn.
unfoldable pub take_turn : ℕ → ℕ → ℕ → Backend → Filling → Backend × Filling
take_turn m max_w i b f =
    let n = probe m m f.entry b b.next in
    (
      record b { target = b.target + max_w; next = n + 1 },
      record { entry = set f.entry (slot m b n) (some i); filled = f.filled + 1 },
    )

abbrev pub keep_first : Backend → List Backend × Filling → List Backend × Filling
keep_first b (bs, f) = (b ∷ bs, f)

-- The `for` loop of a round, from index `i` on. A full table ends it.
unfoldable pub turns : ℕ → ℕ → ℕ → ℕ → List Backend → Filling → List Backend × Filling
turns m max_w round i [] f = ([], f)
turns m max_w round i (b ∷ bs) f =
    let (b', f') = take_turn m max_w i b f in
    let skipped = keep_first b (turns m max_w round (suc i) bs f) in
    let taken = keep_first b' (turns m max_w round (suc i) bs f') in
    if (b.weight == 0) || ltb (round * b.weight) b.target
    then skipped
    else if f'.filled == m
    then (b' ∷ bs, f')
    else taken

-- The rounds after `round`, at most `fuel` of them.
unfoldable pub fill : ℕ → ℕ → ℕ → ℕ → List Backend → Filling → Filling
fill zero m max_w round bs f = f
fill (suc fuel) m max_w round bs f =
    let (bs', f') = turns m max_w (suc round) 0 bs f in
    let next_round = fill fuel m max_w (suc round) bs' f' in
    if ltb f.filled m then next_round else f

abbrev pub max_weight : List Backend → ℕ
max_weight [] = 0
max_weight (b ∷ bs) = max b.weight (max_weight bs)

-- `as u16`: -1 would be 65535.
abbrev pub as_u16 : Option ℕ → ℕ
as_u16 none = 65535
as_u16 (some i) = i % 65536

abbrev pub empty_filling : ℕ → Filling
empty_filling m = record { entry = replicate m none; filled = 0 }

-- The table of `m` slots for the instances' names and weights. `m` is at least 2, a round fills a slot, and
-- a free slot is among the `m` places of a backend, when the arguments are as validation leaves them.
unfoldable pub build : List (Text × ℕ) → ℕ → MaglevTable
build entries m =
    let bs = map (backend_of m) entries in
    let max_w = max (max_weight bs) 1 in
    record { table = map as_u16 (fill m m max_w 0 bs (empty_filling m)).entry }

-- `table[slot]` is in bounds, so the read is never `none` on a table that is not empty.
unfoldable pub lookup : MaglevTable → ℕ → Option ℕ
lookup t key_hash =
    let m = length t.table in if m == 0 then none else get_elem? t.table (key_hash % m)

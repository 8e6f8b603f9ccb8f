-- ===== src/Storage/FileManager/Sizes.antt =====
-- file_manager.rs: shards as raw bytes, and the size that `reconstruct_file` estimates.
use libre_drive.Prelude.{
  ℕ, zero, suc, ◌+◌, ◌-◌, ◌*◌, ◌/◌, ◌≤◌, ◌<◌, ◌≡◌, refl, sym, ap, ◌∙◌, Option, none, some, List, [],
  ◌∷◌, ◌++◌, map, arith, All, length, take, drop, replicate, flatten, length-append,
  take-append-drop, length-take, length-replicate, take-all,
}
use libre_drive.Prelude.Text.{Bytes, Str}
use libre_drive.Prelude.Word.{u64_mod, add_u64, add_u64-eq}
use native.Mathlib.Nat.{add-mul-div_left, zero-div, zero-add, mod-eq_of_lt, mul-le-mul_left}
use libre_drive.Storage.Erasure.Blocks.{blocks, take-blocks}
use libre_drive.Storage.Erasure.{ErasureConfig, number_shards, count_some, shard_contents}
use libre_drive.Storage.FileManager.Boundary.{Externals}
use libre_drive.Storage.FileManager.{FileMetadata, locate, as_shards, sum_sizes, estimated_size}

pub contents-as_shards :
    (c : ErasureConfig) (i : ℕ) (left : List (Option Bytes))
    → map shard_contents (as_shards c i left) ≡ left
unfolding as_shards
contents-as_shards c i [] = refl
contents-as_shards c i (none ∷ left) = ap (◌∷◌ none) (contents-as_shards c (i + 1) left)
contents-as_shards c i (some xs ∷ left) = ap (◌∷◌ (some xs)) (contents-as_shards c (i + 1) left)

pub count-as_shards :
    (c : ErasureConfig) (i : ℕ) (left : List (Option Bytes))
    → count_some (as_shards c i left) ≡ count_some left
unfolding as_shards count_some
count-as_shards c i [] = refl
count-as_shards c i (none ∷ left) = count-as_shards c (i + 1) left
count-as_shards c i (some xs ∷ left) = ap suc (count-as_shards c (i + 1) left)

pub contents-number_shards :
    (d i : ℕ) (all : List Bytes) → map (λ s. s.contents) (number_shards d i all) ≡ all
unfolding number_shards
contents-number_shards d i [] = refl
contents-number_shards d i (xs ∷ all) = ap (◌∷◌ xs) (contents-number_shards d (i + 1) all)

-- The recorded sizes add up to the number of shards times their size.
pub sum_sizes-locate :
    (x : Externals) (h : Str) (d n i : ℕ) (all : List Bytes)
    → All (λ xs. length xs ≡ n) all
    → length all * n < u64_mod
    → sum_sizes (map (locate x h) (number_shards d i all)) ≡ length all * n
unfolding sum_sizes number_shards locate
sum_sizes-locate x h d n i [] sizes fits = omega arith
sum_sizes-locate x h d n i (xs ∷ all) sizes fits =
    let ih = sum_sizes-locate x h d n (i + 1) all sizes.1 (omega arith) in
    let e : suc (length all) * n ≡ n + length all * n = omega arith in
    rw (ih, sizes.0) (add_u64-eq n (length all * n) (omega arith) ∙ sym e)

length-flatten-blocks :
    (rounds n : ℕ) (xs : Bytes) → length (flatten (blocks rounds n xs)) ≡ rounds * n
length-flatten-blocks zero n xs = omega arith
length-flatten-blocks (suc rounds) n xs =
    let a = take n xs ++ replicate (n - length xs) 0 in
    omega (
      arith,
      length-append a (flatten (blocks rounds n (drop n xs))),
      length-append (take n xs) (replicate (n - length xs) 0),
      length-take n xs,
      length-replicate {A = ℕ} (n - length xs) 0,
      length-flatten-blocks rounds n (drop n xs),
    )

-- All the blocks are the data and something behind it.
pub take-all-blocks :
    (rounds n : ℕ) (xs : Bytes)
    → length xs ≤ rounds * n
    → take (n * rounds) (flatten (blocks rounds n xs))
      ≡ xs ++ drop (length xs) (flatten (blocks rounds n xs))
take-all-blocks rounds n xs h =
    let bs = flatten (blocks rounds n xs) in
    take-all (n * rounds) bs (omega (arith, length-flatten-blocks rounds n xs))
    ∙ sym (take-append-drop (length xs) bs)
    ∙ ap (λ ys. ys ++ drop (length xs) bs) (take-blocks rounds n xs h)

-- The estimate is the size of all data shards, padding included.
pub estimated_size_lem :
    (m : FileMetadata) (n : ℕ)
    → 0 < m.erasure_config.data_shards
    → m.erasure_config.data_shards + m.erasure_config.parity_shards ≤ 256
    → 256 * n < u64_mod
    → sum_sizes m.shards ≡ (m.erasure_config.data_shards + m.erasure_config.parity_shards) * n
    → estimated_size m ≡ n * m.erasure_config.data_shards
unfolding estimated_size
estimated_size_lem m n some_data few fits e =
    let d = m.erasure_config.data_shards in
    let p = m.erasure_config.parity_shards in
    let t : add_u64 d p ≡ d + p = add_u64-eq d p (omega arith) in
    let q : (d + p) * n / (d + p) ≡ n =
      ap (λ k. k / (d + p)) (omega arith)
      ∙ add-mul-div_left 0 n {y = d + p} (omega arith)
      ∙ ap (λ k. k + n) (zero-div (d + p))
      ∙ zero-add n in
    let le : n * d ≤ n * 256 = mul-le-mul_left {m = d} {n = 256} n (omega arith) in
    rw (e, t, q) (mod-eq_of_lt (omega arith))

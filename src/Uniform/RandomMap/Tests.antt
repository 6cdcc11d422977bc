-- ===== src/Uniform/RandomMap/Tests.antt =====
-- A `CompressedRandomMap` of src/uniform.rs with three items, and the theorems applied to it.
use frayed_cascade.Base.{
  map, ℕ, Bool, true, false, ◌==◌, if◌then◌else◌, Option, none, some, List, [], ◌∷◌,
}
use frayed_cascade.Uniform.Row.{HasherKey, FrayedRow, choose_key}
use frayed_cascade.Uniform.Row.Tests.{summing, some_key}
use frayed_cascade.Uniform.Core.{owned}
use frayed_cascade.Uniform.Build.{BuildOptions, default}
use frayed_cascade.Uniform.RandomMap.{CompressedRandomMap, wrap, item_row, attempt, build}
use frayed_cascade.Uniform.RandomMap
use frayed_cascade.Uniform.RandomMap.Answers.{BuiltHeaded, build-Headed}

abbrev three_items : List (ℕ × Bool)
three_items = (3, true) ∷ (8, false) ∷ (11, true) ∷ []

abbrev keyed : BuildOptions
keyed = record default { key_gen = some some_key }

abbrev response : Bool → ℕ
response true = 231
response false = 0

abbrev try_into : ℕ → Option Bool
try_into r = if r == 231 then some true else if r == 0 then some false else none

abbrev fresh : ℕ → HasherKey
fresh t = some_key

abbrev built_key : HasherKey
built_key = choose_key summing some_key (some some_key) 0

-- The bytes that the solver writes for these items.
abbrev built_bytes : List ℕ
built_bytes =
    69 ∷ 85 ∷ 85 ∷ 85 ∷ 52 ∷ 51 ∷ 51 ∷ 51 ∷ 213 ∷ 240 ∷ 240 ∷ 240 ∷ 152 ∷ 90 ∷ 165 ∷ 90 ∷ 164 ∷ 201
    ∷ 108 ∷ 54 ∷ 125 ∷ 56 ∷ 28 ∷ 14 ∷ 185 ∷ 82 ∷ 169 ∷ 84 ∷ 201 ∷ 156 ∷ 49 ∷ 103 ∷ 85 ∷ 85 ∷ 85 ∷ 85
    ∷ 51 ∷ 51 ∷ 51 ∷ 51 ∷ 240 ∷ 240 ∷ 240 ∷ 240 ∷ 165 ∷ 90 ∷ 165 ∷ 90 ∷ 147 ∷ 201 ∷ 108 ∷ 54 ∷ 143
    ∷ 199 ∷ 227 ∷ 241 ∷ 42 ∷ 149 ∷ 74 ∷ 165 ∷ 204 ∷ 25 ∷ 115 ∷ 198 ∷ []

abbrev built_map : CompressedRandomMap
built_map = record {
  core = record {
    hash_key = built_key;
    bits_per_value = 8;
    nblocks = 2;
    blocks = owned built_bytes;
  };
}

item_rows : List FrayedRow
item_rows = map (item_row summing response fresh keyed built_key 2) three_items

build-Headed_example :
    BuiltHeaded summing response fresh three_items keyed
      (build summing response fresh three_items keyed)
build-Headed_example = build-Headed summing response fresh three_items keyed

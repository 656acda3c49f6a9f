-- ===== src/Simple/Decode/Cost.antt =====
-- How much fuel the decoders need for a value, and which blocks.
use cc_common.Base.{ℕ, ◌+◌, ◌^◌, ◌≤◌, ◌<◌, ◌≡◌, arith}
use cc_common.Base.{Bool, true}
use cc_common.Value.{Value, arr, map, Items, no_items, item, Fields, no_fields, field}

-- Fuel: one for each value, and one for each round of a loop and its end.
unfoldable mutual
  pub cost : Value → ℕ
  cost (arr xs) = 1 + cost_items xs
  cost (map fs) = 1 + cost_fields fs
  cost v = 1

  pub cost_items : Items → ℕ
  cost_items no_items = 1
  cost_items (item x xs) = 1 + (cost x + cost_items xs)

  pub cost_fields : Fields → ℕ
  cost_fields no_fields = 1
  cost_fields (field k v fs) = 1 + (cost k + (cost v + cost_fields fs))

pub ap₃ :
    {k k' v v' : Value} {fs fs' : Fields} (c : Value → Value → Fields → Fields)
    → k ≡ k'
    → v ≡ v'
    → fs ≡ fs'
    → c k v fs ≡ c k' v' fs'
ap₃ c p q r = rw (p, q, r)

pub cost-pos : (v : Value) → 1 ≤ cost v
unfolding cost
cost-pos (arr xs) = omega arith
cost-pos (map fs) = omega arith
cost-pos v = omega arith

pub cost_items-pos : (xs : Items) → 1 ≤ cost_items xs
unfolding cost
cost_items-pos no_items = omega arith
cost_items-pos (item x xs) = omega arith

pub cost_fields-pos : (fs : Fields) → 1 ≤ cost_fields fs
unfolding cost
cost_fields-pos no_fields = omega arith
cost_fields-pos (field k v fs) = omega arith

-- A container of up to 255 entries is granted its block.
abbrev pub GrantsShort : (ℕ → ℕ → Bool) → Type 0
GrantsShort calloc = (n : ℕ) → n < 2 ^ 8 → (calloc n 40 ≡ true) × (calloc n 80 ≡ true)

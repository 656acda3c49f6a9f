-- ===== src/Examples/Lockset.antt =====
-- The lock set at concrete keys: one thread asks for the lock of "a".
use cc_common.Base.{has, ℕ, ◌≡◌, ◌≢◌, ◌↔◌, ◌∙◌, refl, sym, arith, true, false, [], ◌∷◌}
use cc_common.Lockset.{update, lock_for, find}
use cc_common.Lockset.Keys.{Key, same, compare_keys, sort, insert_key, up_to}
use cc_common.Lockset.Thread.{
  Pc, idle, asking, locking, holding, enter, pick, leave, lock, ready, System, Step, Reach, started,
  start, later, calls, first,
}
use cc_common.Lockset.Safe.{taken}
use cc_common.Lockset.Progress.{CanWork, no_deadlock}
use cc_common.Lockset.Count.{in_locks, count_lem}
use cc_common.Lockset.Drain.{total, Run, Run-Reach, Drained, Run-drains}
use cc_common.Lockset.Exclusion.{mutual_exclusion}
use cc_common.Lockset.Again.{asks, taken_once, first_call, second-stuck}
use cc_common.Lockset.Covers.{has_key, HasLock}
use cc_common.Lockset.Contract.{CallOf, called, own, locks_for_lem}

abbrev key_a : Key
key_a = 97 ∷ []

sort_keys :
    sort ((99 ∷ []) ∷ (97 ∷ 98 ∷ []) ∷ (97 ∷ []) ∷ []) ≡ (97 ∷ []) ∷ (97 ∷ 98 ∷ []) ∷ (99 ∷ []) ∷ []
unfolding sort insert_key up_to compare_keys
sort_keys = refl

key_a_real : same key_a [] ≡ false
unfolding same compare_keys
key_a_real = refl

-- Where the threads stand after the call.
abbrev held_pc : ℕ → Pc
held_pc = (first_call key_a key_a_real).0

abbrev held : System
held = record { mem = taken_once key_a; pc = held_pc }

held-Reach : Reach false 1 held
held-Reach =
    Run-Reach (later started (calls 0 (omega arith) (first (key_a ∷ []))))
      (first_call key_a key_a_real).1.1

held_pc_zero : held_pc 0 ≡ holding (0 ∷ [])
held_pc_zero = (first_call key_a key_a_real).2

held_busy : held_pc 0 ≢ idle
held_busy e = holding_idle (sym held_pc_zero ∙ e)
  where
    holding_idle : holding (0 ∷ []) ≢ idle
    holding_idle e = cc

held_has : has 0 (taken (held_pc 0)) ≡ true
held_has = rw held_pc_zero

no_deadlock_example : CanWork 1 held
no_deadlock_example = no_deadlock held-Reach 0 held_busy

Run-drains_example : (k : ℕ) × (t : System) × Run 1 k held t × Drained t
Run-drains_example = Run-drains held-Reach

mutual_exclusion_example : ◌≡◌ {A = ℕ} 0 0
mutual_exclusion_example = mutual_exclusion held-Reach 0 0 0 0 held_has held_has refl

second-stuck_example :
    (l m : ℕ) × (s t : System) × Run 1 l (asks start [] key_a) s
    × (s.pc 0 ≡ holding (0 ∷ []))
    × (s.mem.m ≡ key_a ∷ [])
    × Run 1 m (asks s (0 ∷ []) key_a) t
    × (t.pc 0 ≡ locking (0 ∷ []) (0 ∷ []))
    × (t.mem.m ≡ key_a ∷ [])
    × Reach true 1 t
    × ((u : System) → ¬ Step true 1 t u)
second-stuck_example = second-stuck key_a key_a_real

asked_once :
    (s : System) × CallOf 1 0 (key_a ∷ []) s × (s.pc 0 ≡ holding (0 ∷ [])) × (s.mem.m ≡ key_a ∷ [])
unfolding sort insert_key lock_for find same compare_keys
asked_once =
    let c0 : CallOf 1 0 (key_a ∷ [])
        (record start { pc = update start.pc 0 (asking [] (key_a ∷ [])) }) =
      called started (omega arith) refl in
    let c1 = own c0 (omega arith) refl (enter refl) in
    let c2 = own c1 (omega arith) refl (pick refl) in
    let c3 = own c2 (omega arith) refl leave in
    let c4 = own c3 (omega arith) refl (lock refl) in
    let c5 = own c4 (omega arith) refl ready in (_, c5, refl, refl)

locks_for_lem_example :
    (has_key key_a (key_a ∷ []) ≡ true) ↔ HasLock asked_once.0.mem.m (0 ∷ []) key_a
locks_for_lem_example = locks_for_lem asked_once.1 asked_once.2 key_a key_a_real

count_lem_example : held.mem.count 0 ≡ total 1 (in_locks 0) held_pc
count_lem_example = count_lem held-Reach 0

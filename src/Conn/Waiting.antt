-- ===== src/Conn/Waiting.antt =====
-- What `Manager::wait` promises, and how it may miss the last notification.
use cc_common.Base.{
  ◌-◌, if◌then◌else◌, Bool-cases, inl, inr, ℕ, zero, suc, ◌+◌, ◌≤◌, ◌<◌, ◌≡◌, refl, ap, arith, Bool,
  true, false,
}
use mathlib.Core.Path.{subst}
use cc_common.Conn.Manager.{
  is_inline, Main, starting, serving, counting, missed, blocked, returned, Life, Setting, Step,
  create, serve, serve_done, add_one, wait, all_done, some_left, block, drop_one, wake, wake_none,
  wake_itself, Reach, started, later,
}

-- How many servers were started, and how many of these `numWorkers_` has counted.
abbrev begun : Setting → Main → ℕ
begun c (starting i) = i
begun c (serving i) = i
begun c (counting i) = i + 1
begun c m = c.workers

abbrev upper : Setting → Main → ℕ
upper c (starting i) = i
upper c (serving i) = i + 1
upper c (counting i) = i + 1
upper c m = c.workers

abbrev counted : Setting → Main → ℕ
counted c (starting i) = i
counted c (serving i) = i
counted c (counting i) = i
counted c m = c.workers

abbrev has_returned : Main → Bool
has_returned returned = true
has_returned m = false

record Inv (c : Setting) (s : Life) : Type 0 where
  bound : upper c s.main ≤ c.workers
  ups_eq : s.ups ≡ counted c s.main
  downs_eq : s.downs + s.running ≡ begun c s.main
  done : has_returned s.main ≡ true → s.running ≡ 0

-- What the position of the manager's thread tells.
at_main :
    (c : Setting) {m m' : Main}
    → m ≡ m'
    → (upper c m ≡ upper c m')
      × (begun c m ≡ begun c m')
      × (counted c m ≡ counted c m')
      × (has_returned m ≡ has_returned m')
at_main c e = (ap (upper c) e, ap (begun c) e, ap (counted c) e, ap has_returned e)

Step-Inv : {c : Setting} {s t : Life} → Step c s t → Inv c s → Inv c t
Step-Inv {c} {s = s} (create e lt own) v = ground (arith, at_main c e)
Step-Inv {c} {s = s} (serve e lt inline) v = ground (arith, at_main c e)
Step-Inv {c} {s = s} (serve_done e) v = ground (arith, at_main c e)
Step-Inv {c} {s = s} (add_one e) v = ground (arith, at_main c e)
Step-Inv {c} {s = s} (wait e) v = ground (arith, at_main c e)
Step-Inv {c} {s = s} (all_done e z) v = ground (arith, at_main c e)
Step-Inv {c} {s = s} (some_left e z) v = ground (arith, at_main c e)
Step-Inv {c} {s = s} (block e) v = ground (arith, at_main c e)
Step-Inv {c} {s = s} (drop_one e) v = ground (arith, v.bound, v.ups_eq, v.downs_eq, v.done)
Step-Inv {c} {s = s} (wake e b) v = ground (arith, at_main c b)
Step-Inv {c} {s = s} (wake_none e b) v = ground (arith, v.bound, v.ups_eq, v.downs_eq, v.done)
Step-Inv {c} {s = s} (wake_itself e b) v = ground (arith, at_main c e)

Reach-Inv : {c : Setting} {s : Life} → Reach c s → Inv c s
Reach-Inv started = ground arith
Reach-Inv (later r st) = Step-Inv st (Reach-Inv r)

-- When `wait` returns, every server that was started has ended: as many as there are workers have come
-- to the decrement of `serverDone`, and no thread still runs a server.
pub wait-returned :
    {c : Setting} {s : Life}
    → Reach c s
    → s.main ≡ returned
    → (s.running ≡ 0) × (s.downs ≡ c.workers) × (s.ups ≡ c.workers)
wait-returned {c} {s} r e =
    let v = Reach-Inv r in
    ground
      (arith, ap (begun c) e, ap (counted c) e, v.downs_eq, v.ups_eq, v.done (ap has_returned e))

-- How many threads `run` makes.
abbrev pub threads : Setting → ℕ
threads c = if c.use_this_thread then c.workers - 1 else c.workers

-- All threads are created, and `wait` finds them running.
abbrev all_created : Setting → ℕ → Life
all_created c i = record { main = starting i; running = i; notifying = 0; ups = i; downs = 0 }

create_all : (c : Setting) (i : ℕ) → i ≤ threads c → Reach c (all_created c i)
create_all c zero le = started
create_all c (suc i) le =
    let r = later (create_all c i (omega arith)) (create refl (ground arith) (ground arith)) in
    let one : i + 1 ≡ suc i = omega arith in
    subst
      (λ k. Reach c (record { main = starting k; running = k; notifying = 0; ups = k; downs = 0 }))
      one (later r (add_one refl))

-- The waiting thread is before `cond_.wait`, and `r` servers still run.
abbrev before_wait : Setting → ℕ → ℕ → Life
before_wait c r d = record { main = missed; running = r; notifying = 0; ups = c.workers; downs = d }

end_all : (c : Setting) (r d : ℕ) → Reach c (before_wait c r d) → Reach c (before_wait c 0 (d + r))
end_all c zero d r = subst (λ k. Reach c (before_wait c 0 k)) (omega arith) r
end_all c (suc n) d r =
    let ended = later (later r (drop_one refl)) (wake_none refl (λ e. cc)) in
    subst (λ k. Reach c (before_wait c 0 k)) (omega arith) (end_all c n (d + 1) ended)

-- The waiting thread is in `cond_.wait`, and every server has ended and notified.
abbrev asleep : Setting → Life
asleep c = record { main = blocked; running = 0; notifying = 0; ups = c.workers; downs = c.workers }

nothing_left : (c : Setting) (t : Life) → c.spurious ≡ false → ¬ Step c (asleep c) t
nothing_left c t calm (create e lt own) = cc
nothing_left c t calm (serve e lt inline) = cc
nothing_left c t calm (serve_done e) = cc
nothing_left c t calm (add_one e) = cc
nothing_left c t calm (wait e) = cc
nothing_left c t calm (all_done e z) = cc
nothing_left c t calm (some_left e z) = cc
nothing_left c t calm (block e) = cc
nothing_left c t calm (drop_one e) = absurd (omega arith)
nothing_left c t calm (wake e b) = absurd (omega arith)
nothing_left c t calm (wake_none e b) = absurd (omega arith)
nothing_left c t calm (wake_itself e b) = cc

-- All servers were started, `r` of them by threads, and `d` have ended.
abbrev all_begun : Setting → ℕ → ℕ → ℕ → Life
all_begun c w r d = record { main = starting w; running = r; notifying = 0; ups = w; downs = d }

all_begun-eq :
    (c : Setting) {w w' r r' d d' : ℕ}
    → w ≡ w'
    → r ≡ r'
    → d ≡ d'
    → Reach c (all_begun c w r d)
    → Reach c (all_begun c w' r' d')
all_begun-eq c {w} {w'} {r} {r'} {d} {d'} e f g h =
    subst (λ x. Reach c (all_begun c x r' d')) e
      (subst (λ x. Reach c (all_begun c w x d')) f (subst (λ x. Reach c (all_begun c w r x)) g h))

-- Where the last server is run by the manager's thread, it has ended before `wait`.
begin_all :
    (c : Setting)
    → 0 < c.workers
    → Reach c (all_begun c c.workers (threads c) (c.workers - threads c))
begin_all c some_workers = elim (Bool-cases c.use_this_thread) [
  | inr none_here ↦
      let all : threads c ≡ c.workers = ground (arith, none_here) in
      all_begun-eq c all refl (omega (arith, all)) (create_all c (threads c) (omega arith))
  | inl last_here ↦
      let all : threads c ≡ c.workers - 1 = ground (arith, last_here) in
      let here : is_inline c (threads c) ≡ true = ground (arith, last_here, all) in
      let r = create_all c (threads c) (omega arith) in
      let r' =
        later (later (later r (serve refl (omega (arith, all)) here)) (serve_done refl))
          (add_one refl) in
      all_begun-eq c (omega (arith, all)) refl (omega (arith, all)) r'
]

-- If `run` makes a thread: without spurious wake-ups a state can be reached in which every server has
-- ended and notified, `wait` is blocked, and no step is possible.
pub wait-forever :
    (c : Setting)
    → 0 < threads c
    → c.spurious ≡ false
    → Reach c (asleep c) × ((t : Life) → ¬ Step c (asleep c) t)
wait-forever c some_threads calm =
    let few : threads c ≤ c.workers = ground arith in
    let ready = later (begin_all c (omega (arith, few))) (wait refl) in
    let before = later ready (some_left refl (λ e. absurd (omega (arith, few)))) in
    let all : c.workers - threads c + threads c ≡ c.workers = omega (arith, few) in
    (
      later
          (subst (λ k. Reach c (before_wait c 0 k)) all
            (end_all c (threads c) (c.workers - threads c) before))
          (block refl),
      λ t. nothing_left c t calm,
    )

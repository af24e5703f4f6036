-- ===== src/Tcp/Loop.antt =====
-- The loop of `connect_all_with` of src/probe/tcp.rs: what every round keeps, and what it ends with.
use mathlib.Core.List.{Memᴰ, append_assoc}
use netwhy.Prelude.{
  ℕ, suc, ◌≤◌, ◌<◌, ◌≡◌, ◌⊎◌, refl, ap, sym, ◌∙◌, true, ◌==◌, Option, none, some, List, [], ◌∷◌,
  ◌++◌, map, arith, if◌then◌else◌, length, get_elem?, replicate, All, All-imp, Bool-cases, inl, inr,
  length-append, length-take, any_of_mem,
}
use netwhy.Net.{SocketAddr}
use netwhy.Model.{TcpResult}
use netwhy.Tcp.{
  Task, enumerate, remove, Pool, start, Outcomes, join_next, max_concurrent_connects, store,
  spawn_next,
}
use netwhy.Tcp.Queue.{
  remove-append, length-remove, get_elem-append, get_elem_below, All-remove, All-get_elem,
  take-drop, drop-or-take, map_congr, All-self, DifferInIndex, DifferInIndex-remove, index_unique,
  is_queued, is_queued-remove, DifferInIndex-enumerate, set-map-enumerate,
}

-- The tasks that have not ended.
abbrev pub queue : Pool → List Task
queue p = p.running ++ p.pending

module _ (outcome : Outcomes) (addresses : List SocketAddr) where
  abbrev tasks : List Task
  tasks = enumerate 0 addresses

  -- What is stored for a task: nothing while it is in the queue.
  abbrev pub entry : List Task → Task → Option TcpResult
  entry q t = if is_queued t.index q then none else outcome t

  -- At most eight tasks run, and eight do while an address waits; the queue holds tasks of the
  -- addresses, each once; and the results are those of the tasks that have ended.
  pub record IsPool (p : Pool) : Type 0 where
    pub bounded : length p.running ≤ max_concurrent_connects
    pub busy : (p.pending ≡ []) ⊎ (length p.running ≡ max_concurrent_connects)
    pub distinct : DifferInIndex (queue p)
    pub known : All (λ t. Memᴰ t tasks) (queue p)
    pub stored : p.results ≡ map (entry (queue p)) tasks

  queued_self : (q : List Task) → All (λ t. Memᴰ t q) q → All (λ t. is_queued t.index q ≡ true) q
  queued_self q h =
      All-imp (λ t m. any_of_mem (λ (s : Task). t.index == s.index) q m (ground arith)) q h

  nothing_stored :
      (o : ℕ) (xs : List SocketAddr)
      → replicate {A = Option TcpResult} (length xs) none ≡ map (λ t. none) (enumerate o xs)
  nothing_stored o [] = refl
  nothing_stored o (x ∷ xs) = ap (λ ys. none ∷ ys) (nothing_stored (suc o) xs)

  pub IsPool-start : IsPool (start addresses)
  IsPool-start = record {
    bounded = length-take max_concurrent_connects tasks;
    busy = drop-or-take max_concurrent_connects tasks;
    distinct = rw take-drop (DifferInIndex-enumerate 0 addresses);
    known = rw take-drop (All-self tasks);
    stored = rw take-drop (
        nothing_stored 0 addresses
        ∙ map_congr (λ t. none) (entry tasks) tasks
            (All-imp (λ t e. rw e refl) tasks (queued_self tasks (All-self tasks))));
  }

  -- The next address is spawned, where there is one.
  module _ (r : List Task) (rs : List (Option TcpResult)) where
    abbrev spawned : List Task → Pool
    spawned pending = spawn_next (record { running = r; pending = pending; results = rs })

    queue-spawned : (pending : List Task) → queue (spawned pending) ≡ r ++ pending
    queue-spawned [] = refl
    queue-spawned (t ∷ later) = append_assoc r (t ∷ []) later

    results-spawned : (pending : List Task) → (spawned pending).results ≡ rs
    results-spawned [] = refl
    results-spawned (t ∷ later) = refl

    bounded-spawned :
        (pending : List Task)
        → suc (length r) ≤ max_concurrent_connects
        → length (spawned pending).running ≤ max_concurrent_connects
    bounded-spawned [] h = omega arith
    bounded-spawned (t ∷ later) h = omega (arith, length-append r (t ∷ []))

    busy-spawned :
        (pending : List Task)
        → (pending ≡ []) ⊎ (suc (length r) ≡ max_concurrent_connects)
        → ((spawned pending).pending ≡ [])
          ⊎ (length (spawned pending).running ≡ max_concurrent_connects)
    busy-spawned [] h = inl refl
    busy-spawned (t ∷ later) (inl e) = cc
    busy-spawned (t ∷ later) (inr e) = inr (omega (arith, length-append r (t ∷ [])))

  module _ (p : Pool) (h : IsPool p) (k : ℕ) (t : Task)
      (at_k : get_elem? (queue p) k ≡ some t) where
    is_known : Memᴰ t tasks
    is_known = All-get_elem _ (queue p) k t h.known at_k

    was_queued : is_queued t.index (queue p) ≡ true
    was_queued =
        All-get_elem (λ s. is_queued s.index (queue p) ≡ true) (queue p) k t
          (queued_self (queue p) (All-self (queue p))) at_k

    -- The entry of the task that ends is the only one that changes.
    entry-remove :
        (s : Task)
        → Memᴰ s tasks
        → (if s.index == t.index then outcome t else entry (queue p) s)
          ≡ entry (remove (queue p) k) s
    entry-remove s m = elim (Bool-cases (s.index == t.index)) [
      | inl e ↦
          let same : s ≡ t =
            index_unique (DifferInIndex-enumerate 0 addresses) m is_known (ground arith) in
          rw (is_queued-remove s.index (queue p) k t h.distinct at_k, e, same) (ground arith)
      | inr e ↦ rw (is_queued-remove s.index (queue p) k t h.distinct at_k, e) (ground arith)
    ]

    entry_unchanged :
        outcome t ≡ none
        → (s : Task)
        → entry (queue p) s ≡ (if s.index == t.index then outcome t else entry (queue p) s)
    entry_unchanged o s = elim (Bool-cases (s.index == t.index)) [
      | inl e ↦ let i : s.index ≡ t.index = ground arith in rw (e, o, i, was_queued) refl
      | inr e ↦ rw e refl
    ]

    stored-store :
        (o : Option TcpResult)
        → outcome t ≡ o
        → store p.results t o ≡ map (entry (remove (queue p) k)) tasks
    stored-store none e =
        h.stored
        ∙ map_congr _ _ tasks
            (All-imp (λ s m. entry_unchanged e s ∙ entry-remove s m) tasks (All-self tasks))
    stored-store (some v) e = rw h.stored (
        set-map-enumerate (entry (queue p)) 0 addresses t.index t.index (some v) (omega arith)
        ∙ map_congr _ _ tasks
            (All-imp (λ s m. (rw (sym e) refl) ∙ entry-remove s m) tasks (All-self tasks)))

  module _ (p : Pool) (h : IsPool p) (k : ℕ) (inside : k < length p.running) where
    join_next_at :
        (t : Task)
        → get_elem? p.running k ≡ some t
        → join_next outcome p k
          ≡ spawned (remove p.running k) (store p.results t (outcome t)) p.pending
    unfolding join_next
    join_next_at t e = rw (e, join_next) refl

    queue-join_next : queue (join_next outcome p k) ≡ remove (queue p) k
    queue-join_next =
        let (t, e) = get_elem_below p.running k inside in
        rw (join_next_at t e)
          (queue-spawned _ _ p.pending ∙ remove-append p.running p.pending k inside)

    pub length-queue-join_next : suc (length (queue (join_next outcome p k))) ≡ length (queue p)
    length-queue-join_next =
        rw queue-join_next
          (length-remove (queue p) k (omega (arith, length-append p.running p.pending)))

    pub IsPool-join_next : IsPool (join_next outcome p k)
    IsPool-join_next =
        let (t, e) = get_elem_below p.running k inside in
        let at_k : get_elem? (queue p) k ≡ some t =
          get_elem-append p.running p.pending k inside ∙ e in
        let shorter = length-remove p.running k inside in
        record {
          bounded =
              rw (join_next_at t e)
                (bounded-spawned _ _ p.pending (omega (arith, shorter, h.bounded)));
          busy = rw (join_next_at t e) (busy-spawned _ _ p.pending (rw shorter h.busy));
          distinct = rw queue-join_next (DifferInIndex-remove (queue p) k h.distinct);
          known = rw queue-join_next (All-remove _ (queue p) k h.known);
          stored = rw queue-join_next (
              rw (join_next_at t e)
                (results-spawned _ _ p.pending ∙ stored-store p h k t at_k (outcome t) refl));
        }

  -- The pools that the loop can come to, whatever the order in which the tasks end.
  pub data Reaches : Pool → Type 0 where
    begins : Reaches (start addresses)
    joins :
        {p : Pool} → Reaches p → (k : ℕ) → k < length p.running → Reaches (join_next outcome p k)

  -- In every pool that the loop can come to, at most eight tasks run, and eight do while an address
  -- waits; each task that has not ended is one of the addresses, none stands there twice, and the
  -- results are those of the tasks that have ended.
  pub Reaches-IsPool : {p : Pool} → Reaches p → IsPool p
  Reaches-IsPool begins = IsPool-start
  Reaches-IsPool (joins {p = p} r k inside) = IsPool-join_next p (Reaches-IsPool r) k inside

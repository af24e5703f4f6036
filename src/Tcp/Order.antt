-- ===== src/Tcp/Order.antt =====
-- What the loop of `connect_all_with` of src/probe/tcp.rs ends with, whatever the order in which its
-- tasks end.
use netwhy.Prelude.{
  ℕ, zero, suc, ◌%◌, ◌<◌, ◌≡◌, refl, ap, some, List, [], ◌∷◌, map, arith, length, is_empty,
  unwrap_or, Bool-cases, inl, inr, empty, length_nonempty,
}
use netwhy.Net.{SocketAddr}
use netwhy.Model.{TcpResult}
use netwhy.Tcp.{
  Task, enumerate, Pool, start, Outcomes, join_next, join_all, connect_all_with, finish,
  failed_task,
}
use netwhy.Tcp.Queue.{take-drop}
use netwhy.Tcp.Loop.{queue, IsPool, IsPool-start, IsPool-join_next, length-queue-join_next}

length-enumerate : (o : ℕ) (xs : List SocketAddr) → length (enumerate o xs) ≡ length xs
length-enumerate o [] = refl
length-enumerate o (x ∷ xs) = ap suc (length-enumerate (suc o) xs)

module _ (outcome : Outcomes) (addresses : List SocketAddr) where
  abbrev tasks : List Task
  tasks = enumerate 0 addresses

  module _ (p : Pool) (h : IsPool outcome addresses p) (ends : p.running ≡ []) where
    nothing_waits : queue p ≡ []
    nothing_waits = elim h.busy [
      | inl e ↦ rw (ends, e) refl
      | inr e ↦ absurd (ground (arith, ap (length {A = Task}) ends))
    ]

    pub results_at_end : p.results ≡ map outcome tasks
    results_at_end = rw nothing_waits at h.stored

  -- The result of each address: that of its task, or the one for a task that did not end with one.
  abbrev pub result_of : Task → TcpResult
  result_of t = unwrap_or (failed_task t.address) (outcome t)

  finish_all :
      (o : ℕ) (xs : List SocketAddr)
      → finish (map outcome (enumerate o xs)) xs ≡ map result_of (enumerate o xs)
  finish_all o [] = refl
  finish_all o (x ∷ xs) =
      ap (λ ys. result_of (record { index = o; address = x }) ∷ ys) (finish_all (suc o) xs)

  join_all_lem :
      (fuel : ℕ) (choose : Pool → ℕ) (p : Pool)
      → IsPool outcome addresses p
      → length (queue p) < fuel
      → (q : Pool) × (join_all fuel outcome choose p ≡ some q)
        × IsPool outcome addresses q
        × (q.running ≡ [])
  unfolding join_all
  join_all_lem zero choose p h enough = absurd (omega arith)
  join_all_lem (suc fuel) choose p h enough = elim (Bool-cases (is_empty p.running)) [
    | inl e ↦ rw e (p, refl, h, empty p.running e)
    | inr e ↦
        let inside : (choose p % length p.running) < length p.running =
          omega (arith, length_nonempty p.running e) in
        rw e (
          join_all_lem fuel choose (join_next outcome p _)
            (IsPool-join_next outcome addresses p h _ inside)
            (omega (arith, length-queue-join_next outcome addresses p h _ inside)))
  ]

  -- Whatever the order in which the tasks end, the loop ends, and the results are those of the
  -- addresses in their order.
  pub connect_all_with_lem :
      (choose : Pool → ℕ) → connect_all_with outcome choose addresses ≡ some (map result_of tasks)
  unfolding connect_all_with
  connect_all_with_lem choose =
      let (q, e, h, ends) =
        join_all_lem (suc (length addresses)) choose (start addresses)
          (IsPool-start outcome addresses) short in
      rw e (ap some (rw (results_at_end q h ends) (finish_all 0 addresses)))
    where
      short : length (queue (start addresses)) < suc (length addresses)
      short = rw take-drop (omega (arith, length-enumerate 0 addresses))

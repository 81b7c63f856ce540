-- ===== src/Scheduler/Queue.antt =====
-- The ready queue as a list of slots, and what `scheduler_add_process` and `get_next_process`
-- of kernel/scheduler.c do to it.
use ace_os.Base.{
  ℕ, ◌-◌, ◌^◌, ◌<◌, ◌≡◌, refl, sym, ◌∙◌, ap, ◌≢◌, true, false, Option, none, some, List, [], ◌∷◌,
  ◌++◌, arith, if◌then◌else◌, ◌==◌, length, length-append, inl, inr, Option-cases,
}
use ace_os.Pcb.{Table, state_ready}
use ace_os.Scheduler.{
  Scheduler, TaskQueue, scheduler_init, scheduler_add_process, get_next_process, enter, link_last,
  new_tail,
}
use ace_os.Scheduler.Links.{
  links, Chain, NotIn, Distinct, last, Chain-outside, Distinct-snoc, last_snoc, Chain-snoc, last_ne,
  last_cons,
}

-- The queue's three fields and the `next` links stand for the list `q` of slots.
pub record IsQueue (t : Table) (r : TaskQueue) (q : List ℕ) : Type 0 where
  pub chain : Chain (links t) r.head q
  pub tail_last : r.tail ≡ last q
  pub counted : r.count ≡ length q
  pub distinct : Distinct q

pub init_empty :
    (s : Scheduler) → IsQueue (scheduler_init s).process_table (scheduler_init s).ready_queue []
unfolding scheduler_init
init_empty s = record { chain = refl; tail_last = refl; counted = refl; distinct = tt }

pub record Added (s : Scheduler) (i : ℕ) (q : List ℕ) (s' : Scheduler) : Type 0 where
  pub queue : IsQueue s'.process_table s'.ready_queue (q ++ (i ∷ []))
  pub ready : (s'.process_table i).state ≡ state_ready
  pub others : (j : ℕ) → j ≢ i → (s'.process_table j).state ≡ (s.process_table j).state

links-none : (t : Table) (i j : ℕ) → links (enter t i) j ≡ (if j == i then none else links t j)
links-none t i j = ground arith

links-some :
    (t : Table) (l i j : ℕ)
    → links (link_last (enter t i) (some l) i) j
      ≡ (if j == l then some i else if j == i then none else links t j)
links-some t l i j = ground arith

module _ (s : Scheduler) (i : ℕ) (on : s.scheduler_enabled ≡ true) where
  add_empty :
      IsQueue s.process_table s.ready_queue [] → Added s i [] (scheduler_add_process s (some i))
  unfolding scheduler_add_process
  add_empty v =
      rw (on, v.tail_last)
        (record {
          queue = record {
            chain = (refl, ground arith);
            tail_last = refl;
            counted = omega (arith, v.counted);
            distinct = (tt, tt);
          };
          ready = ground arith;
          others = λ j ne. ground arith;
        })

  add_more :
      (q : List ℕ) (l : ℕ)
      → IsQueue s.process_table s.ready_queue q
      → NotIn i q
      → last q ≡ some l
      → length q < 2 ^ 32 - 1
      → Added s i q (scheduler_add_process s (some i))
  unfolding scheduler_add_process
  add_more q l v n e h =
      rw (on, v.tail_last, e)
        (record {
          queue = record {
            chain =
                Chain-snoc (links s.process_table) _ s.ready_queue.head q l i (ground arith)
                  (ground (arith, last_ne q l i n e)) (λ j a b. ground arith) v.distinct n e
                  v.chain;
            tail_last = sym (last_snoc q i);
            counted = omega (arith, v.counted, length-append q (i ∷ []));
            distinct = Distinct-snoc q i v.distinct n;
          };
          ready = ground arith;
          others = λ j ne. ground arith;
        })

  -- `scheduler_add_process` puts a process that is not queued at the end of the queue, READY, and
  -- changes the state of no other.
  pub add-IsQueue :
      (q : List ℕ)
      → IsQueue s.process_table s.ready_queue q
      → NotIn i q
      → length q < 2 ^ 32 - 1
      → Added s i q (scheduler_add_process s (some i))
  add-IsQueue [] v n h = add_empty v
  add-IsQueue (j ∷ q) v n h = elim (Option-cases (last (j ∷ q))) [
    | inl e ↦ absurd (last_cons j q e)
    | inr (l, e) ↦ add_more (j ∷ q) l v n e h
  ]

-- What `get_next_process` takes off the front.
pub record Dequeued (s : Scheduler) (i : ℕ) (q : List ℕ) (s' : Scheduler) : Type 0 where
  pub queue : IsQueue s'.process_table s'.ready_queue q
  pub only_links :
      (j : ℕ)
      → s'.process_table j
        ≡ (if j == i then record (s.process_table i) { next = none } else s.process_table j)
  pub rest : s' ≡ record s { process_table = s'.process_table; ready_queue = s'.ready_queue }

tail_rest :
    (m : ℕ → Option ℕ) (i : ℕ) (q : List ℕ)
    → Chain m (m i) q
    → new_tail (m i) (last (i ∷ q)) ≡ last q
tail_rest m i [] c = rw c
tail_rest m i (j ∷ q) (a, c) = rw a

-- `get_next_process` returns the front of the queue and unlinks it.
pub get_next-cons :
    (s : Scheduler) (i : ℕ) (q : List ℕ)
    → IsQueue s.process_table s.ready_queue (i ∷ q)
    → let (o, s') = get_next_process s in (o ≡ some i) × Dequeued s i q s'
unfolding get_next_process
get_next-cons s i q v =
    let nz : (s.ready_queue.count == 0) ≡ false = ground (arith, v.counted) in
    rw (nz, v.chain.0)
      (
        refl,
        record {
          queue = record {
            chain =
                Chain-outside (links s.process_table) _ i _ q (λ j ne. ground arith) v.distinct.0
                  v.chain.1;
            tail_last =
                ap (new_tail (s.process_table i).next) v.tail_last
                ∙ tail_rest (links s.process_table) i q v.chain.1;
            counted = omega (arith, v.counted);
            distinct = v.distinct.1;
          };
          only_links = λ j. refl;
          rest = refl;
        },
      )

-- An empty queue gives no process and is left as it is.
pub get_next-nil :
    (s : Scheduler) → IsQueue s.process_table s.ready_queue [] → get_next_process s ≡ (none, s)
unfolding get_next_process
get_next-nil s v = rw v.counted

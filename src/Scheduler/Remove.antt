-- ===== src/Scheduler/Remove.antt =====
-- `scheduler_remove_process` of kernel/scheduler.c takes exactly one process out of the queue.
use ace_os.Base.{
  ℕ, zero, suc, ◌+◌, ◌<◌, ◌≡◌, refl, sym, ◌∙◌, ap, ◌≢◌, true, false, not, ◌||◌, Option, none, some,
  List, [], ◌∷◌, ◌++◌, arith, if◌then◌else◌, ◌==◌, length, length-append, ==_refl, inl, inr, subst,
  Option-cases,
}
use mathlib.Core.Path.{ap₂}
use mathlib.Core.List.{append-nil}
use ace_os.Scheduler.{Scheduler, retail, unlink, remove_loop, scheduler_remove_process}
use ace_os.Scheduler.Links.{
  links, Chain, NotIn, Distinct, last, Chain-outside, some_eq, last_ne, last_cons,
}
use ace_os.Scheduler.Queue.{IsQueue}

-- A slot that is not queued: the loop runs off the end.
remove_loop_absent :
    (fuel : ℕ) (s : Scheduler) (i : ℕ) (previous h : Option ℕ) (q : List ℕ)
    → Chain (links s.process_table) h q
    → NotIn i q
    → remove_loop fuel s i previous h ≡ s
unfolding remove_loop
remove_loop_absent zero s i p h q c n = refl
remove_loop_absent (suc fuel) s i p h [] c n = rw c
remove_loop_absent (suc fuel) s i p h (j ∷ q) (a, c) (ne, n) =
    let rest = remove_loop_absent fuel s i (some j) (links s.process_table j) q c n in
    let miss : (j == i) ≡ false = ground arith in rw (a, miss) rest

abbrev previous_of : Option ℕ → List ℕ → Option ℕ
previous_of p [] = p
previous_of p (j ∷ q) = last (j ∷ q)

-- The loop stops at the slot, with the one before it as `previous`.
remove_loop_present :
    (fuel : ℕ) (s : Scheduler) (i : ℕ) (previous h : Option ℕ) (before after : List ℕ)
    → Chain (links s.process_table) h (before ++ (i ∷ after))
    → NotIn i before
    → length before < fuel
    → remove_loop fuel s i previous h ≡ unlink s (previous_of previous before) i
unfolding remove_loop
remove_loop_present zero s i p h before after c n f = absurd (omega arith)
remove_loop_present (suc fuel) s i p h [] after (a, c) n f = rw (a, ==_refl i)
remove_loop_present (suc fuel) s i p h (j ∷ []) after (a, c) (ne, n) f =
    let rest =
      remove_loop_present fuel s i (some j) (links s.process_table j) [] after c n (omega arith) in
    let miss : (j == i) ≡ false = ground arith in rw (a, miss) rest
remove_loop_present (suc fuel) s i p h (j ∷ k ∷ before) after (a, c) (ne, n) f =
    let rest =
      remove_loop_present fuel s i (some j) (links s.process_table j) (k ∷ before) after c n
        (omega arith) in
    let miss : (j == i) ≡ false = ground arith in rw (a, miss) rest

NotIn-split : (j i : ℕ) (q r : List ℕ) → NotIn j (q ++ (i ∷ r)) → (j ≢ i) × NotIn j r
NotIn-split j i [] r n = n
NotIn-split j i (k ∷ q) r (ne, n) = NotIn-split j i q r n

NotIn-front : (j i : ℕ) (q r : List ℕ) → NotIn j (q ++ (i ∷ r)) → NotIn j (q ++ r)
NotIn-front j i [] r n = n.1
NotIn-front j i (k ∷ q) r (ne, n) = (ne, NotIn-front j i q r n)

Distinct-drop : (i : ℕ) (q r : List ℕ) → Distinct (q ++ (i ∷ r)) → Distinct (q ++ r)
Distinct-drop i [] r d = d.1
Distinct-drop i (k ∷ q) r (n, d) = (NotIn-front k i q r n, Distinct-drop i q r d)

-- In a chain of distinct slots the one to go is in neither part.
Distinct-middle : (i : ℕ) (q r : List ℕ) → Distinct (q ++ (i ∷ r)) → NotIn i q × NotIn i r
Distinct-middle i [] r d = (tt, d.0)
Distinct-middle i (k ∷ q) r (n, d) =
    let (a, b) = Distinct-middle i q r d in ((λ e. (NotIn-split k i q r n).0 (sym e), a), b)

Chain-outside_two :
    (m n : ℕ → Option ℕ) (l i : ℕ) (h : Option ℕ) (q : List ℕ)
    → ((j : ℕ) → j ≢ l → j ≢ i → n j ≡ m j)
    → NotIn l q
    → NotIn i q
    → Chain m h q
    → Chain n h q
Chain-outside_two m n l i h [] e a b c = c
Chain-outside_two m n l i h (j ∷ q) e (x, a) (y, b) (p, c) =
    (p, rw (e j (λ k. x (sym k)) (λ k. y (sym k))) (Chain-outside_two m n l i (m j) q e a b c))

last-NotIn : (q : List ℕ) (j l : ℕ) (r : List ℕ) → NotIn j (q ++ r) → last q ≡ some l → j ≢ l
last-NotIn [] j l r n e = absurd (cc)
last-NotIn (k ∷ []) j l r (ne, n) e = λ s. ne (s ∙ sym (some_eq k l e))
last-NotIn (k ∷ k' ∷ q) j l r (ne, n) e = last-NotIn (k' ∷ q) j l r n e

-- Linking the slot before `i` to the one behind it takes `i` out.
Chain-drop :
    (m n : ℕ → Option ℕ) (h : Option ℕ) (l i : ℕ) (q r : List ℕ)
    → n l ≡ m i
    → ((j : ℕ) → j ≢ l → j ≢ i → n j ≡ m j)
    → Distinct (q ++ (i ∷ r))
    → last q ≡ some l
    → Chain m h (q ++ (i ∷ r))
    → Chain n h (q ++ r)
Chain-drop m n h l i [] r a e d z c = absurd (cc)
Chain-drop m n h l i (j ∷ []) r a e (x, (y, d)) z (p, (p', c)) =
    let same : j ≡ l = some_eq j l z in
    (p, rw (same, a) (Chain-outside_two m n l i (m i) r e (subst (λ k. NotIn k r) same x.1) y c))
Chain-drop m n h l i (j ∷ k ∷ q) r a e (x, d) z (p, c) = (
  p,
  rw (e j (last-NotIn (k ∷ q) j l (i ∷ r) x z) (NotIn-split j i (k ∷ q) r x).0)
      (Chain-drop m n (m j) l i (k ∷ q) r a e d z c),
)

last-append : (q : List ℕ) (a : ℕ) (r : List ℕ) → last (q ++ (a ∷ r)) ≡ last (a ∷ r)
last-append [] a r = refl
last-append (k ∷ []) a r = refl
last-append (k ∷ k' ∷ q) a r = last-append (k' ∷ q) a r

retail_same : (r : List ℕ) (p : Option ℕ) (i : ℕ) → NotIn i r → retail (last r) p i ≡ last r
retail_same r p i n = elim (Option-cases (last r)) [
  | inl e ↦ rw e
  | inr (l, e) ↦ let other : (l == i) ≡ false = ground (arith, last_ne r l i n e) in rw (e, other)
]

retail-last :
    (q r : List ℕ) (i : ℕ) → NotIn i r → retail (last (q ++ (i ∷ r))) (last q) i ≡ last (q ++ r)
retail-last q [] i n = rw (last-append q i [], ==_refl i, append-nil q)
retail-last q (a ∷ r) i n =
    rw (last-append q i (a ∷ r), last-append q a r) (retail_same (a ∷ r) (last q) i n)

-- The process is out of the queue, the others stay in their order.
pub record Removed (s : Scheduler) (i : ℕ) (q : List ℕ) (s' : Scheduler) : Type 0 where
  pub queue : IsQueue s'.process_table s'.ready_queue q
  pub unlinked : (s'.process_table i).next ≡ none
  pub states : (j : ℕ) → (s'.process_table j).state ≡ (s.process_table j).state

module _ (s : Scheduler) (i : ℕ) (after : List ℕ) where
  unlink_first :
      IsQueue s.process_table s.ready_queue (i ∷ after) → Removed s i after (unlink s none i)
  unlink_first v = record {
    queue = record {
      chain =
          Chain-outside (links s.process_table) _ i _ after (λ j ne. ground arith) v.distinct.0
            v.chain.1;
      tail_last = ap (λ l. retail l none i) v.tail_last ∙ retail-last [] after i v.distinct.0;
      counted = omega (arith, v.counted);
      distinct = v.distinct.1;
    };
    unlinked = ground arith;
    states = λ j. ground arith;
  }

  unlink_later :
      (before : List ℕ) (l : ℕ)
      → IsQueue s.process_table s.ready_queue (before ++ (i ∷ after))
      → last before ≡ some l
      → Removed s i (before ++ after) (unlink s (some l) i)
  unlink_later before l v e =
      let (front, back) = Distinct-middle i before after v.distinct in
      let ne : i ≢ l = last_ne before l i front e in
      record {
        queue = record {
          chain =
              Chain-drop (links s.process_table) _ s.ready_queue.head l i before after
                (ground (arith, ne)) (λ j a b. ground arith) v.distinct e v.chain;
          tail_last =
              ap (λ k. retail k (some l) i) v.tail_last
              ∙ ap (λ k. retail (last (before ++ (i ∷ after))) k i) (sym e)
              ∙ retail-last before after i back;
          counted =
              omega
                (arith, v.counted, length-append before (i ∷ after), length-append before after);
          distinct = Distinct-drop i before after v.distinct;
        };
        unlinked = ground arith;
        states = λ j. ground arith;
      }

  unlink-Removed :
      (before : List ℕ)
      → IsQueue s.process_table s.ready_queue (before ++ (i ∷ after))
      → Removed s i (before ++ after) (unlink s (previous_of none before) i)
  unlink-Removed [] v = unlink_first v
  unlink-Removed (j ∷ before) v = elim (Option-cases (last (j ∷ before))) [
    | inl e ↦ absurd (last_cons j before e)
    | inr (l, e) ↦ rw e (unlink_later (j ∷ before) l v e)
  ]

  -- `scheduler_remove_process` takes a queued process out of the queue, wherever it stands, clears
  -- its link, keeps the order of the others and every state.
  pub remove-Removed :
      (before : List ℕ)
      → s.scheduler_enabled ≡ true
      → IsQueue s.process_table s.ready_queue (before ++ (i ∷ after))
      → Removed s i (before ++ after) (scheduler_remove_process s (some i))
  unfolding scheduler_remove_process
  remove-Removed before on v =
      let count : length (before ++ (i ∷ after)) ≡ length before + suc (length after) =
        (length-append before (i ∷ after)) in
      let nz : (s.ready_queue.count == 0) ≡ false = ground (arith, v.counted, count) in
      let found =
        remove_loop_present (s.ready_queue.count + 1) s i none s.ready_queue.head before after
          v.chain (Distinct-middle i before after v.distinct).0 (omega (arith, v.counted, count)) in
      subst (Removed s i (before ++ after))
        (sym (
          ap₂
            (λ a b.
              if not a || b
              then s
              else remove_loop (s.ready_queue.count + 1) s i none s.ready_queue.head)
            on nz
          ∙ found))
        (unlink-Removed before v)

-- A process that is not queued is left alone, with the whole queue.
pub remove_absent :
    (s : Scheduler) (i : ℕ) (q : List ℕ)
    → IsQueue s.process_table s.ready_queue q
    → NotIn i q
    → scheduler_remove_process s (some i) ≡ s
unfolding scheduler_remove_process
remove_absent s i q v n =
    ground
      (arith, remove_loop_absent (s.ready_queue.count + 1) s i none s.ready_queue.head q v.chain n)

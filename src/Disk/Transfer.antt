-- ===== src/Disk/Transfer.antt =====
-- The transfer loops of drivers/disk.c on a drive that keeps to the protocol.
use ace_os.Base.{
  ℕ, zero, suc, ◌+◌, ◌*◌, ◌^◌, ◌≤◌, ◌<◌, ◌≡◌, inl, inr, refl, subst, ◌∙◌, true, Bool-cases, ◌==◌,
  ltb, arith,
}
use ace_os.Libc.{Memory}
use ace_os.Ports.{Ports}
use ace_os.Disk.{
  base_of, wait_for, read_words, write_words, read_loop, write_loop, ata_status_drq, word_at,
  put_word,
}
use ace_os.Disk.Drive.{idle, reading, writing, IsAt, patience, Drive}
use ace_os.Disk.Commands.{wait_drq}

-- A buffer of words that are bytes.
abbrev pub AreBytes : Memory → Type 0
AreBytes m = (a : ℕ) → m a < 256

word_at-lt : (m : Memory) (buffer i : ℕ) → AreBytes m → word_at m buffer i < 2 ^ 16
word_at-lt m buffer i bytes = omega (arith, bytes (buffer + 2 * i), bytes (buffer + 2 * i + 1))

put_word-word_at :
    (m : Memory) (buffer i w : ℕ) → w < 2 ^ 16 → word_at (put_word m buffer i w) buffer i ≡ w
put_word-word_at m buffer i w fits = ground arith

module _ {P : Ports} {drive : ℕ} (D : Drive P drive) where
  abbrev base : ℕ
  base = base_of drive

  -- Words `i` to `i` + `n` of the buffer are on the medium, from word `p` on, and the words below are
  -- as they were.
  pub record Wrote (p i n buffer : ℕ) (m : Memory) (s s' : P.State) : Type 0 where
    pub filled : (j : ℕ) → i ≤ j → j < i + n → D.stored s' (p + j) ≡ word_at m buffer j
    pub kept : (k : ℕ) → k < p + i → D.stored s' k ≡ D.stored s k

  -- Nothing is written by no rounds.
  Wrote-none : (p i buffer : ℕ) (m : Memory) (s : P.State) → Wrote p i 0 buffer m s s
  Wrote-none p i buffer m s = record {
    filled = λ j a b. absurd (omega (arith, a, b));
    kept = λ k lt. refl;
  }

  write_words-Wrote :
      (n p i left buffer : ℕ) (m : Memory) (s : P.State)
      → AreBytes m
      → IsAt (D.phase s) writing (p + i) n left
      → IsAt (D.phase (write_words P n i base buffer s m)) writing (p + (i + n)) 0 left
        × Wrote p i n buffer m s (write_words P n i base buffer s m)
  unfolding write_words
  write_words-Wrote zero p i left buffer m s bytes at =
      (subst (λ k. IsAt (D.phase s) writing k 0 left) (omega arith) at, Wrote-none p i buffer m s)
  write_words-Wrote (suc n) p i left buffer m s bytes at =
      let v = word_at m buffer i in
      let s1 = P.outw s base v in
      let s2 = write_words P n (i + 1) base buffer s1 m in
      let (own, next, others) = D.write_word s (p + i) n left v at (word_at-lt m buffer i bytes) in
      let (at', h) =
        write_words-Wrote n p (i + 1) left buffer m s1 bytes
          (subst (λ k. IsAt (D.phase s1) writing k n left) (omega arith) next) in
      (
        subst (λ k. IsAt (D.phase s2) writing k 0 left) (omega arith) at',
        record {
          filled = λ j a b. elim (Bool-cases (j == i)) [
            | inl e ↦
                let same : i ≡ j = ground arith in
                subst (λ j. D.stored s2 (p + j) ≡ word_at m buffer j) same
                  (h.kept (p + i) (omega arith) ∙ own)
            | inr e ↦ h.filled j (ground arith) (omega (arith, b))
          ];
          kept = λ k lt. h.kept k (omega (arith, lt)) ∙ others k (omega (arith, lt));
        },
      )

  pub write_loop-Wrote :
      (n p k buffer : ℕ) (m : Memory) (s : P.State)
      → AreBytes m
      → IsAt (D.phase s) writing (p + k * 256) 0 n
      → let (done, s') = write_loop P n k base buffer s m in
        (done ≡ true) × IsAt (D.phase s') writing p 0 0 × Wrote p (k * 256) (n * 256) buffer m s s'
  unfolding write_loop
  write_loop-Wrote zero p k buffer m s bytes at = (refl, at, Wrote-none p (k * 256) buffer m s)
  write_loop-Wrote (suc n) p k buffer m s bytes (wait, soon, b) =
      let (ready, t, quiet) = wait_drq D patience wait s writing (p + k * 256) n soon b in
      let s0 = (wait_for P patience true ata_status_drq base s).1 in
      let s1 = write_words P 256 (k * 256) base buffer s0 m in
      let (next, h) = write_words-Wrote 256 p (k * 256) n buffer m s0 bytes t in
      let s2 = (write_loop P n (k + 1) base buffer s1 m).1 in
      let (done, at, r) =
        write_loop-Wrote n p (k + 1) buffer m s1 bytes
          (subst (λ q. IsAt (D.phase s1) writing q 0 n) (omega arith) next) in
      rw ready (
        done,
        at,
        record {
          filled = λ j a b. elim (Bool-cases (ltb j (k * 256 + 256))) [
            | inl lo ↦ r.kept (p + j) (ground arith) ∙ h.filled j a (ground arith)
            | inr hi ↦ r.filled j (ground arith) (omega (arith, b))
          ];
          kept = λ q lt. r.kept q (omega (arith, lt)) ∙ h.kept q lt ∙ quiet q;
        },
      )

  -- Words `i` to `i` + `n` of the buffer hold those of the medium from word `p` on; the medium and the
  -- memory below are as they were.
  pub record Fetched (p i n buffer : ℕ) (m m' : Memory) (s s' : P.State) : Type 0 where
    pub filled : (j : ℕ) → i ≤ j → j < i + n → word_at m' buffer j ≡ D.stored s (p + j)
    pub quiet : (k : ℕ) → D.stored s' k ≡ D.stored s k
    pub kept : (a : ℕ) → a < buffer + 2 * i → m' a ≡ m a

  Fetched-none : (p i buffer : ℕ) (m : Memory) (s : P.State) → Fetched p i 0 buffer m m s s
  Fetched-none p i buffer m s = record {
    filled = λ j a b. absurd (omega (arith, a, b));
    quiet = λ k. refl;
    kept = λ a lt. refl;
  }

  read_words-Fetched :
      (n p i left buffer : ℕ) (m : Memory) (s : P.State)
      → IsAt (D.phase s) reading (p + i) n left
      → let (s', m') = read_words P n i base buffer s m in
        IsAt (D.phase s') reading (p + (i + n)) 0 left × Fetched p i n buffer m m' s s'
  unfolding read_words
  read_words-Fetched zero p i left buffer m s at =
      (subst (λ k. IsAt (D.phase s) reading k 0 left) (omega arith) at, Fetched-none p i buffer m s)
  read_words-Fetched (suc n) p i left buffer m s at =
      let (w, s1) = P.inw s base in
      let m1 = put_word m buffer i w in
      let (s2, m2) = read_words P n (i + 1) base buffer s1 m1 in
      let (value, next, same_medium) = D.read_word s (p + i) n left at in
      let (at', h) =
        read_words-Fetched n p (i + 1) left buffer m1 s1
          (subst (λ k. IsAt (D.phase s1) reading k n left) (omega arith) next) in
      (
        subst (λ k. IsAt (D.phase s2) reading k 0 left) (omega arith) at',
        record {
          filled = λ j a b. elim (Bool-cases (j == i)) [
            | inl e ↦
                let same : i ≡ j = ground arith in
                let lo = h.kept (buffer + 2 * i) (omega arith) in
                let hi = h.kept (buffer + 2 * i + 1) (omega arith) in
                let fits : w < 2 ^ 16 = rw value (D.stored_word s (p + i)) in
                let here : word_at m2 buffer i ≡ D.stored s (p + i) =
                  omega (arith, lo, hi, put_word-word_at m buffer i w fits, value) in
                subst (λ j. word_at m2 buffer j ≡ D.stored s (p + j)) same here
            | inr e ↦ h.filled j (ground arith) (omega (arith, b)) ∙ same_medium (p + j)
          ];
          quiet = λ k. h.quiet k ∙ same_medium k;
          kept = λ a lt. h.kept a (omega (arith, lt)) ∙ ground (arith, lt);
        },
      )

  pub read_loop-Fetched :
      (n p k buffer : ℕ) (m : Memory) (s : P.State)
      → IsAt (D.phase s) reading (p + k * 256) 0 n
      → let (done, s', m') = read_loop P n k base buffer s m in
        (done ≡ true) × (D.phase s' ≡ idle) × Fetched p (k * 256) (n * 256) buffer m m' s s'
  unfolding read_loop
  read_loop-Fetched zero p k buffer m s at = (refl, at, Fetched-none p (k * 256) buffer m s)
  read_loop-Fetched (suc n) p k buffer m s (wait, soon, b) =
      let (ready, t, quiet) = wait_drq D patience wait s reading (p + k * 256) n soon b in
      let s0 = (wait_for P patience true ata_status_drq base s).1 in
      let (s1, m1) = read_words P 256 (k * 256) base buffer s0 m in
      let (next, h) = read_words-Fetched 256 p (k * 256) n buffer m s0 t in
      let (done, s2, m2) = read_loop P n (k + 1) base buffer s1 m1 in
      let (e, at, r) =
        read_loop-Fetched n p (k + 1) buffer m1 s1
          (subst (λ q. IsAt (D.phase s1) reading q 0 n) (omega arith) next) in
      rw ready (
        e,
        at,
        record {
          filled = λ j a b. elim (Bool-cases (ltb j (k * 256 + 256))) [
            | inl lo ↦
                let below = r.kept (buffer + 2 * j) (ground arith) in
                let below' = r.kept (buffer + 2 * j + 1) (ground arith) in
                omega (arith, below, below', h.filled j a (ground arith), quiet (p + j))
            | inr hi ↦
                r.filled j (ground arith) (omega (arith, b)) ∙ h.quiet (p + j) ∙ quiet (p + j)
          ];
          quiet = λ q. r.quiet q ∙ h.quiet q ∙ quiet q;
          kept = λ a lt. r.kept a (omega (arith, lt)) ∙ h.kept a lt;
        },
      )

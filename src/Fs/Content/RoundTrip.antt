-- ===== src/Fs/Content/RoundTrip.antt =====
-- What is written to a file of drivers/fs.c is read back.
use ace_os.Base.{
  ℕ, ◌+◌, ◌-◌, ◌≤◌, ◌<◌, ◌≡◌, ◌≢◌, ◌⊎◌, inl, inr, refl, ap, ◌∙◌, true, false, not, ◌&&◌, List, some,
  Bool-cases, if◌then◌else◌, ◌==◌, ltb, leb, arith,
}
use ace_os.Libc.{Memory, memcpy}
use ace_os.Libc.Copy.{memcpy-memmove, memmove_lem}
use ace_os.Fs.Blocks.{Allocator}
use ace_os.Fs.{World, found, fs_find, fs_type_file}
use ace_os.Fs.Content.{fill_file, set_data, drop_data, fill_data, fs_write, fs_read}
use ace_os.Fs.Content.Alike.{IsAlike, IsAlike-refl, IsAlike-trans, set_entry-IsAlike, IsAlike-find}

-- The bytes at `d` are those that were at `s`, for ranges that do not overlap.
pub copied :
    (d s n k : ℕ) (m : Memory) → (d ≤ s) ⊎ (s + n ≤ d) → k < n → memcpy d s n m (d + k) ≡ m (s + k)
copied d s n k m h lt =
    let inside : (leb d (d + k) && ltb (d + k) (d + n)) ≡ true = ground arith in
    let at : s + (d + k - d) ≡ s + k = omega arith in
    memcpy-memmove d s n m (d + k) h ∙ memmove_lem d s n m (d + k) ∙ rw (inside, at) refl

-- The bytes of a file that fit in the room.
abbrev pub fitting : ℕ → ℕ → ℕ
fitting size room = if ltb size room then size else room

module _ {A : Allocator} (w : World A) (i from size : ℕ) where
  -- The state after a `fs_write` that returns 0, to entry `i`.
  pub record IsWritten (w' : World A) : Type 0 where
    pub alike : IsAlike w.fs w'.fs
    pub block : (w'.fs.files i).data_pointer ≢ 0
    pub filled : (w'.fs.files i).size ≡ size
    pub bytes : w'.memory ≡ memcpy (w'.fs.files i).data_pointer from size w.memory

module _ {A : Allocator} where
  fill_file-IsWritten :
      (w : World A) (i from size : ℕ)
      → (w.fs.files i).data_pointer ≢ 0
      → IsWritten w i from size (fill_file w i from size)
  fill_file-IsWritten w i from size nz =
      let self : (i == i) ≡ true = ground arith in
      record {
        alike = set_entry-IsAlike w.fs i _ refl refl;
        block = rw self nz;
        filled = rw self refl;
        bytes = rw self refl;
      }

  in_new_block :
      (w : World A) (i from size p : ℕ) (h : A.State)
      → p ≢ 0
      → IsWritten w i from size (fill_file (record (set_data w i p) { heap = h }) i from size)
  in_new_block w i from size p h nz =
      let self : (i == i) ≡ true = ground arith in
      let w2 : World A = record (set_data w i p) { heap = h } in
      let there = fill_file-IsWritten w2 i from size (rw self nz) in
      record {
        alike = IsAlike-trans _ _ _ (set_entry-IsAlike w.fs i _ refl refl) there.alike;
        block = there.block;
        filled = there.filled;
        bytes = there.bytes;
      }

  fill_data-IsWritten :
      (w : World A) (i from size : ℕ)
      → let (done, w') = fill_data w i from size in
        ((done ≡ false) × ((A.malloc w.heap size).0 ≡ 0))
        ⊎ ((done ≡ true) × IsWritten w i from size w')
  unfolding fill_data
  fill_data-IsWritten w i from size = elim (Bool-cases ((w.fs.files i).data_pointer == 0)) [
    | inr old ↦ inr (rw old refl, rw old (fill_file-IsWritten w i from size (ground arith)))
    | inl none_yet ↦ elim (Bool-cases ((A.malloc w.heap size).0 == 0)) [
      | inl out ↦ inl (rw (none_yet, out) refl, ground arith)
      | inr p ↦ inr (
        rw (none_yet, p) refl,
        rw (none_yet, p)
            (in_new_block w i from size (A.malloc w.heap size).0 (A.malloc w.heap size).1
              (ground arith)),
      )
    ]
  ]

  drop_data-IsAlike : (w : World A) (i size : ℕ) → IsAlike w.fs (drop_data w i size).fs
  unfolding drop_data
  drop_data-IsAlike w i size =
      elim (Bool-cases
        (not ((w.fs.files i).data_pointer == 0) && not ((w.fs.files i).size == size))) [
          | inl e ↦ rw e (set_entry-IsAlike w.fs i _ refl refl)
          | inr e ↦ rw e (IsAlike-refl w.fs)
        ]

  drop_data-memory : (w : World A) (i size : ℕ) → (drop_data w i size).memory ≡ w.memory
  unfolding drop_data
  drop_data-memory w i size =
      elim (Bool-cases
        (not ((w.fs.files i).data_pointer == 0) && not ((w.fs.files i).size == size))) [
          | inl e ↦ rw e refl
          | inr e ↦ rw e refl
        ]

  write-IsWritten :
      (w : World A) (path : List ℕ) (i from size : ℕ)
      → w.fs.initialized ≡ true
      → fs_find w.fs path ≡ found i
      → (w.fs.files i).kind ≡ fs_type_file
      → let (done, w') = fs_write w path from size in
        ((done ≡ false) × ((A.malloc (drop_data w i size).heap size).0 ≡ 0))
        ⊎ ((done ≡ true) × IsWritten w i from size w')
  unfolding fs_write
  write-IsWritten w path i from size up f file =
      let ready : not w.fs.initialized ≡ false = ground arith in
      let is_file : ((w.fs.files i).kind == fs_type_file) ≡ true = ground arith in
      rw (ready, f, is_file)
        (elim (fill_data-IsWritten (drop_data w i size) i from size) [
          | inl out ↦ inl out
          | inr (done, h) ↦ inr (
            done,
            record {
              alike = IsAlike-trans _ _ _ (drop_data-IsAlike w i size) h.alike;
              block = h.block;
              filled = h.filled;
              bytes = h.bytes ∙ ap (memcpy _ from size) (drop_data-memory w i size);
            },
          )
        ])

  read_lem :
      (w : World A) (path : List ℕ) (i buffer room : ℕ)
      → w.fs.initialized ≡ true
      → fs_find w.fs path ≡ found i
      → (w.fs.files i).kind ≡ fs_type_file
      → (w.fs.files i).data_pointer ≢ 0
      → let e = w.fs.files i in
        let n = if ltb e.size room then e.size else room in
        fs_read w path buffer room
        ≡ (some n, record w { memory = memcpy buffer e.data_pointer n w.memory })
  unfolding fs_read
  read_lem w path i buffer room up f file block =
      let ready : not w.fs.initialized ≡ false = ground arith in
      let is_file : not ((w.fs.files i).kind == fs_type_file) ≡ false = ground arith in
      let some_data : ((w.fs.files i).data_pointer == 0) ≡ false = ground arith in
      rw (ready, f, is_file, some_data) refl

  -- The address that `fs_write` leaves the data of entry `i` at.
  abbrev pub block_after : World A → List ℕ → ℕ → ℕ → ℕ → ℕ
  block_after w path i from size = ((fs_write w path from size).1.fs.files i).data_pointer

  -- `fs_write` to a file returns -1 only when `malloc` has no block of the size. Otherwise `fs_read`
  -- by the same path returns the size, or the room in the buffer if that is less, and the buffer
  -- holds what was written, provided that neither copy overlaps upwards.
  pub read-write :
      (w : World A) (path : List ℕ) (i from size buffer room : ℕ)
      → w.fs.initialized ≡ true
      → fs_find w.fs path ≡ found i
      → (w.fs.files i).kind ≡ fs_type_file
      → (block_after w path i from size ≤ from) ⊎ (from + size ≤ block_after w path i from size)
      → (buffer ≤ block_after w path i from size)
        ⊎ (block_after w path i from size + fitting size room ≤ buffer)
      → let (done, w1) = fs_write w path from size in
        let (result, w2) = fs_read w1 path buffer room in
        ((done ≡ false) × ((A.malloc (drop_data w i size).heap size).0 ≡ 0))
        ⊎ ((done ≡ true)
            × (result ≡ some (fitting size room))
            × ((k : ℕ) → k < fitting size room → w2.memory (buffer + k) ≡ w.memory (from + k)))
  read-write w path i from size buffer room up f file apart apart' =
      elim (write-IsWritten w path i from size up f file) [
        | inl out ↦ inl out
        | inr (done, h) ↦
            let w1 = (fs_write w path from size).1 in
            let found_again = IsAlike-find w.fs w1.fs h.alike path ∙ f in
            let read =
              read_lem w1 path i buffer room (h.alike.up ∙ up) found_again (h.alike.kinds i ∙ file)
                h.block in
            let n : fitting (w1.fs.files i).size room ≡ fitting size room =
              ap (λ s. fitting s room) h.filled in
            inr (
              done,
              ap (λ r. r.0) read ∙ ap (λ s. some s) n,
              λ k lt.
                  ap (λ r. r.1.memory (buffer + k)) read
                  ∙ ap (λ s. memcpy buffer (w1.fs.files i).data_pointer s w1.memory (buffer + k)) n
                  ∙ copied buffer (w1.fs.files i).data_pointer (fitting size room) k w1.memory
                      apart' lt
                  ∙ ap (λ m. m ((w1.fs.files i).data_pointer + k)) h.bytes
                  ∙ copied (w1.fs.files i).data_pointer from size k w.memory apart (ground arith),
            )
      ]

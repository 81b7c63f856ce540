-- ===== src/Pmm/Bitmap.antt =====
-- What the writes of kernel/pmm.c do to each frame's bit.
use ace_os.Base.{
  ℕ, ◌-◌, ◌*◌, ◌/◌, ◌%◌, ◌^◌, ◌<◌, ◌≡◌, ap, ◌≢◌, true, false, List, arith, if◌then◌else◌, ◌==◌,
  length, get_or, set, length-set, get_or-set_self, get_or-set_ne, Bool-cases, inl, inr, bit_and,
  bit_or, ==_iff,
}
use ace_os.Base.Bits.{bit, bit-bit_and, bit-bit_or, mask_test, bit-pow, bit-not-pow, bit-le-one}
use ace_os.Pmm.{is_free, set_used, set_free}

-- Frame `i` has a bit.
abbrev pub InMap : List ℕ → ℕ → Type 0
InMap bitmap i = i < 32 * length bitmap

is_free-bit : (m : List ℕ) (j : ℕ) → is_free m j ≡ (bit (j % 32) (get_or m (j / 32) 0) == 0)
unfolding is_free
is_free-bit m j = mask_test (j % 32) (get_or m (j / 32) 0)

same_word :
    (m : List ℕ) (i j w : ℕ)
    → InMap m i
    → i / 32 ≡ j / 32
    → get_or (set m (i / 32) w) (j / 32) 0 ≡ w
same_word m i j w h e = rw (← e) (get_or-set_self m (i / 32) w 0 (omega arith))

other_word :
    (m : List ℕ) (i j w : ℕ)
    → i / 32 ≢ j / 32
    → get_or (set m (i / 32) w) (j / 32) 0 ≡ get_or m (j / 32) 0
other_word m i j w ne = get_or-set_ne m (i / 32) (j / 32) w 0 ne

word_at : (m : List ℕ) (i j : ℕ) → i / 32 ≡ j / 32 → get_or m (i / 32) 0 ≡ get_or m (j / 32) 0
word_at m i j e = ap (λ k. get_or m k 0) e

pub is_free-set_used :
    (m : List ℕ) (i j : ℕ)
    → InMap m i
    → is_free (set_used m i) j ≡ (if j == i then false else is_free m j)
unfolding set_used
is_free-set_used m i j h =
    rw
      (
        is_free-bit m j,
        is_free-bit (set m (i / 32) (bit_or (get_or m (i / 32) 0) (2 ^ (i % 32)))) j,
      )
      (elim (Bool-cases (i / 32 == j / 32)) [
        | inl e ↦
            let e' = (==_iff (i / 32) (j / 32)).0 e in
            rw (same_word m i j (bit_or (get_or m (i / 32) 0) (2 ^ (i % 32))) h e') (
              ground (
                arith,
                word_at m i j e',
                bit-bit_or (j % 32) (get_or m (i / 32) 0) (2 ^ (i % 32)),
                bit-pow (j % 32) (i % 32) (omega arith) (omega arith),
              ))
        | inr ne ↦
            rw (other_word m i j (bit_or (get_or m (i / 32) 0) (2 ^ (i % 32))) (ground arith))
              (ground arith)
      ])

pub is_free-set_free :
    (m : List ℕ) (i j : ℕ)
    → InMap m i
    → is_free (set_free m i) j ≡ (if j == i then true else is_free m j)
unfolding set_free
is_free-set_free m i j h =
    let mask : ℕ = 2 ^ 32 - 1 - 2 ^ (i % 32) in
    rw
      (
        is_free-bit m j,
        is_free-bit (set m (i / 32) (bit_and (get_or m (i / 32) 0) (2 ^ 32 - 1 - 2 ^ (i % 32)))) j,
      )
      (elim (Bool-cases (i / 32 == j / 32)) [
        | inl e ↦
            let e' = (==_iff (i / 32) (j / 32)).0 e in
            rw (same_word m i j (bit_and (get_or m (i / 32) 0) (2 ^ 32 - 1 - 2 ^ (i % 32))) h e') (
              ground (
                arith,
                word_at m i j e',
                bit-le-one (j % 32) (get_or m (i / 32) 0),
                bit-bit_and (j % 32) (get_or m (i / 32) 0) (2 ^ 32 - 1 - 2 ^ (i % 32)),
                bit-not-pow (j % 32) (i % 32) (omega arith) (omega arith),
              ))
        | inr ne ↦
            rw
              (other_word m i j (bit_and (get_or m (i / 32) 0) (2 ^ 32 - 1 - 2 ^ (i % 32)))
                (ground arith))
              (ground arith)
      ])

pub length-set_used : (m : List ℕ) (i : ℕ) → length (set_used m i) ≡ length m
unfolding set_used
length-set_used m i = length-set m (i / 32) (bit_or (get_or m (i / 32) 0) (2 ^ (i % 32)))

pub length-set_free : (m : List ℕ) (i : ℕ) → length (set_free m i) ≡ length m
unfolding set_free
length-set_free m i =
    length-set m (i / 32) (bit_and (get_or m (i / 32) 0) (2 ^ 32 - 1 - 2 ^ (i % 32)))

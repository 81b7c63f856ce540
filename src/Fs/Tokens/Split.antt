-- ===== src/Fs/Tokens/Split.antt =====
-- Splitting a path in drivers/fs.c undoes joining its parts.
use ace_os.Base.{
  ℕ, zero, suc, ◌≤◌, ◌<◌, ◌≡◌, ◌≢◌, refl, ap, ◌∷◌, ◌++◌, [], List, Option, none, some, true, false,
  arith, take, length, length-append,
}
use ace_os.Libc.{strchr}
use ace_os.Fs.Tokens.{
  slash, is_delim, skip_delims, cut_token, start_token, fs_strtok, collect_parts, fs_parse_path,
}

-- A name: no character of it is a slash or a NUL.
abbrev pub IsPlain : List ℕ → Type 0
IsPlain [] = Unit {0}
IsPlain (c ∷ s) = (c ≢ slash) × (c ≢ 0) × IsPlain s

-- The parts of a path are not empty and plain.
abbrev pub AreParts : List (List ℕ) → Type 0
AreParts [] = Unit {0}
AreParts (part ∷ parts) = (part ≢ []) × IsPlain part × AreParts parts

-- The path "/a/b/c" of the parts.
abbrev pub join : List (List ℕ) → List ℕ
join [] = []
join (part ∷ parts) = slash ∷ (part ++ join parts)

is_delim-slash : is_delim (slash ∷ []) slash ≡ true
unfolding strchr
is_delim-slash = refl

is_delim-other : (c : ℕ) → c ≢ slash → c ≢ 0 → is_delim (slash ∷ []) c ≡ false
unfolding strchr
is_delim-other c h nz = ground arith

-- What is behind the first part, as `last_token` points to it.
abbrev behind : List (List ℕ) → Option (List ℕ)
behind [] = none
behind (part ∷ parts) = some (part ++ join parts)

cut_token-join :
    (part : List ℕ) (parts : List (List ℕ))
    → IsPlain part
    → cut_token (slash ∷ []) (part ++ join parts) ≡ (part, behind parts)
unfolding cut_token
cut_token-join [] [] h = refl
cut_token-join [] (part ∷ parts) h = rw is_delim-slash refl
cut_token-join (c ∷ part) parts (ns, nz, h) =
    let more = is_delim-other c ns nz in rw (more, cut_token-join part parts h) refl

fs_strtok-join :
    (part : List ℕ) (parts : List (List ℕ))
    → part ≢ []
    → IsPlain part
    → fs_strtok none (slash ∷ []) (some (part ++ join parts)) ≡ (some part, behind parts)
unfolding fs_strtok skip_delims
fs_strtok-join [] parts ne h = absurd (ne refl)
fs_strtok-join (c ∷ part) parts ne (ns, nz, h) =
    let more = is_delim-other c ns nz in rw (more, cut_token-join (c ∷ part) parts (ns, nz, h)) refl

collect_parts-join :
    (room : ℕ) (part : List ℕ) (parts : List (List ℕ))
    → AreParts parts
    → length parts < room
    → collect_parts room (some part) (behind parts) ≡ part ∷ parts
unfolding collect_parts fs_strtok
collect_parts-join zero part parts h lt = absurd (omega arith)
collect_parts-join (suc zero) part [] h lt = refl
collect_parts-join (suc (suc room)) part [] h lt = refl
collect_parts-join (suc room) part (next ∷ parts) (ne, plain, h) lt =
    rw (fs_strtok-join next parts ne plain)
      (ap (λ l. part ∷ l) (collect_parts-join room next parts h (omega arith)))

parts-le-join : (parts : List (List ℕ)) → length parts ≤ length (join parts)
parts-le-join [] = omega arith
parts-le-join (part ∷ parts) = omega (arith, length-append part (join parts), parts-le-join parts)

take_all {ℓ} : {A : Type ℓ} (n : ℕ) (xs : List A) → length xs ≤ n → take n xs ≡ xs
take_all zero [] h = refl
take_all zero (x ∷ xs) h = absurd (omega arith)
take_all (suc n) [] h = refl
take_all (suc n) (x ∷ xs) h = ap (λ l. x ∷ l) (take_all n xs (omega arith))

-- The first call starts on a slash.
parse-join :
    (parts : List (List ℕ))
    → AreParts parts
    → length parts ≤ 256
    → (let (token, last_token) = fs_strtok (some (join parts)) (slash ∷ []) none in
        collect_parts 256 token last_token)
      ≡ parts
unfolding fs_strtok skip_delims
parse-join [] h few = unfold collect_parts in refl
parse-join (part ∷ parts) (ne, plain, h) few =
    let first : start_token (slash ∷ []) (skip_delims (slash ∷ []) (part ++ join parts))
        ≡ (some part, behind parts) =
      fs_strtok-join part parts ne plain in
    rw (is_delim-slash, first) (collect_parts-join 256 part parts h (omega arith))

-- The parts of a path that is joined from parts are these parts, if it has fewer than
-- 256 characters.
pub fs_parse_path-join :
    (parts : List (List ℕ))
    → AreParts parts
    → length (join parts) < 256
    → fs_parse_path (join parts) ≡ parts
unfolding fs_parse_path
fs_parse_path-join parts h small =
    rw (take_all 256 (join parts) (omega (arith, small)))
      (parse-join parts h (omega (arith, parts-le-join parts)))

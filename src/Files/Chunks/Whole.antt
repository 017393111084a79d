-- ===== src/Files/Chunks/Whole.antt =====
-- The chunks of a file are the whole file, and the loop over them ends.
use native.Mathlib.Decide.{dec_le}
use mathlib.Core.List.{append-nil, append_assoc}
use ms_robot.Files.Chunks.{
  Spark, append_all, join, slice_chunk, chunk_count, load_next_chunk, IsHash, Settled, min,
  resolved, calculate_md5, calculate_md5_by, mebibytes_2,
}
use native.Mathlib.Nat.{div-lt_iff_lt-mul}
use ms_robot.Base.{
  refl, List, ℕ, length, drop, take, ◌++◌, ◌≡◌, ◌≤◌, ◌<◌, suc, ltb, ◌∷◌, ◌+◌, ap, [], arith, zero,
  ◌*◌, false, ◌∙◌, sym, Str, ◌-◌, Option, Bool, some, true, length-drop, none, Bool-cases, inl, inr,
}

abbrev pub is_settled : Option Settled → Bool
is_settled none = false
is_settled (some r) = true

take-drop_append : (n : ℕ) (xs : List ℕ) → take n xs ++ drop n xs ≡ xs
take-drop_append zero xs = refl
take-drop_append (suc n) [] = refl
take-drop_append (suc n) (x ∷ xs) = ap (x ∷◌) (take-drop_append n xs)

drop-drop : (a b m : ℕ) (xs : List ℕ) → b + a ≡ m → drop a (drop b xs) ≡ drop m xs
drop-drop a zero m xs e = let same : a ≡ m = omega arith in ap (λ k. drop k xs) same
drop-drop a (suc b) zero xs e = absurd (omega arith)
drop-drop zero (suc b) (suc m) [] e = refl
drop-drop (suc a) (suc b) (suc m) [] e = refl
drop-drop a (suc b) (suc m) (x ∷ xs) e = drop-drop a b m xs (omega arith)

take-past : (n : ℕ) (xs : List ℕ) → length xs ≤ n → take n xs ≡ xs
take-past zero [] h = refl
take-past zero (x ∷ xs) h = absurd (omega arith)
take-past (suc n) [] h = refl
take-past (suc n) (x ∷ xs) h = ap (x ∷◌) (take-past n xs (omega arith))

drop-past : (n : ℕ) (xs : List ℕ) → length xs ≤ n → drop n xs ≡ []
drop-past zero [] h = refl
drop-past zero (x ∷ xs) h = absurd (omega arith)
drop-past (suc n) [] h = refl
drop-past (suc n) (x ∷ xs) h = drop-past n xs (omega arith)

-- A chunk and what is behind it.
slice-append :
    (bytes : List ℕ) (chunk_size chunk : ℕ)
    → slice_chunk bytes chunk_size chunk ++ drop ((chunk + 1) * chunk_size) bytes
      ≡ drop (chunk * chunk_size) bytes
slice-append bytes chunk_size chunk =
    let start = chunk * chunk_size in
    let behind = drop-drop chunk_size start ((chunk + 1) * chunk_size) bytes (omega arith) in
    elim (dec_le (start + chunk_size) (length bytes)) [
      | yes inside ↦
          let whole : min (start + chunk_size) (length bytes) - start ≡ chunk_size = omega arith in
          rw (whole, ← behind) (take-drop_append chunk_size (drop start bytes))
      | no past ↦
          rw
            (
              take-past (min (start + chunk_size) (length bytes) - start) (drop start bytes)
                  (omega (arith, length-drop start bytes)),
              drop-past ((chunk + 1) * chunk_size) bytes (omega arith),
            )
            (append-nil (drop start bytes))
    ]

append_all-append :
    (S : Spark) (s : S.State) (parts : List (List ℕ)) (part : List ℕ)
    → append_all S s (parts ++ part ∷ []) ≡ S.append (append_all S s parts) part
append_all-append S s [] part = refl
append_all-append S s (p ∷ parts) part = append_all-append S (S.append s p) parts part

join-append :
    (parts : List (List ℕ)) (part : List ℕ) → join (parts ++ part ∷ []) ≡ join parts ++ part
join-append [] part = append-nil part
join-append (p ∷ parts) part =
    ap (p ++◌) (join-append parts part) ∙ sym (append_assoc p (join parts) part)

-- The last chunk, where no more follow.
count-last :
    (size chunk_size chunk : ℕ)
    → 0 < chunk_size
    → ltb (chunk + 1) (chunk_count size chunk_size) ≡ false
    → size ≤ (chunk + 1) * chunk_size
count-last size chunk_size chunk some_size h =
    let few : chunk_count size chunk_size < chunk + 2 = ground (arith, h) in
    let all : size + (chunk_size - 1) < (chunk + 2) * chunk_size =
      (div-lt_iff_lt-mul some_size).0 few in
    omega (arith, all)

module _ (S : Spark) (md5 : List ℕ → Str) (hash : IsHash S md5) (readable : ℕ → Bool)
    (bytes : List ℕ) (chunk_size : ℕ) where
  loop-whole :
      (left chunk : ℕ) (parts : List (List ℕ)) (s : S.State)
      → 0 < chunk_size
      → ((n : ℕ) → readable n ≡ true)
      → chunk_count (length bytes) chunk_size < left + chunk
      → 0 < left
      → s ≡ append_all S S.fresh parts
      → join parts ++ drop (chunk * chunk_size) bytes ≡ bytes
      → load_next_chunk S readable bytes chunk_size left chunk s ≡ some (resolved (md5 bytes))
  unfolding load_next_chunk
  loop-whole zero chunk parts s some_size ok enough pos_ e whole = absurd (omega (arith, pos_))
  loop-whole (suc left) chunk parts s some_size ok enough pos_ e whole =
      let part = slice_chunk bytes chunk_size chunk in
      let more = parts ++ part ∷ [] in
      let grown : S.append s part ≡ append_all S S.fresh more =
        ap (λ t. S.append t part) e ∙ sym (append_all-append S S.fresh parts part) in
      let joined : join more ++ drop ((chunk + 1) * chunk_size) bytes ≡ bytes =
        rw
          (
            join-append parts part,
            append_assoc (join parts) part (drop ((chunk + 1) * chunk_size) bytes),
            slice-append bytes chunk_size chunk,
          )
          whole in
      elim (Bool-cases (ltb (chunk + 1) (chunk_count (length bytes) chunk_size))) [
        | inl go ↦
            rw (ok chunk, go)
              (loop-whole left (chunk + 1) more (S.append s part) some_size ok
                (omega (arith, enough)) (ground (arith, enough, go)) grown joined)
        | inr last ↦
            let small = count-last (length bytes) chunk_size chunk some_size last in
            let full : join more ≡ bytes =
              sym (append-nil (join more))
              ∙ ap (join more ++◌) (sym (drop-past ((chunk + 1) * chunk_size) bytes small))
              ∙ joined in
            rw (ok chunk, last, grown, hash.end-append_all more)
              (ap (λ b. some (resolved (md5 b))) full)
      ]

-- Whatever chunks can be read, the promise is settled.
loop-settled :
    (S : Spark) (readable : ℕ → Bool) (bytes : List ℕ) (chunk_size left chunk : ℕ) (s : S.State)
    → chunk_count (length bytes) chunk_size < left + chunk
    → 0 < left
    → is_settled (load_next_chunk S readable bytes chunk_size left chunk s) ≡ true
unfolding load_next_chunk
loop-settled S readable bytes chunk_size zero chunk s enough pos_ = absurd (omega (arith, pos_))
loop-settled S readable bytes chunk_size (suc left) chunk s enough pos_ = ground (
  arith,
  loop-settled S readable bytes chunk_size left (chunk + 1)
      (S.append s (slice_chunk bytes chunk_size chunk)),
)

-- With SparkMD5 loaded and a file that can be read, `calculateMD5` resolves to the MD5 of the whole
-- file, of an empty one too, where SparkMD5 gives the hash of the parts joined.
pub calculate_md5-eq-md5 :
    (S : Spark) (md5 : List ℕ → Str)
    → IsHash S md5
    → (readable : ℕ → Bool) (bytes : List ℕ) → ((n : ℕ) → readable n ≡ true)
    → calculate_md5 S true readable bytes ≡ some (resolved (md5 bytes))
unfolding calculate_md5 calculate_md5_by
calculate_md5-eq-md5 S md5 hash readable bytes ok =
    loop-whole S md5 hash readable bytes mebibytes_2 (suc (chunk_count (length bytes) mebibytes_2))
      0 [] S.fresh (omega arith) ok (omega arith) (omega arith) refl refl

-- Whether or not SparkMD5 is loaded and whichever chunks can be read, the promise of `calculateMD5`
-- is settled: the loop over the chunks ends.
pub calculate_md5-settled :
    (S : Spark) (loaded : Bool) (readable : ℕ → Bool) (bytes : List ℕ)
    → is_settled (calculate_md5 S loaded readable bytes) ≡ true
unfolding calculate_md5 calculate_md5_by
calculate_md5-settled S false readable bytes = refl
calculate_md5-settled S true readable bytes =
    loop-settled S readable bytes mebibytes_2 (suc (chunk_count (length bytes) mebibytes_2)) 0
      S.fresh (omega arith) (omega arith)

-- ===== src/Syslog/Pids.antt =====
-- The numbers of a line and the tag with its process id, and what syslog.go reads from their text.
use cypress.Base.{
  false, ℕ, zero, suc, ◌+◌, ◌-◌, ◌^◌, ◌<◌, ◌≡◌, refl, false, none, some, [], ◌∷◌, ◌++◌, length,
  take, drop, append_assoc, arith, ltb, All, length-append, take-append_length,
}
use cypress.Base.Text.{Without, Text, codes}
use cypress.Base.Int.{pos}
use cypress.Base.Decimal.{
  decimal, decimal-length, digits_value, digits_value-decimal, decimal-IsDigit, all_digits-true,
  IsDigit,
}
use cypress.Base.Results.{ok, err, slice_bounds}
use cypress.Syslog.Reader.{slice, atoi, index_byte}
use cypress.Syslog.Legacy.{split_pid, read_priority}
use cypress.Syslog.Reads.{
  Reads, bind-Reads, end-Reads, pure-Reads, read_byte-Reads, read_field-Reads,
}

atoi_digits :
    (t : Text)
    → 0 < length t
    → All IsDigit t
    → digits_value t < 2 ^ 63
    → atoi t ≡ some (pos (digits_value t))
unfolding atoi
atoi_digits [] k h l = absurd (omega arith)
atoi_digits (c ∷ cs) k (h, hs) l = let digits = all_digits-true (c ∷ cs) (h, hs) in ground arith

-- The text of a number reads as that number.
atoi-decimal : (n : ℕ) → n < 2 ^ 63 → atoi (decimal n) ≡ some (pos n)
atoi-decimal n l = rw (digits_value-decimal n) at (
    atoi_digits (decimal n) (decimal-length n 18 (omega arith)).0 (decimal-IsDigit n)
      (rw (digits_value-decimal n) l))

digits_Without : (d : ℕ) (t : Text) → ¬ IsDigit d → All IsDigit t → Without d t
digits_Without d [] k h = tt
digits_Without d (c ∷ t) k (h, hs) = ((λ e. k (omega arith, omega arith)), digits_Without d t k hs)

pub read_priority-Reads :
    (prio : ℕ) → prio < 2 ^ 63 → Reads read_priority (b'<' ∷ (decimal prio ++ codes ">")) (pos prio)
unfolding read_priority
read_priority-Reads prio l = bind-Reads _ _ (read_byte-Reads b'<') (
    end-Reads _ _
      (read_field-Reads b'>' (decimal prio)
        (digits_Without b'>' (decimal prio) (λ h. absurd (omega arith)) (decimal-IsDigit prio)))
      (rw (atoi-decimal prio l) (pure-Reads (pos prio))))

index_byte-hit :
    (d : ℕ) (t rest : Text) → Without d t → index_byte d (t ++ d ∷ rest) ≡ some (length t)
unfolding index_byte
index_byte-hit d [] rest h = ground arith
index_byte-hit d (c ∷ t) rest (h, hs) = ground (arith, index_byte-hit d t rest hs)

index_byte-miss : (d : ℕ) (t : Text) → Without d t → index_byte d t ≡ none
unfolding index_byte
index_byte-miss d [] h = refl
index_byte-miss d (c ∷ t) (h, hs) = ground (arith, index_byte-miss d t hs)

-- The tag of a line, with the process id in brackets if there is one.
abbrev pub tag_text : Text → ℕ → Text
tag_text tag zero = tag
tag_text tag (suc pid) = tag ++ (codes "[" ++ (decimal (suc pid) ++ codes "]"))

Without-append : (d : ℕ) (s t : Text) → Without d s → Without d t → Without d (s ++ t)
Without-append d [] t h k = k
Without-append d (c ∷ s) t (h, hs) k = (h, Without-append d s t hs k)

drop_behind : (xs : Text) (d : ℕ) (ys : Text) → drop (length xs + 1) (xs ++ d ∷ ys) ≡ ys
drop_behind [] d ys = refl
drop_behind (x ∷ xs) d ys = ground (arith, drop_behind xs d ys)

slice_between :
    (xs ys zs : Text) (d : ℕ)
    → slice (xs ++ (d ∷ (ys ++ zs))) (length xs + 1) (length (xs ++ (d ∷ ys))) ≡ ok ys
unfolding slice
slice_between xs ys zs d =
    let n : length (xs ++ (d ∷ ys)) ≡ length xs + 1 + length ys =
      omega (arith, length-append xs (d ∷ ys)) in
    let k : length (xs ++ (d ∷ (ys ++ zs))) ≡ length xs + 1 + length ys + length zs =
      omega (arith, length-append xs (d ∷ (ys ++ zs)), length-append ys zs) in
    let j : length xs + 1 + length ys - (length xs + 1) ≡ length ys = omega arith in
    let high : ltb (length xs + 1 + length ys + length zs) (length xs + 1 + length ys) ≡ false =
      ground arith in
    let low : ltb (length xs + 1 + length ys) (length xs + 1) ≡ false = ground arith in
    rw (slice, n, k, high, low, j, drop_behind xs d (ys ++ zs), take-append_length ys zs)

pub split_pid-tag_text :
    (tag : Text) (pid : ℕ)
    → Without b'[' tag
    → Without b']' tag
    → pid < 2 ^ 63
    → split_pid (tag_text tag pid) ≡ ok (tag, pos pid)
unfolding split_pid
split_pid-tag_text tag zero o c l = rw (split_pid, index_byte-miss b'[' tag o)
split_pid-tag_text tag (suc pid) o c l =
    let digits = decimal (suc pid) in
    let left : index_byte b'[' (tag_text tag (suc pid)) ≡ some (length tag) =
      index_byte-hit b'[' tag (digits ++ codes "]") o in
    let inner : Without b']' (tag ++ (codes "[" ++ digits)) = Without-append b']' tag _ c (
      (λ e. absurd (omega arith)),
      digits_Without b']' digits (λ h. absurd (omega arith)) (decimal-IsDigit (suc pid)),
    ) in
    let right : index_byte b']' (tag_text tag (suc pid))
        ≡ some (length (tag ++ (codes "[" ++ digits))) =
      rw (append_assoc tag (codes "[" ++ digits) (codes "]")) at
        (index_byte-hit b']' (tag ++ (codes "[" ++ digits)) [] inner) in
    let cut : slice (tag_text tag (suc pid)) (length tag + 1)
          (length (tag ++ (codes "[" ++ digits)))
        ≡ ok digits =
      slice_between tag digits (codes "]") b'[' in
    let front : take (length tag) (tag_text tag (suc pid)) ≡ tag =
      take-append_length tag (codes "[" ++ (digits ++ codes "]")) in
    rw (split_pid, left, right, cut, atoi-decimal (suc pid) l, front)

pub tag_text-Without : (tag : Text) (pid : ℕ) → Without b':' tag → Without b':' (tag_text tag pid)
tag_text-Without tag zero h = h
tag_text-Without tag (suc pid) h = Without-append b':' tag _ h (
  (λ e. absurd (omega arith)),
  Without-append b':' (decimal (suc pid)) _
      (digits_Without b':' _ (λ k. absurd (omega arith)) (decimal-IsDigit (suc pid)))
      ((λ e. absurd (omega arith)), tt),
)

slice_crossed : (t : Text) (lo hi : ℕ) → hi < lo → slice t lo hi ≡ err slice_bounds
unfolding slice
slice_crossed t lo hi l = ground arith

-- A tag with a right bracket in front of its first left one makes the parser panic, whatever else the tag
-- holds.
split_pid_panics :
    (a b c : Text)
    → Without b']' a
    → Without b'[' (a ++ (b']' ∷ b))
    → split_pid ((a ++ (b']' ∷ b)) ++ (b'[' ∷ c)) ≡ err slice_bounds
unfolding split_pid
split_pid_panics a b c ha hb =
    let right : index_byte b']' ((a ++ (b']' ∷ b)) ++ (b'[' ∷ c)) ≡ some (length a) =
      rw (append_assoc a (b']' ∷ b) (b'[' ∷ c)) (index_byte-hit b']' a (b ++ (b'[' ∷ c)) ha) in
    let left : index_byte b'[' ((a ++ (b']' ∷ b)) ++ (b'[' ∷ c)) ≡ some (length (a ++ (b']' ∷ b))) =
      index_byte-hit b'[' (a ++ (b']' ∷ b)) c hb in
    let cut : slice ((a ++ (b']' ∷ b)) ++ (b'[' ∷ c)) (length (a ++ (b']' ∷ b)) + 1) (length a)
        ≡ err slice_bounds =
      slice_crossed ((a ++ (b']' ∷ b)) ++ (b'[' ∷ c)) (length (a ++ (b']' ∷ b)) + 1) (length a)
        (omega (arith, length-append a (b']' ∷ b))) in
    rw (split_pid, left, right, cut)

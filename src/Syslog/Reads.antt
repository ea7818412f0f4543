-- ===== src/Syslog/Reads.antt =====
-- What a parser of syslog.go reads: laws of its pieces, from which those of a whole line are put
-- together.
use cypress.Base.{
  ℕ, ◌+◌, ◌≡◌, refl, ap, Bool, true, false, some, List, [], ◌∷◌, ◌++◌, length, append_assoc,
  append-nil, arith, if◌then◌else◌,
}
use cypress.Base.Text.{Without, Text}
use cypress.Base.Results.{Result, ok, err, Panic, ◌>>=◌ as try}
use cypress.Syslog.Reader.{
  Input, Parser, ◌>>=◌, pure, lift, read_byte, read_string, split_after, peek, read_space,
  read_field, but_last,
}

-- In front of whatever follows, the parser takes the text, and nothing more, and gives the value.
pub record Reads {A : Type 0} (m : Parser A) (t : Text) (a : A) : Type 0 where
  pub reads :
      (rest : List ℕ) (u : ℕ)
      → (v : ℕ) × (m (record { r = t ++ rest; used = u }) ≡ ok (a, record { r = rest; used = v }))

module _ {A B : Type 0} where
  pub bind-Reads :
      (m : Parser A) (f : A → Parser B) {t1 t2 : Text} {a : A} {b : B}
      → Reads m t1 a
      → Reads (f a) t2 b
      → Reads (m >>= f) (t1 ++ t2) b
  bind-Reads m f {t1} {t2} {a} {b} rm rf = record {
    reads = λ rest u.
        let (v, e) = rm.reads (t2 ++ rest) u in
        let (w, o) = rf.reads rest v in (w, rw (append_assoc t1 t2 rest, ◌>>=◌, e) o);
  }

  -- Where the rest reads nothing.
  pub end-Reads :
      (m : Parser A) (f : A → Parser B) {t : Text} {a : A} {b : B}
      → Reads m t a
      → Reads (f a) [] b
      → Reads (m >>= f) t b
  end-Reads m f {t} rm rf = rw (append-nil t) at (bind-Reads m f rm rf)

peek_one_seen :
    (c : ℕ) (cs : List ℕ) (u : ℕ)
    → peek 1 (record { r = c ∷ cs; used = u }) ≡ ok (c ∷ [], record { r = c ∷ cs; used = u })
unfolding peek
peek_one_seen c cs u = ground arith

peek_two_seen :
    (c d : ℕ) (cs : List ℕ) (u : ℕ)
    → peek 2 (record { r = c ∷ d ∷ cs; used = u })
      ≡ ok (c ∷ d ∷ [], record { r = c ∷ d ∷ cs; used = u })
unfolding peek
peek_two_seen c d cs u = ground arith

module _ {B : Type 0} where
  -- What is seen stays there.
  pub peek_one-Reads :
      (f : Text → Parser B) (c : ℕ) {t : Text} {b : B}
      → Reads (f (c ∷ [])) (c ∷ t) b
      → Reads (peek 1 >>= f) (c ∷ t) b
  peek_one-Reads f c {t} {b} rf = record {
    reads =
        λ rest u. let (w, o) = rf.reads rest u in (w, rw (◌>>=◌, peek_one_seen c (t ++ rest) u) o);
  }

  pub peek_two-Reads :
      (f : Text → Parser B) (c d : ℕ) {t : Text} {b : B}
      → Reads (f (c ∷ d ∷ [])) (c ∷ d ∷ t) b
      → Reads (peek 2 >>= f) (c ∷ d ∷ t) b
  peek_two-Reads f c d {t} {b} rf = record {
    reads = λ rest u.
        let (w, o) = rf.reads rest u in (w, rw (◌>>=◌, peek_two_seen c d (t ++ rest) u) o);
  }

module _ {A : Type 0} where
  pub pure-Reads : (a : A) → Reads (pure a) [] a
  pure-Reads a = record { reads = λ rest u. (u, refl) }

  pub lift-Reads : (x : Result Panic A) {a : A} → x ≡ ok a → Reads (lift x) [] a
  lift-Reads x e = record { reads = λ rest u. (u, rw e) }

  pub if_true-Reads :
      (b : Bool) (m n : Parser A) {t : Text} {a : A}
      → b ≡ true
      → Reads m t a
      → Reads (if b then m else n) t a
  if_true-Reads b m n e rm = rw e rm

  pub if_false-Reads :
      (b : Bool) (m n : Parser A) {t : Text} {a : A}
      → b ≡ false
      → Reads n t a
      → Reads (if b then m else n) t a
  if_false-Reads b m n e rn = rw e rn

pub read_byte-Reads : (c : ℕ) → Reads read_byte (c ∷ []) c
unfolding read_byte
read_byte-Reads c = record { reads = λ rest u. (u + 1, refl) }

pub read_space-Reads : Reads read_space (32 ∷ []) tt
unfolding read_space
read_space-Reads = record { reads = λ rest u. (u + 1, refl) }

split_after-hit :
    (d : ℕ) (t rest : Text) → Without d t → split_after d (t ++ d ∷ rest) ≡ some (t ++ d ∷ [], rest)
unfolding split_after
split_after-hit d [] rest h = ground arith
split_after-hit d (c ∷ t) rest (h, hs) = ground (arith, split_after-hit d t rest hs)

pub but_last-append : (t : Text) (d : ℕ) → but_last (t ++ d ∷ []) ≡ t
but_last-append [] d = refl
but_last-append (c ∷ []) d = refl
but_last-append (c ∷ e ∷ t) d = ap (λ x. c ∷ x) (but_last-append (e ∷ t) d)

pub read_string-Reads :
    (d : ℕ) (t : Text) → Without d t → Reads (read_string d) (t ++ d ∷ []) (t ++ d ∷ [])
unfolding read_string
read_string-Reads d t h = record {
  reads = λ rest u. (
    u + length (t ++ d ∷ []),
    rw (append_assoc t (d ∷ []) rest, read_string, split_after-hit d t rest h),
  );
}

pub read_field-Reads : (d : ℕ) (t : Text) → Without d t → Reads (read_field d) (t ++ d ∷ []) t
unfolding read_field
read_field-Reads d t h = record {
  reads = λ rest u.
      let (v, e) = (read_string-Reads d t h).reads rest u in
      (v, rw (read_field, ◌>>=◌, e, but_last-append t d));
}

-- A parser that reads nothing does what a computation does that may panic.
pub record Computes {A : Type 0} (p : Parser A) (x : Result Panic A) : Type 0 where
  pub computes : (s : Input) → p s ≡ lift x s

module _ {A : Type 0} where
  pub lift-Computes : (x : Result Panic A) → Computes (lift x) x
  lift-Computes x = record { computes = λ s. refl }

  pub pure-Computes : (a : A) → Computes (pure a) (ok a)
  pure-Computes a = record { computes = λ s. refl }

  pub if-Computes :
      (b : Bool) (p q : Parser A) (x y : Result Panic A)
      → Computes p x
      → Computes q y
      → Computes (if b then p else q) (if b then x else y)
  if-Computes true p q x y cp cq = cp
  if-Computes false p q x y cp cq = cq

  pub computed-Reads :
      (p : Parser A) {x : Result Panic A} {a : A} → Computes p x → x ≡ ok a → Reads p [] a
  computed-Reads p cp e = record {
    reads = λ rest u.
        let same_run = cp.computes (record { r = rest; used = u }) in (u, rw (same_run, e));
  }

module _ {A B : Type 0} where
  pub bind-Computes :
      (p : Parser A) (f : A → Parser B) (x : Result Panic A) (g : A → Result Panic B)
      → Computes p x
      → ((a : A) → Computes (f a) (g a))
      → Computes (p >>= f) (try x g)
  bind-Computes p f (ok a) g cp cf = record {
    computes = λ s. let same_run = cp.computes s in rw (◌>>=◌, same_run) ((cf a).computes s);
  }
  bind-Computes p f (err e) g cp cf = record {
    computes = λ s. let same_run = cp.computes s in rw (◌>>=◌, same_run);
  }

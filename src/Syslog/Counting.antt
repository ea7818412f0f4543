-- ===== src/Syslog/Counting.antt =====
-- The count of the bytes of a line: `total` follows what is taken off the connection.
use cypress.Base.{
  ℕ, zero, suc, ◌+◌, ◌-◌, ◌≤◌, ◌≡◌, ap, Bool, true, false, Option, none, some, List, [], ◌∷◌, ◌++◌,
  length, take, drop, length-append, take-append-drop, arith, ltb, ◌==◌, if◌then◌else◌,
  Option-cases, Bool-cases, inl, inr,
}
use cypress.Base.Text.{Text, codes, same}
use cypress.Base.Int.{ℤ}
use cypress.Base.Results.{Result, ok, err, Panic, Result-cases}
use cypress.Message.Types.{Message}
use cypress.Message.Attributes.{add_string}
use cypress.Syslog.{priority_names}
use cypress.Syslog.Reader.{
  SyslogError, Input, Parser, ◌>>=◌, pure, fail, lift, read_byte, read_string, split_after, peek,
  skip, read_stamp, stamp_text, read_space, read_field, read_message, but_last, slice,
  invalid_format,
}
use cypress.Syslog.Structured.{
  quoted, read_quoted, added, read_params, read_element, read_structured, add_priority,
}

-- Every successful run of the parser leaves a part of its input, and counts the bytes that it took.
pub record Counts {A : Type 0} (m : Parser A) : Type 0 where
  pub counts :
      (s : Input) (a : A) (t : Input)
      → m s ≡ ok (a, t)
      → (length t.r ≤ length s.r) × (t.used + length t.r ≡ s.used + length s.r)

module _ {A B : Type 0} where
  pub bind-Counts :
      (m : Parser A) (f : A → Parser B) → Counts m → ((a : A) → Counts (f a)) → Counts (m >>= f)
  bind-Counts m f cm cf = record {
    counts = λ s b u e. elim (Result-cases (m s)) [
      | inl ((a, t), r) ↦
          let (l, n) = cm.counts s a t r in
          let run : f a t ≡ ok (b, u) = ground arith in
          let (k, o) = (cf a).counts t b u run in (omega arith, omega arith)
      | inr (x, r) ↦ absurd (ground arith)
    ];
  }

module _ {A : Type 0} where
  pub pure-Counts : (a : A) → Counts (pure a)
  pure-Counts a = record { counts = λ s b t e. ground arith }

  pub fail-Counts : (x : SyslogError) → Counts {A = A} (fail x)
  fail-Counts x = record { counts = λ s b t e. absurd (ground arith) }

  pub lift-Counts : (r : Result Panic A) → Counts (lift r)
  lift-Counts (ok a) = record { counts = λ s b t e. ground arith }
  lift-Counts (err x) = record { counts = λ s b t e. absurd (ground arith) }

  pub if-Counts : (b : Bool) (m n : Parser A) → Counts m → Counts n → Counts (if b then m else n)
  if-Counts true m n cm cn = cm
  if-Counts false m n cm cn = cn

pub read_byte-Counts : Counts read_byte
unfolding read_byte
read_byte-Counts = record { counts = λ s c t e. ground arith }

split_after-length :
    (d : ℕ) (cs t rest : List ℕ)
    → split_after d cs ≡ some (t, rest)
    → length t + length rest ≡ length cs
unfolding split_after
split_after-length d [] t rest e = absurd (ground arith)
split_after-length d (c ∷ cs) t rest e = elim (Bool-cases (c == d)) [
  | inl hit ↦ ground arith
  | inr miss ↦ elim (Option-cases (split_after d cs)) [
    | inl over ↦ absurd (ground arith)
    | inr ((u, v), found) ↦ ground (arith, split_after-length d cs u v found)
  ]
]

pub read_string-Counts : (d : ℕ) → Counts (read_string d)
unfolding read_string
read_string-Counts d = record {
  counts = λ s t u e. elim (Option-cases (split_after d s.r)) [
    | inl over ↦ absurd (ground arith)
    | inr ((x, y), found) ↦ ground (arith, split_after-length d s.r x y found)
  ];
}

pub peek-Counts : (n : ℕ) → Counts (peek n)
unfolding peek
peek-Counts n = record { counts = λ s t u e. ground arith }

length-take-drop : (n : ℕ) (cs : List ℕ) → length (take n cs) + length (drop n cs) ≡ length cs
length-take-drop n cs =
    omega (arith, length-append (take n cs) (drop n cs), ap length (take-append-drop n cs))

pub skip-Counts : (n : ℕ) → Counts (skip n)
unfolding skip
skip-Counts n = record { counts = λ s t u e. ground (arith, length-take-drop n s.r) }

pub read_field-Counts : (d : ℕ) → Counts (read_field d)
unfolding read_field
read_field-Counts d =
    bind-Counts (read_string d) _ (read_string-Counts d) (λ t. pure-Counts (but_last t))

pub read_space-Counts : Counts read_space
unfolding read_space
read_space-Counts =
    bind-Counts read_byte _ read_byte-Counts
      (λ c. if-Counts (c == 32) _ _ (pure-Counts tt) (fail-Counts invalid_format))

pub read_message-Counts : (ready total : ℕ) → Counts (read_message ready total)
unfolding read_message
read_message-Counts ready total = record {
  counts = λ s t u e. elim (Bool-cases (ltb s.used total)) [
    | inl more ↦
        let left : ℕ = total - s.used in
        ground (arith, length-take-drop (if ltb ready left then ready else left) s.r)
    | inr over ↦ (read_string-Counts 10).counts s t u (ground arith)
  ];
}

module _ {T : Type 0} where
  pub read_stamp-Counts :
      (parse_time : Text → Text → Option T) (fmts : List Text) → Counts (read_stamp parse_time fmts)
  unfolding read_stamp
  read_stamp-Counts parse_time [] = record { counts = λ s b t e. absurd (ground arith) }
  read_stamp-Counts parse_time (fmt ∷ fmts) = record {
    counts = λ s b t e. elim (Result-cases (peek (length fmt) s)) [
      | inr (x, failed) ↦ absurd (ground arith)
      | inl ((sub, v), seen) ↦
          let (l, n) = (peek-Counts (length fmt)).counts s sub v seen in
          elim (Option-cases (parse_time fmt (stamp_text fmt sub))) [
            | inl no_time ↦ (read_stamp-Counts parse_time fmts).counts s b t (ground arith)
            | inr (ts, time) ↦
                let (k, o) =
                  (bind-Counts (skip (length (stamp_text fmt sub))) _
                      (skip-Counts (length (stamp_text fmt sub))) (λ w. pure-Counts ts)).counts
                    v b t (ground arith) in
                (omega arith, omega arith)
          ]
    ];
  }

quoted-length : (cs v rest : List ℕ) → quoted cs ≡ some (v, rest) → length rest ≤ length cs
unfolding quoted
quoted-length [] v rest e = absurd (ground arith)
quoted-length (c ∷ []) v rest e = ground arith
quoted-length (c ∷ d ∷ cs) v rest e = elim (Option-cases (quoted cs)) [
  | inl n ↦ elim (Option-cases (quoted (d ∷ cs))) [
    | inl m ↦ ground arith
    | inr ((x, y), m) ↦ ground (arith, quoted-length (d ∷ cs) x y m)
  ]
  | inr ((p, q), n) ↦ elim (Option-cases (quoted (d ∷ cs))) [
    | inl m ↦ ground (arith, quoted-length cs p q n)
    | inr ((x, y), m) ↦ ground (arith, quoted-length (d ∷ cs) x y m, quoted-length cs p q n)
  ]
]

pub read_quoted-Counts : Counts read_quoted
unfolding read_quoted
read_quoted-Counts = record {
  counts = λ s t u e. elim (Option-cases (quoted s.r)) [
    | inl over ↦ absurd (ground arith)
    | inr ((x, y), found) ↦ ground (arith, quoted-length s.r x y found)
  ];
}

-- A parser that looks at its input first.
here-Counts :
    {A : Type 0} (f : Input → Parser A) → ((s : Input) → Counts (f s)) → Counts (λ s. f s s)
here-Counts f cf = record { counts = λ s a t e. (cf s).counts s a t e }

module _ {T : Type 0} where
  pub added-Counts : (m : Message T) (key val : Text) → Counts (added m key val)
  added-Counts m key val = lift-Counts (add_string m key val)

  pub read_params-Counts :
      (rounds : ℕ) (sdid : Text) (m : Message T) → Counts (read_params rounds sdid m)
  unfolding read_params
  read_params-Counts zero sdid m = record { counts = λ s b t e. absurd (ground arith) }
  read_params-Counts (suc rounds) sdid m = bind-Counts (peek 1) _ (peek-Counts 1) λ p.
      if-Counts (same p (codes "]")) _ _
        (bind-Counts read_byte _ read_byte-Counts (λ c. pure-Counts m))
        (bind-Counts _ _
          (if-Counts (same p (codes " ")) _ _
            (bind-Counts read_byte _ read_byte-Counts (λ c. pure-Counts tt)) (pure-Counts tt))
          λ w. bind-Counts (read_field b'=') _ (read_field-Counts b'=') λ name.
            bind-Counts read_byte _ read_byte-Counts λ q.
              if-Counts (q == b'"') _ _
                (bind-Counts read_quoted _ read_quoted-Counts λ val.
                  bind-Counts _ _ (added-Counts m (sdid ++ codes "." ++ name) val)
                    λ n. read_params-Counts rounds sdid n)
                (fail-Counts invalid_format))

  pub read_element-Counts : (m : Message T) → Counts (read_element m)
  unfolding read_element
  read_element-Counts m = bind-Counts (read_string 32) _ (read_string-Counts 32) λ sdid.
      bind-Counts _ _ (lift-Counts (slice sdid 1 (length sdid - 1))) λ name.
        here-Counts (λ s. read_params (suc (length s.r)) name m)
          (λ s. read_params-Counts (suc (length s.r)) name m)

  pub read_structured-Counts : (m : Message T) → Counts (read_structured m)
  unfolding read_structured
  read_structured-Counts m = bind-Counts (peek 1) _ (peek-Counts 1) λ p.
      if-Counts (same p (codes "-")) _ _
        (bind-Counts read_byte _ read_byte-Counts
          λ c. bind-Counts read_space _ read_space-Counts (λ w. pure-Counts m))
        (read_element-Counts m)

  pub add_priority-Counts : (prio : ℤ) (m : Message T) → Counts (add_priority prio m)
  unfolding add_priority
  add_priority-Counts prio m = bind-Counts _ _ (lift-Counts (priority_names prio)) λ names.
      bind-Counts _ _ (facility_Counts names.0) (λ n. added-Counts n (codes "severity") names.1)
    where
      facility_Counts :
          (f : Option Text)
          → Counts (elim f as (λ _. Parser (Message T)) [
            | none ↦ pure m
            | some t ↦ added m (codes "facility") t
          ])
      facility_Counts none = pure-Counts m
      facility_Counts (some t) = added-Counts m (codes "facility") t

-- ===== src/Syslog/Escapes.antt =====
-- Structured data of RFC 5424: a printer, and what the reader of syslog.go makes of its text.
use cypress.Base.{
  ℕ, zero, suc, ◌+◌, ◌-◌, ◌≤◌, ◌<◌, ◌≡◌, ◌≢◌, refl, false, ◌||◌, some, List, [], ◌∷◌, ◌++◌, length,
  append_assoc, arith, ◌==◌, if◌then◌else◌, All, length-append, take-append_length, Bool-cases, inl,
  inr,
}
use cypress.Base.Text.{Without, Text, codes, same}
use cypress.Base.Results.{Result, ok, err, Panic, Result-cases}
use cypress.Message.Types.{Message}
use cypress.Message.Attributes.{add_string}
use cypress.Syslog.Reader.{◌>>=◌, pure, read_byte, read_field, slice, fail, invalid_format}
use cypress.Syslog.Structured.{
  quoted, read_quoted, read_params, read_element, read_structured, added,
}
use cypress.Syslog.Reads.{
  Reads, bind-Reads, pure-Reads, lift-Reads, if_false-Reads, peek_one-Reads, read_byte-Reads,
  read_field-Reads, read_string-Reads,
}

-- A value in quotes: a backslash in front of a quote, a backslash and a right bracket.
abbrev pub escape : Text → Text
escape [] = []
escape (c ∷ cs) =
    if c == b'"' || c == b'\\' || c == b']' then b'\\' ∷ c ∷ escape cs else c ∷ escape cs

quoted_plain :
    (c : ℕ) (xs v rest : Text)
    → (c == b'"') ≡ false
    → (c == b'\\') ≡ false
    → quoted xs ≡ some (v, rest)
    → quoted (c ∷ xs) ≡ some (c ∷ v, rest)
unfolding quoted
quoted_plain c [] v rest h k e = absurd (ground arith)
quoted_plain c (x ∷ xs) v rest h k e = rw (h, k, e) refl

quoted_marked :
    (c : ℕ) (xs v rest : Text)
    → quoted xs ≡ some (v, rest)
    → quoted (b'\\' ∷ c ∷ xs) ≡ some (c ∷ v, rest)
unfolding quoted
quoted_marked c xs v rest e = rw e refl

-- A value that was written with its escapes is read back, whatever bytes it has, and what stands
-- behind the closing quote is left.
pub quoted-escape : (v rest : Text) → quoted (escape v ++ b'"' ∷ rest) ≡ some (v, rest)
unfolding quoted
quoted-escape [] [] = refl
quoted-escape [] (r ∷ rest) = refl
quoted-escape (c ∷ cs) rest =
    let marked = quoted_marked c (escape cs ++ b'"' ∷ rest) cs rest (quoted-escape cs rest) in
    let plain = quoted_plain c (escape cs ++ b'"' ∷ rest) cs rest in
    elim (Bool-cases (c == b'"' || c == b'\\' || c == b']')) [
      | inl special ↦ rw special marked
      | inr usual ↦ rw usual (plain (ground arith) (ground arith) (quoted-escape cs rest))
    ]

read_quoted-Reads : (v : Text) → Reads read_quoted (escape v ++ b'"' ∷ []) v
unfolding read_quoted
read_quoted-Reads v = record {
  reads = λ rest u.
      let found : quoted ((escape v ++ b'"' ∷ []) ++ rest) ≡ some (v, rest) =
        rw (append_assoc (escape v) (b'"' ∷ []) rest) (quoted-escape v rest) in
      (u + (length ((escape v ++ b'"' ∷ []) ++ rest) - length rest), rw (read_quoted, found));
}

-- A parameter and what follows it.
abbrev pub param_text : Text × Text → Text → Text
param_text (name, val) tail = (name ++ codes "=") ++ (b'"' ∷ ((escape val ++ codes "\"") ++ tail))

-- Parameters behind one another, up to the bracket that ends the element.
abbrev pub more_text : List (Text × Text) → Text
more_text [] = codes "]"
more_text (p ∷ ps) = b' ' ∷ param_text p (more_text ps)

abbrev pub params_text : List (Text × Text) → Text
params_text [] = codes "]"
params_text (p ∷ ps) = param_text p (more_text ps)

-- A name that the parser tells from what may stand in front of it.
abbrev pub IsName : Text → Type 0
IsName [] = ⊥
IsName (c ∷ cs) = (c ≢ b']') × (c ≢ b' ') × Without b'=' (c ∷ cs)

more_text-length : (ps : List (Text × Text)) → length ps < length (more_text ps)
more_text-length [] = omega arith
more_text-length ((name, val) ∷ ps) = omega (
  arith,
  more_text-length ps,
  length-append (name ++ codes "=") (b'"' ∷ ((escape val ++ codes "\"") ++ more_text ps)),
  length-append (escape val ++ codes "\"") (more_text ps),
)

params_text-length : (ps : List (Text × Text)) → length ps ≤ length (params_text ps)
params_text-length [] = omega arith
params_text-length ((name, val) ∷ ps) = omega (arith, more_text-length ((name, val) ∷ ps))

-- The name of an element, between its bracket and the space behind it.
slice_name :
    (sdid : Text)
    → slice (b'[' ∷ (sdid ++ codes " ")) 1 (length (b'[' ∷ (sdid ++ codes " ")) - 1) ≡ ok sdid
unfolding slice
slice_name sdid =
    let n : length (sdid ++ codes " ") ≡ suc (length sdid) =
      omega (arith, length-append sdid (codes " ")) in
    rw (n) (ground (arith, take-append_length sdid (codes " ")))

module _ {T : Type 0} where
  -- What the parameters stand for: an attribute for each, in their order.
  abbrev pub add_params : Text → Message T → List (Text × Text) → Result Panic (Message T)
  add_params sdid m [] = ok m
  add_params sdid m ((name, val) ∷ ps) = elim (add_string m (sdid ++ codes "." ++ name) val) [
    | err e ↦ err e
    | ok n ↦ add_params sdid n ps
  ]

  param-Reads :
      (sdid : Text) (m : Message T) (rounds : ℕ) (name val tail : Text) {m' n : Message T}
      → Without b'=' name
      → add_string m (sdid ++ codes "." ++ name) val ≡ ok m'
      → Reads (read_params rounds sdid m') tail n
      → Reads
          (read_field b'=' >>= λ x. read_byte >>= λ q.
            if q == b'"'
            then (read_quoted >>= λ v.
                added m (sdid ++ codes "." ++ x) v >>= λ k t. read_params rounds sdid k t)
            else fail invalid_format)
          (param_text (name, val) tail)
          n
  param-Reads sdid m rounds name val tail w e r = bind-Reads _ _ (read_field-Reads b'=' name w) (
      bind-Reads _ _ (read_byte-Reads b'"')
        (bind-Reads _ _ (read_quoted-Reads val) (bind-Reads _ _ (lift-Reads _ e) r)))

  pure_at-Reads :
      {m n : Message T} → ◌≡◌ {A = Result Panic (Message T)} (ok m) (ok n) → Reads (pure m) [] n
  pure_at-Reads {m} {n} e = let same_message : m ≡ n = cc in rw same_message (pure-Reads n)

  more-Reads :
      (sdid : Text) (m : Message T) (ps : List (Text × Text)) (rounds : ℕ) {n : Message T}
      → All (λ p. IsName p.0) ps
      → length ps < rounds
      → add_params sdid m ps ≡ ok n
      → Reads (read_params rounds sdid m) (more_text ps) n
  unfolding read_params same
  more-Reads sdid m [] zero h l e = absurd (omega arith)
  more-Reads sdid m [] (suc rounds) {n} h l e =
      peek_one-Reads _ b']' (bind-Reads _ _ (read_byte-Reads b']') (pure_at-Reads e))
  more-Reads sdid m (p ∷ ps) zero h l e = absurd (omega arith)
  more-Reads sdid m (([], val) ∷ ps) (suc rounds) (h, hs) l e = absurd h
  more-Reads sdid m ((c ∷ name, val) ∷ ps) (suc rounds) (h, hs) l e =
      elim (Result-cases (add_string m (sdid ++ codes "." ++ (c ∷ name)) val)) [
        | inr (x, failed) ↦ absurd (ground arith)
        | inl (m', added_one) ↦
            let rest =
              more-Reads sdid m' ps rounds hs (omega arith) (rw (added_one, add_params) at e) in
            peek_one-Reads _ b' ' (
              bind-Reads _ _ (bind-Reads _ _ (read_byte-Reads b' ') (pure-Reads tt))
                (param-Reads sdid m rounds (c ∷ name) val (more_text ps) h.2 added_one rest))
      ]

  first-Reads :
      (sdid : Text) (m : Message T) (ps : List (Text × Text)) (rounds : ℕ) {n : Message T}
      → All (λ p. IsName p.0) ps
      → length ps < rounds
      → add_params sdid m ps ≡ ok n
      → Reads (read_params rounds sdid m) (params_text ps) n
  unfolding read_params same
  first-Reads sdid m [] rounds h l e = more-Reads sdid m [] rounds h l e
  first-Reads sdid m (p ∷ ps) zero h l e = absurd (omega arith)
  first-Reads sdid m (([], val) ∷ ps) (suc rounds) (h, hs) l e = absurd h
  first-Reads sdid m ((c ∷ name, val) ∷ ps) (suc rounds) (h, hs) l e =
      elim (Result-cases (add_string m (sdid ++ codes "." ++ (c ∷ name)) val)) [
        | inr (x, failed) ↦ absurd (ground arith)
        | inl (m', added_one) ↦
            let rest =
              more-Reads sdid m' ps rounds hs (omega arith) (rw (added_one, add_params) at e) in
            peek_one-Reads _ c (
              if_false-Reads (same (c ∷ []) (codes "]")) (read_byte >>= λ _. pure m) _
                (ground arith)
                (bind-Reads _ _
                  (if_false-Reads (same (c ∷ []) (codes " ")) (read_byte >>= λ _. pure tt) _
                    (ground arith) (pure-Reads tt))
                  (param-Reads sdid m rounds (c ∷ name) val (more_text ps) h.2 added_one rest)))
      ]

  element-Reads :
      (sdid : Text) (m : Message T) (ps : List (Text × Text)) {n : Message T}
      → Without b' ' sdid
      → All (λ p. IsName p.0) ps
      → add_params sdid m ps ≡ ok n
      → Reads (read_element m) ((b'[' ∷ (sdid ++ codes " ")) ++ params_text ps) n
  unfolding read_element
  element-Reads sdid m ps {n} w h e =
      bind-Reads _ _ (read_string-Reads b' ' (b'[' ∷ sdid) (λ q. absurd (omega arith), w)) (
        bind-Reads _ _ {t1 = []} (lift-Reads _ {a = sdid} (slice_name sdid)) (record {
          reads = λ rest u.
              (first-Reads sdid m ps (suc (length (params_text ps ++ rest))) h
                  (omega (arith, params_text-length ps, length-append (params_text ps) rest))
                  e).reads
                rest u;
        }))

  -- The parameters of an element, each with its value in quotes and escaped, are read to the attributes
  -- that they stand for, in their order and named after the element; what stands behind the bracket is
  -- left.
  pub read_structured-params :
      (sdid : Text) (m n : Message T) (ps : List (Text × Text)) (rest : List ℕ) (u : ℕ)
      → Without b' ' sdid
      → All (λ p. IsName p.0) ps
      → add_params sdid m ps ≡ ok n
      → (v : ℕ) × (read_structured m (record {
        r = ((codes "[" ++ (sdid ++ codes " ")) ++ params_text ps) ++ rest;
        used = u;
      })
          ≡ ok (n, record { r = rest; used = v }))
  unfolding read_structured same
  read_structured-params sdid m n ps rest u w h e =
      (peek_one-Reads _ b'[' (element-Reads sdid m ps w h e)).reads rest u

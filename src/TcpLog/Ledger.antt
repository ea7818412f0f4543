-- ===== src/TcpLog/Ledger.antt =====
-- What becomes of the lines that are handed to the logger: each one is passed on, or counted as dropped, or
-- told about in a report.
use cypress.Base.{
  ℕ, suc, ◌+◌, ◌≤◌, ◌<◌, ◌≡◌, refl, ap, List, [], ◌∷◌, ◌++◌, length, arith, append-nil,
}
use cypress.Base.Text.{Text}

-- What has happened, in order: a line was passed on, a line was dropped, or the dropping of so many
-- lines was reported.
pub data Entry : Type 0 where
  line : Text → Entry
  lost : Text → Entry
  report : ℕ → Entry

-- The lines that were handed over.
abbrev pub handed_of : List Entry → List Text
handed_of [] = []
handed_of (line t ∷ es) = t ∷ handed_of es
handed_of (lost t ∷ es) = t ∷ handed_of es
handed_of (report n ∷ es) = handed_of es

-- What was passed on.
abbrev pub passed_of : (ℕ → Text) → List Entry → List Text
passed_of report_text [] = []
passed_of report_text (line t ∷ es) = t ∷ passed_of report_text es
passed_of report_text (lost t ∷ es) = passed_of report_text es
passed_of report_text (report n ∷ es) = report_text n ∷ passed_of report_text es

-- The lines dropped since the last report, where `count` of them were dropped before; a report
-- tells of just so many, and of one at least.
pub data Counting : ℕ → List Entry → ℕ → Type 0 where
  ends : (count : ℕ) → Counting count [] count
  passes :
      {count n : ℕ} {es : List Entry} (t : Text)
      → Counting count es n
      → Counting count (line t ∷ es) n
  loses :
      {count n : ℕ} {es : List Entry} (t : Text)
      → Counting (suc count) es n
      → Counting count (lost t ∷ es) n
  tells :
      {count n : ℕ} {es : List Entry}
      → 0 < count
      → Counting 0 es n
      → Counting count (report count ∷ es) n

-- One history explains what was passed on, the lines that were handed over, and the count.
pub record Accounts (report_text : ℕ → Text) (passed : List Text) (count : ℕ) (handed : List Text)
    : Type 0 where
  pub entries : List Entry
  pub shown : passed ≡ passed_of report_text entries
  pub complete : handed ≡ handed_of entries
  pub counted : Counting 0 entries count

handed_of-append : (xs ys : List Entry) → handed_of (xs ++ ys) ≡ handed_of xs ++ handed_of ys
handed_of-append [] ys = refl
handed_of-append (line t ∷ xs) ys = ap (λ (l : List Text). t ∷ l) (handed_of-append xs ys)
handed_of-append (lost t ∷ xs) ys = ap (λ (l : List Text). t ∷ l) (handed_of-append xs ys)
handed_of-append (report n ∷ xs) ys = handed_of-append xs ys

Counting-append :
    {count n k : ℕ} {es ds : List Entry}
    → Counting count es n
    → Counting n ds k
    → Counting count (es ++ ds) k
Counting-append (ends count) c = c
Counting-append (passes t b) c = Counting.passes t (Counting-append b c)
Counting-append (loses t b) c = Counting.loses t (Counting-append b c)
Counting-append (tells o b) c = Counting.tells o (Counting-append b c)

Counting-le :
    {count n : ℕ} {es : List Entry} → Counting count es n → n ≤ count + length (handed_of es)
Counting-le (ends count) = omega arith
Counting-le (passes t b) = let i = Counting-le b in omega (arith, i)
Counting-le (loses t b) = let i = Counting-le b in omega (arith, i)
Counting-le (tells o b) = let i = Counting-le b in omega (arith, i)

module _ (report_text : ℕ → Text) where
  passed_of-append :
      (xs ys : List Entry)
      → passed_of report_text (xs ++ ys) ≡ passed_of report_text xs ++ passed_of report_text ys
  passed_of-append [] ys = refl
  passed_of-append (line t ∷ xs) ys = ap (λ (l : List Text). t ∷ l) (passed_of-append xs ys)
  passed_of-append (lost t ∷ xs) ys = passed_of-append xs ys
  passed_of-append (report n ∷ xs) ys =
      ap (λ (l : List Text). report_text n ∷ l) (passed_of-append xs ys)

  -- One more entry of the history.
  enter :
      (passed : List Text) (count n : ℕ) (handed : List Text) (e : Entry)
      → Accounts report_text passed count handed
      → Counting count (e ∷ []) n
      → Accounts report_text
          (passed ++ passed_of report_text (e ∷ []))
          n
          (handed ++ handed_of (e ∷ []))
  enter passed count n handed e a c = record {
    entries = a.entries ++ e ∷ [];
    shown = rw (passed_of-append a.entries (e ∷ []), a.shown) refl;
    complete = rw (handed_of-append a.entries (e ∷ []), a.complete) refl;
    counted = Counting-append a.counted c;
  }

  pub line-Accounts :
      (passed : List Text) (count : ℕ) (handed : List Text) (t : Text)
      → Accounts report_text passed count handed
      → Accounts report_text (passed ++ t ∷ []) count (handed ++ t ∷ [])
  line-Accounts passed count handed t a =
      enter passed count count handed (line t) a (Counting.passes t (Counting.ends count))

  -- A report takes the count over.
  pub report-Accounts :
      (passed : List Text) (count : ℕ) (handed : List Text)
      → 0 < count
      → Accounts report_text passed count handed
      → Accounts report_text (passed ++ report_text count ∷ []) 0 handed
  report-Accounts passed count handed h a =
      let b = enter passed count 0 handed (report count) a (Counting.tells h (Counting.ends 0)) in
      rw (append-nil handed) at b

  pub drop-Accounts :
      (passed : List Text) (count : ℕ) (handed : List Text) (t : Text)
      → Accounts report_text passed count handed
      → Accounts report_text passed (suc count) (handed ++ t ∷ [])
  drop-Accounts passed count handed t a =
      let b =
        enter passed count (suc count) handed (lost t) a
          (Counting.loses t (Counting.ends (suc count))) in
      rw (append-nil passed) at b

  pub count_le :
      (passed : List Text) (count : ℕ) (handed : List Text)
      → Accounts report_text passed count handed
      → count ≤ length handed
  count_le passed count handed a = let l = Counting-le a.counted in rw a.complete (omega (arith, l))

  pub new-Accounts : Accounts report_text [] 0 []
  new-Accounts = record { entries = []; shown = refl; complete = refl; counted = Counting.ends 0 }

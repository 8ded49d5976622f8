-- ===== src/Wal/Lines.antt =====
-- internal/wal/wal.go: how the scanner of `scanLocked` reads a file that something is appended to.
use grael.Prelude.{
  ℕ, zero, suc, ◌≤◌, ◌≡◌, refl, ap, inl, inr, Bool, true, false, ◌&&◌, not, List, [], ◌∷◌, ◌++◌,
  nat_eq, leb, if◌then◌else◌, Bool-cases, Option-cases, arith,
}
use grael.Prelude.Lists.{all, length}
use grael.Runtime.{Event}
use grael.Wal.{Bytes, Format}
use grael.Wal.Store.{take}
use grael.Wal.Scan.{
  push, split_lines, drop_cr, Scanned, whole, corrupt_tail, unreadable, prepend,
  max_scan_token_size, read_line, scan_lines,
}

-- The file is empty or ends with a newline.
unfoldable pub ends_line : Bytes → Bool
ends_line [] = true
ends_line (b ∷ []) = nat_eq b 10
ends_line (b ∷ c ∷ bs) = ends_line (c ∷ bs)

-- Neither a newline nor a carriage return.
abbrev pub is_plain : ℕ → Bool
is_plain b = not (nat_eq b 10) && not (nat_eq b 13)

split_lines_cons :
    (b : ℕ) (bs : Bytes)
    → split_lines (b ∷ bs) ≡ (if nat_eq b 10 then [] ∷ split_lines bs else push b (split_lines bs))
unfolding split_lines
split_lines_cons b bs = refl

push_cons : (b : ℕ) (lines : List Bytes) → (l : Bytes) × (ls : List Bytes) × (push b lines ≡ l ∷ ls)
push_cons b [] = (b ∷ [], [], refl)
push_cons b (line ∷ lines) = (b ∷ line, lines, refl)

-- A file that is not empty has a line.
split_lines_some :
    (b : ℕ) (bs : Bytes) → (l : Bytes) × (ls : List Bytes) × (split_lines (b ∷ bs) ≡ l ∷ ls)
split_lines_some b bs = elim (Bool-cases (nat_eq b 10)) [
  | inl e ↦ ([], split_lines bs, rw (split_lines_cons, e))
  | inr e ↦
      let (l, ls, shape) = push_cons b (split_lines bs) in (l, ls, rw (split_lines_cons, e, shape))
]

-- After the end of a line, the lines of what follows are added.
pub split_lines-append :
    (bytes more : Bytes)
    → ends_line bytes ≡ true
    → split_lines (bytes ++ more) ≡ split_lines bytes ++ split_lines more
unfolding ends_line split_lines
split_lines-append [] more ends = refl
split_lines-append (b ∷ []) more ends = rw (split_lines_cons, ends)
split_lines-append (b ∷ c ∷ bs) more ends =
    let ih = split_lines-append (c ∷ bs) more ends in
    let (l, ls, shape) = split_lines_some c bs in
    elim (Bool-cases (nat_eq b 10)) [
      | inl e ↦ rw (split_lines_cons b, e, ih)
      | inr e ↦ rw (split_lines_cons b, e, ih, shape)
    ]

-- Plain bytes and a newline are one line.
pub split_lines-line :
    (line : Bytes) → all is_plain line ≡ true → split_lines (line ++ 10 ∷ []) ≡ line ∷ []
unfolding split_lines
split_lines-line [] plain = rw split_lines_cons
split_lines-line (b ∷ bs) plain =
    let ih = split_lines-line bs (ground arith) in
    let inside : nat_eq b 10 ≡ false = ground arith in rw (split_lines_cons b, ih, inside)

-- Plain bytes at the end of a file are a line, if there are any.
pub split_lines-rest :
    (b : ℕ) (bs : Bytes) → all is_plain (b ∷ bs) ≡ true → split_lines (b ∷ bs) ≡ (b ∷ bs) ∷ []
unfolding split_lines
split_lines-rest b [] plain =
    let inside : nat_eq b 10 ≡ false = ground arith in rw (split_lines_cons b, inside)
split_lines-rest b (c ∷ bs) plain =
    let ih = split_lines-rest c bs (ground arith) in
    let inside : nat_eq b 10 ≡ false = ground arith in rw (split_lines_cons b, ih, inside)

pub ends_line-append : (bytes line : Bytes) → ends_line (bytes ++ (line ++ 10 ∷ [])) ≡ true
unfolding ends_line
ends_line-append [] [] = refl
ends_line-append [] (b ∷ []) = refl
ends_line-append [] (b ∷ c ∷ bs) = ends_line-append [] (c ∷ bs)
ends_line-append (b ∷ []) [] = refl
ends_line-append (b ∷ []) (c ∷ bs) = ends_line-append [] (c ∷ bs)
ends_line-append (b ∷ c ∷ bs) line = ends_line-append (c ∷ bs) line

pub drop_cr-plain : (line : Bytes) → all is_plain line ≡ true → drop_cr line ≡ line
unfolding drop_cr
drop_cr-plain [] plain = refl
drop_cr-plain (b ∷ []) plain = ground arith
drop_cr-plain (b ∷ c ∷ bs) plain = ap (λ rest. b ∷ rest) (drop_cr-plain (c ∷ bs) (ground arith))

pub length-take-le : (n : ℕ) (bytes : Bytes) → length (take n bytes) ≤ length bytes
length-take-le zero bytes = omega arith
length-take-le (suc n) [] = omega arith
length-take-le (suc n) (b ∷ bs) = omega (arith, length-take-le n bs)

pub take-plain :
    (n : ℕ) (bytes : Bytes) → all is_plain bytes ≡ true → all is_plain (take n bytes) ≡ true
take-plain zero bytes plain = refl
take-plain (suc n) [] plain = refl
take-plain (suc n) (b ∷ bs) plain = ground (arith, take-plain n bs (ground arith))

-- A part of a text that does not reach its last byte.
pub take-append :
    (n : ℕ) (bytes : Bytes) (last : ℕ)
    → n ≤ length bytes
    → take n (bytes ++ last ∷ []) ≡ take n bytes
take-append zero bytes last within = refl
take-append (suc n) [] last within = absurd (omega arith)
take-append (suc n) (b ∷ bs) last within =
    ap (λ rest. b ∷ rest) (take-append n bs last (omega arith))

pub take-length : (bytes : Bytes) → take (length bytes) bytes ≡ bytes
take-length [] = refl
take-length (b ∷ bs) = ap (λ rest. b ∷ rest) (take-length bs)

-- What is read in front of what is read after it.
abbrev pub then_scan : Scanned → Scanned → Scanned
then_scan (whole []) after = after
then_scan (whole (event ∷ events)) after = prepend event (then_scan (whole events) after)
then_scan (corrupt_tail events) after = corrupt_tail events
then_scan (unreadable e) after = unreadable e

then_scan-prepend :
    (event : Event) (before after : Scanned)
    → then_scan (prepend event before) after ≡ prepend event (then_scan before after)
then_scan-prepend event (whole events) after = refl
then_scan-prepend event (corrupt_tail events) after = refl
then_scan-prepend event (unreadable e) after = refl

pub then_scan-whole :
    (events more : List Event) → then_scan (whole events) (whole more) ≡ whole (events ++ more)
then_scan-whole [] more = refl
then_scan-whole (event ∷ events) more = rw (then_scan-whole events more)

pub then_scan-corrupt :
    (events : List Event) → then_scan (whole events) (corrupt_tail []) ≡ corrupt_tail events
then_scan-corrupt [] = refl
then_scan-corrupt (event ∷ events) = rw (then_scan-corrupt events)

module _ (format : Format) where
  -- The scan goes on at the lines that are added, unless it has stopped.
  pub scan_lines-append :
      (lines more : List Bytes)
      → scan_lines format (lines ++ more)
        ≡ then_scan (scan_lines format lines) (scan_lines format more)
  unfolding scan_lines
  scan_lines-append [] more = refl
  scan_lines-append (line ∷ lines) more =
      let ih = scan_lines-append lines more in
      elim (Bool-cases (leb max_scan_token_size (length line))) [
        | inl e ↦ rw e
        | inr e ↦ elim (Bool-cases (format.is_blank (drop_cr line))) [
          | inl blank ↦ rw (e, blank, ih)
          | inr text ↦ elim (Option-cases (read_line format (drop_cr line))) [
            | inl none_read ↦ rw (e, text, none_read)
            | inr (event, read) ↦ rw (e, text, read, ih, then_scan-prepend)
          ]
        ]
      ]

-- ===== src/Delimiter/Records.antt =====
-- lib/sql/occi/cUnloader.cpp and lib/cDelimiter.cpp: the records of a data file, each behind its length
-- of a fixed number of digits, and their reading.
use xtru.Common.{
  ◌==◌, if◌then◌else◌, Bytes, length, take, drop, replicate, concat, All, length-append,
  length-replicate, take-append_length, drop-append_length, ℕ, zero, suc, ◌+◌, ◌-◌, ◌^◌, ◌≤◌, ◌<◌,
  ◌≡◌, refl, sym, ap, ◌∙◌, List, [], ◌∷◌, ◌++◌, map, append-nil, append_assoc, arith,
}
use xtru.Common.Decimal.{decimal, number_behind, number-decimal, length-decimal-le}
use xtru.Delimiter.Fields.{Delimiter, finish_row, length_string, put_rows}

-- The records of a file, as a reader of the format finds them; `n` bounds their number.
unfoldable pub read_records : ℕ → ℕ → Bytes → List Bytes
unfolding number_behind
read_records zero k file = []
read_records (suc n) k [] = []
read_records (suc n) k (c ∷ s) =
    let body = number_behind 0 (take k (c ∷ s)) in
    let rest = drop k (c ∷ s) in take body rest ∷ read_records n k (drop body rest)

frame : Delimiter → Bytes → Bytes
unfolding finish_row length_string
frame d r = length_string d (finish_row d r) ++ finish_row d r

put_rows-frames :
    (d : Delimiter) (rows : List Bytes) (file : Bytes) (total : ℕ)
    → put_rows d rows (file, total)
      ≡ (file ++ concat (map (frame d) rows), total + length (concat (map (frame d) rows)))
unfolding put_rows frame
put_rows-frames d [] file total = rw (append-nil file) (ap (λ n. (file, n)) (omega arith))
put_rows-frames d (r ∷ rows) file total =
    let f = length_string d (finish_row d r) ++ finish_row d r in
    let l = length_string d (finish_row d r) in
    put_rows-frames d rows (file ++ f) (total + (length l + length (finish_row d r)))
    ∙ ap
        (λ b.
          (b, total + (length l + length (finish_row d r)) + length (concat (map (frame d) rows))))
        (append_assoc file f (concat (map (frame d) rows)))
    ∙ ap (λ n. (file ++ (f ++ concat (map (frame d) rows)), n))
        (omega
          (arith, length-append f (concat (map (frame d) rows)), length-append l (finish_row d r)))

number_zeros : (n : ℕ) (s : Bytes) → number_behind 0 (replicate n b'0' ++ s) ≡ number_behind 0 s
unfolding number_behind
number_zeros zero s = refl
number_zeros (suc n) s = number_zeros n s

positive_digits : (k : ℕ) (x y : Bytes) → (if suc k == 0 then x else y) ≡ y
positive_digits k x y = ground arith

length_string_padded :
    (d : Delimiter) (k : ℕ) (body : Bytes)
    → d.var_digit ≡ suc k
    → length_string d body
      ≡ replicate (suc k - length (decimal (length body))) b'0' ++ decimal (length body)
unfolding length_string
length_string_padded d k body e =
    let digits = decimal (length body) in
    ap (λ n. if n == 0 then [] else replicate (n - length digits) b'0' ++ digits) e
    ∙ positive_digits k [] (replicate (suc k - length digits) b'0' ++ digits)

padded-length :
    (m : ℕ) (digits : Bytes)
    → length digits ≤ m
    → length (replicate (m - length digits) b'0' ++ digits) ≡ m
padded-length m digits h =
    let zeros : Bytes = replicate (m - length digits) b'0' in
    omega (arith, length-append zeros digits, length-replicate {A = ℕ} (m - length digits) b'0')

length_string-length :
    (d : Delimiter) (k : ℕ) (body : Bytes)
    → d.var_digit ≡ suc k
    → length body < 10 ^ suc k
    → length (length_string d body) ≡ suc k
length_string-length d k body e h =
    ap length (length_string_padded d k body e)
    ∙ padded-length (suc k) (decimal (length body)) (length-decimal-le k (length body) h)

length_string-number :
    (d : Delimiter) (k : ℕ) (body : Bytes)
    → d.var_digit ≡ suc k
    → number_behind 0 (length_string d body) ≡ length body
length_string-number d k body e =
    let digits = decimal (length body) in
    ap (number_behind 0) (length_string_padded d k body e)
    ∙ number_zeros (suc k - length digits) digits
    ∙ number-decimal (length body)

read_one :
    (n k : ℕ) (file : Bytes)
    → 0 < length file
    → read_records (suc n) k file
      ≡ take (number_behind 0 (take k file)) (drop k file)
        ∷ read_records n k (drop (number_behind 0 (take k file)) (drop k file))
unfolding read_records
read_one n k [] h = absurd (omega arith)
read_one n k (c ∷ s) h = refl

read_framed :
    (n k : ℕ) (head body rest : Bytes)
    → length head ≡ suc k
    → number_behind 0 head ≡ length body
    → read_records (suc n) (suc k) (head ++ (body ++ rest)) ≡ body ∷ read_records n (suc k) rest
read_framed n k head body rest el en =
    let file = head ++ (body ++ rest) in
    let e1 = ap (λ m. take m file) (sym el) ∙ take-append_length head (body ++ rest) in
    let e2 = ap (λ m. drop m file) (sym el) ∙ drop-append_length head (body ++ rest) in
    read_one n (suc k) file (omega (arith, length-append head (body ++ rest)))
    ∙ rw (e1, e2, en, take-append_length body rest, drop-append_length body rest) refl

read_nothing : (n k : ℕ) → read_records n k [] ≡ []
unfolding read_records
read_nothing zero k = refl
read_nothing (suc n) k = refl

read_frames :
    (d : Delimiter) (k n : ℕ) (rows : List Bytes)
    → d.var_digit ≡ suc k
    → All (λ r. length (finish_row d r) < 10 ^ suc k) rows
    → length rows ≤ n
    → read_records n (suc k) (concat (map (frame d) rows)) ≡ map (finish_row d) rows
unfolding frame
read_frames d k n [] e h le = read_nothing n (suc k)
read_frames d k zero (r ∷ rows) e h le = absurd (omega arith)
read_frames d k (suc n) (r ∷ rows) e h le =
    let body = finish_row d r in
    ap (read_records (suc n) (suc k))
      (append_assoc (length_string d body) body (concat (map (frame d) rows)))
    ∙ read_framed n k (length_string d body) body (concat (map (frame d) rows))
        (length_string-length d k body e h.0) (length_string-number d k body e)
    ∙ ap (◌∷◌ body) (read_frames d k n rows e h.1 (omega arith))

-- With a length of at least one digit, and rows whose finished length has at most that many digits, the
-- reader of the format finds in what `put_rows` writes to an empty file exactly the finished rows.
pub put_rows-read :
    (d : Delimiter) (k n : ℕ) (rows : List Bytes)
    → d.var_digit ≡ suc k
    → All (λ r. length (finish_row d r) < 10 ^ suc k) rows
    → length rows ≤ n
    → read_records n (suc k) (put_rows d rows ([], 0)).0 ≡ map (finish_row d) rows
put_rows-read d k n rows e h le =
    ap (λ s. read_records n (suc k) s.0) (put_rows-frames d rows [] 0)
    ∙ read_frames d k n rows e h le

-- What `put_rows` adds to the count of bytes is what it adds to the length of the file.
put_rows-count :
    (d : Delimiter) (rows : List Bytes) (file : Bytes)
    → (put_rows d rows (file, length file)).1 ≡ length (put_rows d rows (file, length file)).0
put_rows-count d rows file =
    let frames = concat (map (frame d) rows) in
    ap (λ s. s.1) (put_rows-frames d rows file (length file))
    ∙ sym (length-append file frames)
    ∙ ap (λ s. length s.0) (sym (put_rows-frames d rows file (length file)))

-- ===== src/Fetch/Counts.antt =====
-- lib/sql/occi/cStmt.cpp and lib/sql/occi/cUnloader.cpp: what is counted is what is written.
use xtru.Common.{
  ltb, if◌then◌else◌, Bool-cases, Bytes, length, concat, length-append, Error, err, ok, ℕ, zero,
  suc, ◌+◌, ◌%◌, ◌^◌, ◌<◌, ◌≡◌, refl, sym, ap, ◌∙◌, subst, inl, inr, Bool, true, false, Option,
  none, some, List, [], ◌∷◌, ◌++◌, map, append-nil, append_assoc, arith,
}
use xtru.Fetch.Loop.{
  Interval, feedback_due, next_after, Ended, add_output, Bulk, more, last, failure, Progress,
  Counter, post_bulk_action, pre_repeat_action, after_fetch, fetch_loop, execute_and_fetch,
}

-- The counters are within their widths.
abbrev Bounded : Counter × Progress → Type 0
Bounded (c, p) = (c.rows < 2 ^ 64) × (p.total_rows < 2 ^ 32) × (p.total_bytes < 2 ^ 64)

-- The rows are written and counted, by the statement and by the unloader.
abbrev pub Adds : List Bytes → Counter × Progress → Counter × Progress → Type 0
Adds rows (c, p) (c', p') =
    (c'.rows ≡ (c.rows + length rows) % 2 ^ 64)
    × (p'.file ≡ p.file ++ concat rows)
    × (p'.total_rows ≡ (p.total_rows + length rows) % 2 ^ 32)
    × (p'.total_bytes ≡ (p.total_bytes + length (concat rows)) % 2 ^ 64)

Adds-Bounded : (rows : List Bytes) (s s' : Counter × Progress) → Adds rows s s' → Bounded s'
Adds-Bounded rows (c, p) (c', p') (h0, h1, h2, h3) =
    (omega (arith, h0), omega (arith, h2), omega (arith, h3))

concat-append : (xs ys : List Bytes) → concat (xs ++ ys) ≡ concat xs ++ concat ys
concat-append [] ys = refl
concat-append (x ∷ xs) ys =
    ap (λ s. x ++ s) (concat-append xs ys) ∙ sym (append_assoc x (concat xs) (concat ys))

after_fetch-Adds :
    (interval : Interval) (rows : List Bytes) (c : Counter) (p : Progress)
    → Bounded (c, p)
    → Adds rows (c, p) (after_fetch interval rows (c, p))
unfolding after_fetch post_bulk_action add_output
after_fetch-Adds interval [] c p (b0, b1, b2) =
    (omega arith, sym (append-nil p.file), omega arith, omega arith)
after_fetch-Adds interval (r ∷ rs) c p b =
    elim (Bool-cases
      (feedback_due interval c.next_feedback ((c.rows + length (r ∷ rs)) % 2 ^ 64))) [
        | inl h ↦ rw h (refl, refl, refl, refl)
        | inr h ↦ rw h (refl, refl, refl, refl)
      ]

Adds-append :
    (xs ys : List Bytes) (a b c : Counter × Progress)
    → Adds xs a b
    → Adds ys b c
    → Adds (xs ++ ys) a c
Adds-append xs ys a b c (h0, h1, h2, h3) (k0, k1, k2, k3) = (
  omega (arith, h0, k0, length-append xs ys),
  k1
      ∙ ap (λ f. f ++ concat ys) h1
      ∙ append_assoc a.1.file (concat xs) (concat ys)
      ∙ ap (λ s. a.1.file ++ s) (sym (concat-append xs ys)),
  omega (arith, h2, k2, length-append xs ys),
  omega (arith, h3, k3, ap length (concat-append xs ys), length-append (concat xs) (concat ys)),
)

fetch_loop-more :
    (interval : Interval) (n : ℕ) (rows : List Bytes) (bulks : List Bulk) (s : Counter × Progress)
    → fetch_loop interval (suc n) (more rows ∷ bulks) s
      ≡ fetch_loop interval n bulks (after_fetch interval rows s)
unfolding fetch_loop
fetch_loop-more interval n rows bulks s = refl

fetch_loop-Adds :
    (interval : Interval) (n : ℕ) (bulks : List (List Bytes)) (rows : List Bytes)
    (s : Counter × Progress)
    → length bulks < n
    → Bounded s
    → (s' : Counter × Progress) × (fetch_loop interval n (map more bulks ++ last rows ∷ []) s
        ≡ some (ok s'.0.rows, s'.1))
      × Adds (concat bulks ++ rows) s s'
fetch_loop-Adds interval zero bulks rows s h w = absurd (omega arith)
fetch_loop-Adds interval (suc n) [] rows (c, p) h w = (
  after_fetch interval rows (c, p),
  unfold fetch_loop in refl,
  after_fetch-Adds interval rows c p w,
)
fetch_loop-Adds interval (suc n) (b ∷ bulks) rows (c, p) h w =
    let mid = after_fetch interval b (c, p) in
    let first = after_fetch-Adds interval b c p w in
    let (s', e, a) =
      fetch_loop-Adds interval n bulks rows mid (omega arith) (Adds-Bounded b (c, p) mid first) in
    (
      s',
      fetch_loop-more interval n b (map more bulks ++ last rows ∷ []) (c, p) ∙ e,
      subst (λ r. Adds r (c, p) s') (sym (append_assoc b (concat bulks) rows))
          (Adds-append b (concat bulks ++ rows) (c, p) mid s' first a),
    )

fetch_loop-failure :
    (interval : Interval) (n : ℕ) (bulks : List (List Bytes)) (e : Error) (rest : List Bulk)
    (s : Counter × Progress)
    → length bulks < n
    → Bounded s
    → (s' : Counter × Progress) × (fetch_loop interval n (map more bulks ++ failure e ∷ rest) s
        ≡ some (err e, s'.1))
      × Adds (concat bulks) s s'
fetch_loop-failure interval zero bulks e rest s h w = absurd (omega arith)
fetch_loop-failure interval (suc n) [] e rest (c, p) h (b0, b1, b2) = (
  (c, p),
  unfold fetch_loop in refl,
  (omega arith, sym (append-nil p.file), omega arith, omega arith),
)
fetch_loop-failure interval (suc n) (b ∷ bulks) e rest (c, p) h w =
    let mid = after_fetch interval b (c, p) in
    let first = after_fetch-Adds interval b c p w in
    let (s', q, a) =
      fetch_loop-failure interval n bulks e rest mid (omega arith)
        (Adds-Bounded b (c, p) mid first) in
    (
      s',
      fetch_loop-more interval n b (map more bulks ++ failure e ∷ rest) (c, p) ∙ q,
      Adds-append b (concat bulks) (c, p) mid s' first a,
    )

fresh : Interval → Counter
fresh interval = record { rows = 0; next_feedback = next_after interval 0 }

ended : Option Error → ℕ → Progress → Ended
ended thrown n p = record { thrown = thrown; num_rows = n; post_repeat = ltb 0 n; unloader = p }

fetch_ok :
    (interval : Interval) (n k : ℕ) (bulks : List Bulk) (embed : Bool) (header : Bytes)
    (p q : Progress)
    → fetch_loop interval n bulks (fresh interval, pre_repeat_action embed header p)
      ≡ some (ok k, q)
    → execute_and_fetch embed header interval n bulks p ≡ some (ended none (k % 2 ^ 32) q)
unfolding execute_and_fetch fresh ended
fetch_ok interval n k bulks embed header p q h = rw h refl

fetch_err :
    (interval : Interval) (n : ℕ) (e : Error) (bulks : List Bulk) (embed : Bool) (header : Bytes)
    (p q : Progress)
    → fetch_loop interval n bulks (fresh interval, pre_repeat_action embed header p)
      ≡ some (err e, q)
    → execute_and_fetch embed header interval n bulks p ≡ some (ended (some e) 0 q)
unfolding execute_and_fetch fresh ended
fetch_err interval n e bulks embed header p q h = rw h refl

-- What the unloader has written and counted, in the widths of its counters: the header, if it is
-- embedded, as one row, and the rows.
abbrev pub Wrote : Bool → Bytes → List Bytes → Progress → Progress → Type 0
Wrote embed header rows p p' =
    (p'.file ≡ p.file ++ ((if embed then header else []) ++ concat rows))
    × (p'.total_rows ≡ (p.total_rows + (if embed then 1 else 0) + length rows) % 2 ^ 32)
    × (p'.total_bytes
        ≡ (p.total_bytes + length ((if embed then header else []) ++ concat rows)) % 2 ^ 64)

Wrote-Adds :
    (embed : Bool) (header : Bytes) (rows : List Bytes) (p p' : Progress) (c c' : Counter)
    → Adds rows (c, pre_repeat_action embed header p) (c', p')
    → Wrote embed header rows p p'
unfolding pre_repeat_action add_output
Wrote-Adds true header rows p p' c c' (h0, h1, h2, h3) = (
  h1 ∙ append_assoc p.file header (concat rows),
  omega (arith, h2),
  omega (arith, h3, length-append header (concat rows)),
)
Wrote-Adds false header rows p p' c c' (h0, h1, h2, h3) = (h1, omega (arith, h2), h3)

pre_repeat_action-Bounded :
    (embed : Bool) (header : Bytes) (p : Progress) (interval : Interval)
    → p.total_rows < 2 ^ 32
    → p.total_bytes < 2 ^ 64
    → Bounded (fresh interval, pre_repeat_action embed header p)
unfolding pre_repeat_action add_output fresh
pre_repeat_action-Bounded true header p interval hr hb = (omega arith, omega arith, omega arith)
pre_repeat_action-Bounded false header p interval hr hb = (omega arith, hr, hb)

-- What the end of the call says: nothing thrown, and the number of rows in 32 bits after 64, with which the
-- action at the end is chosen.
abbrev pub EndsWith : Option Error → ℕ → Ended → Type 0
EndsWith thrown n r =
    (r.thrown ≡ thrown) × (r.num_rows ≡ n % 2 ^ 32) × (r.post_repeat ≡ ltb 0 (n % 2 ^ 32))

-- When the bulks come to their end before the process is to stop, the unloader throws nothing, reports the
-- number of their rows modulo 2^32 and chooses by it whether rows were found, has written the header, if
-- column names are embedded, and then all rows in order, and has counted the rows, the header as one of
-- them, modulo 2^32 and the bytes written modulo 2^64.
pub execute_and_fetch-Wrote :
    (embed : Bool) (header : Bytes) (interval : Interval) (n : ℕ) (bulks : List (List Bytes))
    (rows : List Bytes) (p : Progress)
    → length bulks < n
    → p.total_rows < 2 ^ 32
    → p.total_bytes < 2 ^ 64
    → (r : Ended) × (execute_and_fetch embed header interval n (map more bulks ++ last rows ∷ []) p
        ≡ some r)
      × EndsWith none (length (concat bulks ++ rows)) r
      × Wrote embed header (concat bulks ++ rows) p r.unloader
unfolding fresh ended
execute_and_fetch-Wrote embed header interval n bulks rows p h hr hb =
    let p0 = pre_repeat_action embed header p in
    let (s', e, a) =
      fetch_loop-Adds interval n bulks rows (fresh interval, p0) h
        (pre_repeat_action-Bounded embed header p interval hr hb) in
    let counted : s'.0.rows % 2 ^ 32 ≡ length (concat bulks ++ rows) % 2 ^ 32 =
      omega (arith, a.0) in
    (
      ended none (s'.0.rows % 2 ^ 32) s'.1,
      fetch_ok interval n s'.0.rows (map more bulks ++ last rows ∷ []) embed header p s'.1 e,
      (refl, counted, ap (ltb 0) counted),
      Wrote-Adds embed header (concat bulks ++ rows) p s'.1 (fresh interval) s'.0 a,
    )

-- When an exception comes after some bulks, it is thrown at the end, no row is reported as found, and the
-- header and the rows of those bulks are written, and counted in the widths of the counters.
pub execute_and_fetch-failure :
    (embed : Bool) (header : Bytes) (interval : Interval) (n : ℕ) (bulks : List (List Bytes))
    (e : Error) (rest : List Bulk) (p : Progress)
    → length bulks < n
    → p.total_rows < 2 ^ 32
    → p.total_bytes < 2 ^ 64
    → (r : Ended) × (execute_and_fetch embed header interval n
          (map more bulks ++ failure e ∷ rest)
          p
        ≡ some r)
      × EndsWith (some e) 0 r
      × Wrote embed header (concat bulks) p r.unloader
unfolding ended
execute_and_fetch-failure embed header interval n bulks e rest p h hr hb =
    let p0 = pre_repeat_action embed header p in
    let (s', q, a) =
      fetch_loop-failure interval n bulks e rest (fresh interval, p0) h
        (pre_repeat_action-Bounded embed header p interval hr hb) in
    (
      ended (some e) 0 s'.1,
      fetch_err interval n e (map more bulks ++ failure e ∷ rest) embed header p s'.1 q,
      (refl, refl, refl),
      Wrote-Adds embed header (concat bulks) p s'.1 (fresh interval) s'.0 a,
    )

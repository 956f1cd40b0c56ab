-- ===== src/Metrics/Reads.antt =====
-- How much of a request crates/pgferry/src/metrics.rs reads.
use pgferry.Prelude.{
  ℕ, ◌+◌, ◌*◌, ◌≤◌, ◌<◌, ◌≡◌, subst, ◌⊎◌, inl, inr, Option, none, some, List, [], ◌∷◌, ◌++◌, true,
  false, arith, is_some, length, length-append, Bool-cases,
}
use pgferry.Prelude.Text.{codes, after_first}
use pgferry.Metrics.{Head, gone, head, waiting, has_head, read_head}

-- A read fills at most the chunk of 1024 bytes.
abbrev pub FitsChunk : List (Option (List ℕ)) → Type 0
FitsChunk [] = Unit {0}
FitsChunk (none ∷ reads) = FitsChunk reads
FitsChunk (some cs ∷ reads) = (length cs ≤ 1024) × FitsChunk reads

-- At most 17 KiB of a finished head; at most 16 KiB, and a byte or more for each read, while it waits.
abbrev pub Bounded : ℕ → Head → Type 0
Bounded n gone = Unit {0}
Bounded n (head buf) =
    (length buf ≤ 17 * 1024)
    × ((is_some (after_first (codes "\r\n\r\n") buf) ≡ true) ⊎ (16 * 1024 < length buf))
Bounded n (waiting buf) = (length buf ≤ 16 * 1024) × (n ≤ length buf)

enough :
    (buf : List ℕ)
    → has_head buf ≡ true
    → (is_some (after_first (codes "\r\n\r\n") buf) ≡ true) ⊎ (16 * 1024 < length buf)
unfolding has_head
enough buf h = elim (Bool-cases (is_some (after_first (codes "\r\n\r\n") buf))) [
  | inl e ↦ inl e
  | inr e ↦ inr (ground (arith, e, h))
]

not_yet : (buf : List ℕ) → has_head buf ≡ false → length buf ≤ 16 * 1024
unfolding has_head
not_yet buf h = ground (arith, h)

read_head-Bounded :
    (buf : List ℕ) (reads : List (Option (List ℕ))) (n : ℕ)
    → length buf ≤ 16 * 1024
    → n ≤ length buf
    → FitsChunk reads
    → Bounded (n + length reads) (read_head buf reads)
unfolding read_head
read_head-Bounded buf [] n b k f = (b, omega (arith, k))
read_head-Bounded buf (none ∷ reads) n b k f = tt
read_head-Bounded buf (some [] ∷ reads) n b k f = tt
read_head-Bounded buf (some (c ∷ cs) ∷ reads) n b k (chunk, f) =
    let longer = length-append buf (c ∷ cs) in
    elim (Bool-cases (has_head (buf ++ c ∷ cs))) [
      | inl h ↦ rw h (omega (arith, chunk, b, longer), enough (buf ++ c ∷ cs) h)
      | inr h ↦ rw h (
          subst (λ m. Bounded m (read_head (buf ++ c ∷ cs) reads)) (omega arith)
            (read_head-Bounded (buf ++ c ∷ cs) reads (n + 1) (not_yet (buf ++ c ∷ cs) h)
              (omega (arith, k, longer)) f))
    ]

-- Reads of at most 1024 bytes: while the handler waits for the rest of the head, it holds at most
-- 16 KiB, and a byte or more for each read, so that 16385 reads are never all waited for. A head that
-- it takes has at most 17 KiB, and has an empty line or more than 16 KiB.
pub read_head-bounds :
    (reads : List (Option (List ℕ))) → FitsChunk reads → Bounded (length reads) (read_head [] reads)
read_head-bounds reads f =
    subst (λ n. Bounded n (read_head [] reads)) (omega arith)
      (read_head-Bounded [] reads 0 (omega arith) (omega arith) f)

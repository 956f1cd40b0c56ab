-- ===== src/Routing/Split/Comments.antt =====
-- `strip_comments` and `default_is_read` (crates/pgferry/src/routing.rs): the loop ends, and a comment
-- in front does not change how a statement is classified.
use Prim.Native.Nat.{zero, suc}
use pgferry.Prelude.{
  ℕ, ◌≤◌, ◌<◌, ◌≡◌, refl, sym, ap, ◌∙◌, none, some, List, ◌++◌, arith, length, Option-cases, inl,
  inr,
}
use pgferry.Prelude.Text.{
  codes, to_ascii_uppercase, trim_start, strip_prefix, after_first, length-strip_prefix,
  length-after_first,
}
use pgferry.Routing.Split.{
  after_comment, strip_loop, strip_comments, first_word, default_is_read, is_read_word, or_empty,
}

length-or_empty : (p cs : List ℕ) → length (or_empty (after_first p cs)) ≤ length cs
length-or_empty p cs = elim (Option-cases (after_first p cs)) [
  | inl e ↦ rw e (omega arith)
  | inr (rest, e) ↦ rw e (omega (arith, length-after_first p cs rest e))
]

after_comment-shrinks : (s rest : List ℕ) → after_comment s ≡ some rest → length rest < length s
unfolding after_comment
after_comment-shrinks s rest h = elim (Option-cases (strip_prefix (codes "--") s)) [
  | inr (line, e) ↦
      ground
        (arith, e, h, length-strip_prefix (codes "--") s line e, length-or_empty (codes "\n") line)
  | inl e ↦ elim (Option-cases (strip_prefix (codes "/*") s)) [
    | inr (block, f) ↦ ground (
      arith,
      e,
      f,
      h,
      length-strip_prefix (codes "/*") s block f,
      length-or_empty (codes "*/") block,
    )
    | inl f ↦ ground (arith, e, f, h)
  ]
]

strip_loop-more :
    (n : ℕ) (s rest : List ℕ)
    → after_comment s ≡ some rest
    → strip_loop (suc n) s ≡ strip_loop n rest
unfolding strip_loop
strip_loop-more n s rest e = rw (strip_loop, e) refl

strip_loop-done : (n : ℕ) (s : List ℕ) → after_comment s ≡ none → strip_loop (suc n) s ≡ s
unfolding strip_loop
strip_loop-done n s e = rw (strip_loop, e) refl

strip_loop-ends :
    (fuel : ℕ) (s : List ℕ) → length s < fuel → after_comment (strip_loop fuel s) ≡ none
strip_loop-ends zero s b = absurd (omega (arith, b))
strip_loop-ends (suc fuel) s b = elim (Option-cases (after_comment s)) [
  | inl e ↦ ap after_comment (strip_loop-done fuel s e) ∙ e
  | inr (rest, e) ↦
      ap after_comment (strip_loop-more fuel s rest e)
      ∙ strip_loop-ends fuel rest (omega (arith, b, after_comment-shrinks s rest e))
]

-- Any fuel above the length gives the same.
strip_loop-fuel :
    (n m : ℕ) (s : List ℕ) → length s < n → length s < m → strip_loop n s ≡ strip_loop m s
strip_loop-fuel zero m s b d = absurd (omega (arith, b))
strip_loop-fuel (suc n) zero s b d = absurd (omega (arith, d))
strip_loop-fuel (suc n) (suc m) s b d = elim (Option-cases (after_comment s)) [
  | inl e ↦ strip_loop-done n s e ∙ sym (strip_loop-done m s e)
  | inr (rest, e) ↦
      let less = after_comment-shrinks s rest e in
      strip_loop-more n s rest e
      ∙ strip_loop-fuel n m rest (omega (arith, b, less)) (omega (arith, d, less))
      ∙ sym (strip_loop-more m s rest e)
]

opens_neither :
    (s : List ℕ)
    → after_comment s ≡ none
    → (strip_prefix (codes "--") s ≡ none) × (strip_prefix (codes "/*") s ≡ none)
unfolding after_comment
opens_neither s h = elim (Option-cases (strip_prefix (codes "--") s)) [
  | inr (line, e) ↦ absurd (ground (arith, e, h))
  | inl e ↦ elim (Option-cases (strip_prefix (codes "/*") s)) [
    | inr (block, f) ↦ absurd (ground (arith, e, f, h))
    | inl f ↦ (e, f)
  ]
]

-- The loop of `strip_comments` comes to an end on every text: what it leaves opens neither a line
-- comment nor a block comment.
pub strip_comments-ends :
    (s : List ℕ)
    → (strip_prefix (codes "--") (strip_comments s) ≡ none)
      × (strip_prefix (codes "/*") (strip_comments s) ≡ none)
unfolding strip_comments
strip_comments-ends s =
    opens_neither (strip_comments s) (strip_loop-ends (suc (length s)) s (omega arith))

abbrev pub block_comment : List ℕ → List ℕ → List ℕ
block_comment body sql = codes "/*" ++ (body ++ (codes "*/" ++ sql))

after_comment-block :
    (body sql : List ℕ)
    → after_first (codes "*/") (body ++ (codes "*/" ++ sql)) ≡ some sql
    → after_comment (block_comment body sql) ≡ some sql
unfolding after_comment strip_prefix
after_comment-block body sql h = ap (λ o. some (or_empty o)) h

-- A block comment in front of a statement does not change whether the statement counts as a read,
-- where the comment ends at the first `*/` in it and no white space follows it.
default_is_read-comment :
    (body sql : List ℕ)
    → after_first (codes "*/") (body ++ (codes "*/" ++ sql)) ≡ some sql
    → trim_start sql ≡ sql
    → default_is_read (block_comment body sql) ≡ default_is_read sql
unfolding default_is_read strip_comments trim_start
default_is_read-comment body sql h t =
    let opened = after_comment-block body sql h in
    let text = block_comment body sql in
    let shorter = after_comment-shrinks text sql opened in
    let same : strip_comments text ≡ strip_comments sql =
      strip_loop-more (length text) text sql opened
      ∙ strip_loop-fuel (length text) (suc (length sql)) sql shorter (omega arith) in
    ap (λ s. is_read_word (to_ascii_uppercase (first_word s))) (same ∙ ap strip_comments (sym t))

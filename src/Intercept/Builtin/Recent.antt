-- ===== src/Intercept/Builtin/Recent.antt =====
-- What `Audit` (crates/pgferry/src/intercept/builtin.rs) tells of the cycles it was told of.
use Prim.Native.Nat.{zero, suc}
use mathlib.Core.List.{append_assoc, append-nil}
use pgferry.Prelude.{
  drop, ℕ, ◌+◌, ◌-◌, ◌/◌, ◌%◌, ◌^◌, ◌≤◌, ◌<◌, ◌≡◌, refl, sym, ap, ◌∙◌, subst, List, [], ◌∷◌, ◌++◌,
  false, arith, is_some, length, length-append, ltb, if◌then◌else◌, Bool-cases, inl, inr,
}
use pgferry.Intercept.{CycleReport}
use pgferry.Intercept.Builtin.{Audit, new_audit, push_recent, record_cycle}

-- The last 128 of a list.
abbrev pub newest : List CycleReport → List CycleReport
newest rs = drop (length rs - 128) rs

-- `record` of each report, in order.
abbrev pub record_all : List CycleReport → Audit → Audit
record_all [] a = a
record_all (r ∷ rs) a = record_all rs (record_cycle r a)

abbrev pub total : (CycleReport → ℕ) → List CycleReport → ℕ
total measure [] = 0
total measure (r ∷ rs) = measure r + total measure rs

abbrev pub failures : CycleReport → ℕ
failures r = if is_some r.error then 1 else 0

length-drop : (n : ℕ) (rs : List CycleReport) → length (drop n rs) ≡ length rs - n
length-drop zero rs = omega arith
length-drop (suc n) [] = omega arith
length-drop (suc n) (r ∷ rs) = omega (arith, length-drop n rs)

drop-append :
    (n : ℕ) (xs ys : List CycleReport) → n ≤ length xs → drop n (xs ++ ys) ≡ drop n xs ++ ys
drop-append zero xs ys b = refl
drop-append (suc n) [] ys b = absurd (omega (arith, b))
drop-append (suc n) (x ∷ xs) ys b = drop-append n xs ys (omega (arith, b))

drop-drop : (n : ℕ) (rs : List CycleReport) → drop 1 (drop n rs) ≡ drop (suc n) rs
drop-drop zero rs = refl
drop-drop (suc n) [] = refl
drop-drop (suc n) (r ∷ rs) = drop-drop n rs

newest_short : (rs : List CycleReport) → length rs ≤ 128 → newest rs ≡ rs
newest_short rs b =
    let nothing : length rs - 128 ≡ 0 = omega (arith, b) in ap (λ n. drop n rs) nothing

push_recent_short :
    (r : CycleReport) (recent : List CycleReport)
    → length recent < 128
    → push_recent r recent ≡ recent ++ r ∷ []
unfolding push_recent
push_recent_short r recent b =
    let fits : ltb 128 (length (recent ++ r ∷ [])) ≡ false =
      ground (arith, b, length-append recent (r ∷ [])) in
    rw (push_recent, fits) refl

push_recent_full :
    (r : CycleReport) (recent : List CycleReport)
    → length recent ≡ 128
    → push_recent r recent ≡ drop 1 (recent ++ r ∷ [])
unfolding push_recent
push_recent_full r recent b =
    let size : length (recent ++ r ∷ []) ≡ 129 = omega (arith, b, length-append recent (r ∷ [])) in
    rw (push_recent, size) refl

push_recent-newest :
    (r : CycleReport) (past : List CycleReport)
    → push_recent r (newest past) ≡ newest (past ++ r ∷ [])
push_recent-newest r past = elim (Bool-cases (ltb (length past) 128)) [
  | inl few ↦
      let short : length past < 128 = ground (arith, few) in
      let same = newest_short past (omega (arith, short)) in
      ap (push_recent r) same
      ∙ push_recent_short r past short
      ∙ sym (newest_short (past ++ r ∷ []) (omega (arith, short, length-append past (r ∷ []))))
  | inr many ↦
      let long : 128 ≤ length past = ground (arith, many) in
      let n = length past - 128 in
      let next : suc n ≡ length (past ++ r ∷ []) - 128 =
        omega (arith, long, length-append past (r ∷ [])) in
      push_recent_full r (newest past) (omega (arith, long, length-drop n past))
      ∙ ap (drop 1) (sym (drop-append n past (r ∷ []) (omega (arith, long))))
      ∙ drop-drop n (past ++ r ∷ [])
      ∙ ap (λ k. drop k (past ++ r ∷ [])) next
]

-- What an audit shows, told of `past`.
abbrev pub Tells : List CycleReport → Audit → Type 0
Tells past a =
    (a.recent ≡ newest past)
    × (a.cycles ≡ length past % 2 ^ 64)
    × (a.errors ≡ total failures past % 2 ^ 64)
    × (a.rows ≡ total (λ r. r.rows) past % 2 ^ 64)
    × (a.latency_total_us ≡ total (λ r. r.latency / 1000) past % 2 ^ 64)

total-snoc :
    (measure : CycleReport → ℕ) (rs : List CycleReport) (r : CycleReport)
    → total measure (rs ++ r ∷ []) ≡ total measure rs + measure r
total-snoc measure [] r = omega arith
total-snoc measure (x ∷ rs) r = omega (arith, total-snoc measure rs r)

record_cycle-Tells :
    (past : List CycleReport) (r : CycleReport) (a : Audit)
    → Tells past a
    → Tells (past ++ r ∷ []) (record_cycle r a)
unfolding record_cycle
record_cycle-Tells past r a (recent, cycles, errors, rows, latency) = (
  ap (push_recent r) recent ∙ push_recent-newest r past,
  omega (arith, cycles, length-append past (r ∷ [])),
  ground (arith, errors, total-snoc failures past r),
  omega (arith, rows, total-snoc (λ x. x.rows) past r),
  omega (arith, latency, total-snoc (λ x. x.latency / 1000) past r),
)

record_all-Tells :
    (past rs : List CycleReport) (a : Audit) → Tells past a → Tells (past ++ rs) (record_all rs a)
record_all-Tells past [] a t = subst (λ rs. Tells rs a) (sym (append-nil past)) t
record_all-Tells past (r ∷ rs) a t =
    subst (λ all. Tells all (record_all rs (record_cycle r a))) (append_assoc past (r ∷ []) rs)
      (record_all-Tells (past ++ r ∷ []) rs (record_cycle r a) (record_cycle-Tells past r a t))

-- A new audit that is told of any number of cycles keeps the last 128 reports, in order, and counts
-- the cycles, those that ended in an error, the rows and the microseconds of them all, each modulo
-- 2^64.
pub record_all-sums : (rs : List CycleReport) → Tells rs (record_all rs new_audit)
unfolding new_audit
record_all-sums rs = record_all-Tells [] rs new_audit (refl, refl, refl, refl, refl)

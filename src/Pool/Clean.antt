-- ===== src/Pool/Clean.antt =====
-- What a sanitized connection is (crates/pgferry/src/pool.rs, `sanitize` and `settle`).
use pgferry.Prelude.{
  ◌≡◌, refl, inl, inr, Option, none, some, List, [], ◌∷◌, Bool, true, false, Bool-cases, insert,
  subst, ◌+◌,
}
use pgferry.Wire.{
  TransactionStatus, is_idle, idle, transaction, failed, ready_for_query, parameter_status,
  error_response,
}
use pgferry.Conn
use pgferry.Conn.{
  Conn, Item, received, broken, pause, hang, cancel, Drained, ready, lost, silent, drain_items,
  drain_until_ready,
}
use pgferry.Pool.{Hygiene}
use pgferry.Pool.Sanitize.{
  SimpleQuery, Answer, answered, refused, timed_out, conn_of, settle, quiesce, rollback_if_open,
  sanitize, ◌>>=◌,
}

pub >>=-eq-some :
    {A B : Type 0} (m : Option A) (f : A → Option B) {b : B}
    → (m >>= f) ≡ some b
    → (a : A) × (m ≡ some a) × (f a ≡ some b)
>>=-eq-some none f h = cc
>>=-eq-some (some a) f h = (a, refl, h)

pub conn_of-eq-some : (r : Answer) {c : Conn} → conn_of r ≡ some c → r ≡ answered c
conn_of-eq-some (answered c) h = cc
conn_of-eq-some refused h = cc
conn_of-eq-some timed_out h = cc

is_idle-true : (s : TransactionStatus) → is_idle s ≡ true → s ≡ idle
is_idle-true idle h = refl
is_idle-true transaction h = cc
is_idle-true failed h = cc

-- Reading writes nothing: neither a message nor a cancel request.
abbrev Wrote : Conn → Option Conn → Type 0
Wrote c none = Unit
Wrote c (some d) = (d.outgoing ≡ c.outgoing) × (d.cancels ≡ c.cancels)

abbrev left_by : Drained → Option Conn
left_by (ready c) = some c
left_by lost = none
left_by (silent c) = some c

drain_items-Wrote :
    (short : Bool) (items : List Item) (c : Conn) → Wrote c (left_by (drain_items short items c))
unfolding drain_items
drain_items-Wrote short [] c = tt
drain_items-Wrote short (received (ready_for_query s) ∷ rest) c = (refl, refl)
drain_items-Wrote short (received (parameter_status n v) ∷ rest) c =
    drain_items-Wrote short rest (record c { parameters = insert n v c.parameters })
drain_items-Wrote short (received (error_response e) ∷ rest) c = drain_items-Wrote short rest c
drain_items-Wrote short (received m ∷ rest) c = drain_items-Wrote short rest c
drain_items-Wrote short (broken ∷ rest) c = tt
drain_items-Wrote true (pause ∷ rest) c = (refl, refl)
drain_items-Wrote false (pause ∷ rest) c = drain_items-Wrote false rest c
drain_items-Wrote short (hang ∷ rest) c = (refl, refl)

-- A canceled query answers by its own terminal messages: once they have been read, the connection
-- has been sent a single cancel request and nothing else, no `Sync` in particular.
settle_reads_only :
    (c : Conn) {d : Conn}
    → drain_until_ready true (cancel c) ≡ ready d
    → (settle false true c ≡ some d) × (d.outgoing ≡ c.outgoing) × (d.cancels ≡ c.cancels + 1)
unfolding settle drain_until_ready cancel
settle_reads_only c {d} e =
    let w =
      subst (λ r. Wrote (cancel c) (left_by r)) e (drain_items-Wrote true c.incoming (cancel c)) in
    (rw e refl, w.0, w.1)

-- Nothing arrived in time.
abbrev pub is_silent : Drained → Bool
is_silent (ready c) = false
is_silent lost = false
is_silent (silent c) = true

module _ (simple_query : SimpleQuery) where
  rollback_if_open-idle :
      ((c c' : Conn) → simple_query "ROLLBACK" c ≡ answered c' → c'.status ≡ idle)
      → (c : Conn) {c' : Conn} → rollback_if_open simple_query c ≡ some c'
      → c'.status ≡ idle
  unfolding rollback_if_open
  rollback_if_open-idle rolls_back c {c'} h = elim (Bool-cases (is_idle c.status)) [
    | inl e ↦
        let done : some c ≡ some c' = rw e at h in
        let same : c ≡ c' = cc done in subst (λ d. d.status ≡ idle) same (is_idle-true c.status e)
    | inr e ↦ rolls_back c c' (conn_of-eq-some _ (rw e at h))
  ]

  -- Where a `ROLLBACK` that is answered leaves no transaction open: a connection that passes
  -- `sanitize` is the server's answer to `DISCARD ALL`, which was asked of
  -- a connection outside any transaction.
  pub sanitize-IsClean :
      ((c c' : Conn) → simple_query "ROLLBACK" c ≡ answered c' → c'.status ≡ idle)
      → (c : Conn) (hygiene : Hygiene) {d : Conn} → sanitize simple_query c hygiene ≡ some d
      → (before : Conn) × (before.status ≡ idle) × (simple_query "DISCARD ALL" before ≡ answered d)
  unfolding sanitize
  sanitize-IsClean rolls_back c hygiene h =
      let (c₁, e₁, h₁) = >>=-eq-some (quiesce c hygiene) _ h in
      let (c₂, e₂, h₂) = >>=-eq-some (rollback_if_open simple_query c₁) _ h₁ in
      (c₂, rollback_if_open-idle rolls_back c₁ e₂, conn_of-eq-some _ h₂)

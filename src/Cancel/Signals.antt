-- ===== src/Cancel/Signals.antt =====
-- Which session a cancel request of crates/pgferry/src/cancel.rs reaches.
use pgferry.Prelude.{
  Option-cases, inl, inr, ℕ, ◌≡◌, refl, ap, ◌∙◌, ◌↔◌, none, some, List, [], ◌∷◌, Bool, true, false,
  ◌&&◌, if◌then◌else◌, arith, ◌==◌,
}
use pgferry.Prelude.Text.{equal}
use pgferry.Cancel.{Key, key_eq, SessionMap, get, insert, remove, cancel, unregister, recv}

equal_refl : (cs : List ℕ) → equal cs cs ≡ true
unfolding equal
equal_refl [] = refl
equal_refl (c ∷ cs) = ground (arith, equal_refl cs)

equal_eq : (cs ds : List ℕ) → equal cs ds ≡ true → cs ≡ ds
unfolding equal
equal_eq [] [] h = refl
equal_eq [] (d ∷ ds) h = cc
equal_eq (c ∷ cs) [] h = cc
equal_eq (c ∷ cs) (d ∷ ds) h = ground (arith, equal_eq cs ds, h)

key_eq_iff : (a b : Key) → (key_eq a b ≡ true) ↔ (a ≡ b)
unfolding key_eq
key_eq_iff a b = (same, back)
  where
    same : a.pid == b.pid && equal a.secret_key b.secret_key ≡ true → a ≡ b
    same h = ground (arith, h, equal_eq a.secret_key b.secret_key)

    back : a ≡ b → a.pid == b.pid && equal a.secret_key b.secret_key ≡ true
    back h = rw h (ground (arith, equal_refl b.secret_key))

get-insert :
    (written read : Key) (signal : Bool) (es : SessionMap)
    → get read (insert written signal es)
      ≡ (if key_eq read written then some signal else get read es)
unfolding get insert
get-insert written read signal [] = refl
get-insert written read signal ((other, old) ∷ es) = ground (
  arith,
  get-insert written read signal es,
  key_eq_iff written other,
  key_eq_iff read other,
  key_eq_iff read written,
)

get-remove :
    (removed read : Key) (es : SessionMap)
    → get read (remove removed es) ≡ (if key_eq read removed then none else get read es)
unfolding get remove
get-remove removed read [] = ground arith
get-remove removed read ((other, old) ∷ es) = ground (
  arith,
  get-remove removed read es,
  key_eq_iff removed other,
  key_eq_iff read other,
  key_eq_iff read removed,
)

own : (k : Key) → key_eq k k ≡ true
own k = (key_eq_iff k k).1 refl

taken : {A : Type 0} {c d : Bool} (x y : A) → c ≡ d → (if c then x else y) ≡ (if d then x else y)
taken x y h = ap (λ b. if b then x else y) h

there : (k : Key) (signal : Bool) (es : SessionMap) → get k (insert k signal es) ≡ some signal
there k signal es = get-insert k k signal es ∙ taken _ _ (own k)

cancel-found :
    (k : Key) (signal : Bool) (es : SessionMap)
    → get k es ≡ some signal
    → cancel k es ≡ (true, insert k true es)
unfolding cancel
cancel-found k signal es h = rw (cancel, h) refl

recv-found :
    (k : Key) (signal : Bool) (es : SessionMap)
    → get k es ≡ some signal
    → recv k es ≡ (signal, insert k false es)
unfolding recv
recv-found k signal es h = rw (recv, h) refl

cancel-missing : (k : Key) (es : SessionMap) → get k es ≡ none → cancel k es ≡ (false, es)
unfolding cancel
cancel-missing k es h = rw (cancel, h) refl

pub get-unregister : (k : Key) (es : SessionMap) → get k (unregister k es) ≡ none
unfolding unregister
get-unregister k es = get-remove k k es ∙ taken _ _ (own k)

-- A request for another key registers nothing.
pub get-cancel :
    (k target : Key) (es : SessionMap) → get k es ≡ none → get k (cancel target es).1 ≡ none
unfolding cancel
get-cancel k target es h = elim (Option-cases (get target es)) [
  | inl missing ↦ rw (cancel, missing) h
  | inr (signal, found) ↦
      ap (λ r. get k r.1) (cancel-found target signal es found)
      ∙ ground (arith, get-insert target k true es, key_eq_iff k target, h, found)
]

-- A cancel request for a session that is registered finds it, the session then receives one signal
-- and no second one, and no other session is signalled, whatever was waiting in the channels before.
-- After its unregistration the request finds nothing, and the other sessions stay as they are.
pub cancel-signals :
    (k other : Key) (signal : Bool) (es : SessionMap)
    → get k es ≡ some signal
    → key_eq other k ≡ false
    → let signalled = (cancel k es).1 in
      let received = (recv k signalled).1 in
      ((cancel k es).0 ≡ true)
      × ((recv k signalled).0 ≡ true)
      × ((recv k received).0 ≡ false)
      × (get other received ≡ get other es)
      × ((cancel k (unregister k es)).0 ≡ false)
      × (get other (unregister k es) ≡ get other es)
unfolding unregister
cancel-signals k other signal es h apart =
    let full = insert k true es in
    let empty = insert k false full in
    let found = cancel-found k signal es h in
    let received = recv-found k true full (there k true es) in
    let again = recv-found k false empty (there k false full) in
    let gone = cancel-missing k (remove k es) (get-remove k k es ∙ taken _ _ (own k)) in
    (
      ap (λ r. r.0) found,
      ap (λ r. (recv k r.1).0) found ∙ ap (λ r. r.0) received,
      ap (λ r. (recv k (recv k r.1).1).0) found
          ∙ ap (λ r. (recv k r.1).0) received
          ∙ ap (λ r. r.0) again,
      ap (λ r. get other (recv k r.1).1) found
          ∙ ap (λ r. get other r.1) received
          ∙ (get-insert k other false full ∙ taken _ _ apart)
          ∙ (get-insert k other true es ∙ taken _ _ apart),
      ap (λ r. r.0) gone,
      get-remove k other es ∙ taken _ _ apart,
    )

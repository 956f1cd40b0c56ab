-- ===== src/Runtime/Live.antt =====
-- The registry of crates/pgferry/src/runtime.rs lists the sessions that are live.
use pgferry.Prelude.{
  ℕ, suc, ◌%◌, ◌^◌, ◌≡◌, refl, sym, subst, ap, ◌∙◌, List, [], ◌∷◌, ◌++◌, false, ◌==◌, arith, length,
}
use pgferry.Runtime.{SessionInfo, RuntimeState, new, register, unregister, without, sessions_active}

-- No session of the list has the pid.
abbrev pub IsFree : ℕ → List SessionInfo → Type 0
IsFree pid [] = Unit {0}
IsFree pid (s ∷ ss) = (s.pid == pid ≡ false) × IsFree pid ss

-- The sessions that are live, in the order they came, and how many have been there: what the registry
-- promises to show. A session that ends leaves alone, wherever it stands.
pub record Sessions : Type 0 where
  pub live : List SessionInfo
  pub seen : ℕ

-- A session that comes or goes.
pub data Event : Type 0 where
  came went : SessionInfo → Event

pub data Happens (a : Sessions) : Event → Sessions → Type 0 where
  arrives :
      (s : SessionInfo) → Happens a (came s) (record { live = a.live ++ s ∷ []; seen = suc a.seen })
  leaves :
      (above : List SessionInfo) (s : SessionInfo) (below : List SessionInfo)
      → a.live ≡ above ++ s ∷ below
      → Happens a (went s) (record { live = above ++ below; seen = a.seen })

-- What the program does: a session whose pid no live session has registers, and a session's guard
-- is dropped.
pub data Step (r : RuntimeState) : Event → RuntimeState → Type 0 where
  registers : (s : SessionInfo) → IsFree s.pid r.sessions → Step r (came s) (register s r)
  drops :
      (above : List SessionInfo) (s : SessionInfo) (below : List SessionInfo)
      → r.sessions ≡ above ++ s ∷ below
      → Step r (went s) (unregister s.pid r)

-- By these events, of which the first of the list is the last.
pub data Reach (r : RuntimeState) : List Event → RuntimeState → Type 0 where
  here : Reach r [] r
  next :
      {es : List Event} {e : Event} {u v : RuntimeState}
      → Reach r es u
      → Step u e v
      → Reach r (e ∷ es) v

pub data History (a : Sessions) : List Event → Sessions → Type 0 where
  none_yet : History a [] a
  followed_by :
      {es : List Event} {e : Event} {b c : Sessions}
      → History a es b
      → Happens b e c
      → History a (e ∷ es) c

-- The pids of the list differ.
abbrev AllApart : List SessionInfo → Type 0
AllApart [] = Unit {0}
AllApart (s ∷ ss) = IsFree s.pid ss × AllApart ss

IsFree-append :
    (pid : ℕ) (s : SessionInfo) (ss : List SessionInfo)
    → IsFree pid ss
    → s.pid == pid ≡ false
    → IsFree pid (ss ++ s ∷ [])
IsFree-append pid s [] f n = (n, tt)
IsFree-append pid s (x ∷ ss) (d, f) n = (d, IsFree-append pid s ss f n)

IsFree-other :
    (above : List SessionInfo) (s : SessionInfo) (below : List SessionInfo) (pid : ℕ)
    → IsFree pid (above ++ s ∷ below)
    → (s.pid == pid ≡ false) × IsFree pid (above ++ below)
IsFree-other [] s below pid f = f
IsFree-other (x ∷ above) s below pid (d, f) =
    let (n, rest) = IsFree-other above s below pid f in (n, (d, rest))

AllApart-snoc :
    (s : SessionInfo) (ss : List SessionInfo)
    → AllApart ss
    → IsFree s.pid ss
    → AllApart (ss ++ s ∷ [])
AllApart-snoc s [] a f = (tt, tt)
AllApart-snoc s (x ∷ ss) (fx, a) (d, f) =
    (IsFree-append x.pid s ss fx (ground (arith, d)), AllApart-snoc s ss a f)

AllApart-other :
    (above : List SessionInfo) (s : SessionInfo) (below : List SessionInfo)
    → AllApart (above ++ s ∷ below)
    → AllApart (above ++ below)
AllApart-other [] s below (f, a) = a
AllApart-other (x ∷ above) s below (f, a) =
    ((IsFree-other above s below x.pid f).1, AllApart-other above s below a)

without-IsFree : (pid : ℕ) (ss : List SessionInfo) → IsFree pid ss → without pid ss ≡ ss
unfolding without
without-IsFree pid [] f = refl
without-IsFree pid (s ∷ ss) (d, f) = rw d (ap (λ rest. s ∷ rest) (without-IsFree pid ss f))

-- Only the session itself is removed.
without-split :
    (above : List SessionInfo) (s : SessionInfo) (below : List SessionInfo)
    → AllApart (above ++ s ∷ below)
    → without s.pid (above ++ s ∷ below) ≡ above ++ below
unfolding without
without-split [] s below (f, a) = ground (arith, without-IsFree s.pid below f)
without-split (x ∷ above) s below (f, a) =
    let differs : x.pid == s.pid ≡ false = ground (arith, (IsFree-other above s below x.pid f).0) in
    rw differs (ap (λ rest. x ∷ rest) (without-split above s below a))

abbrev pub nobody : Sessions
nobody = record { live = []; seen = 0 }

-- The registry shows the live sessions, whose pids differ.
abbrev Shows : RuntimeState → Sessions → Type 0
Shows r a = (r.sessions ≡ a.live) × (r.sessions_total ≡ a.seen % 2 ^ 64) × AllApart r.sessions

Step-Shows :
    {e : Event} {r v : RuntimeState} (a : Sessions)
    → Step r e v
    → Shows r a
    → (b : Sessions) × Happens a e b × Shows v b
unfolding register unregister
Step-Shows {r} a (registers s f) (same, count, apart) = (
  record { live = a.live ++ s ∷ []; seen = suc a.seen },
  arrives s,
  (ap (λ ss. ss ++ s ∷ []) same, omega (arith, count), AllApart-snoc s r.sessions apart f),
)
Step-Shows {r} a (drops above s below e) (same, count, apart) =
    let apart' = subst AllApart e apart in
    let removed = ap (without s.pid) e ∙ without-split above s below apart' in
    (
      record { live = above ++ below; seen = a.seen },
      leaves above s below (sym same ∙ e),
      (removed, count, subst AllApart (sym removed) (AllApart-other above s below apart')),
    )

Reach-Shows :
    {es : List Event} {r : RuntimeState}
    → Reach new es r
    → (a : Sessions) × History nobody es a × Shows r a
unfolding new
Reach-Shows here = (nobody, none_yet, (refl, refl, tt))
Reach-Shows (next r s) =
    let (a, past, shows) = Reach-Shows r in
    let (b, event, after) = Step-Shows a s shows in (b, followed_by past event, after)

-- Every history of the program's registry is a history of its specification, by the same sessions
-- that come and go in the same order, in which a session that ends leaves alone: the registry lists
-- exactly the sessions that are live, in the order they came, `sessions_active` is their number, and
-- `sessions_total` the number that ever came (modulo 2^64). The condition is that a session gets a
-- pid that no live session has.
pub Reach-refines :
    {es : List Event} {r : RuntimeState}
    → Reach new es r
    → (a : Sessions) × History nobody es a
      × (r.sessions ≡ a.live)
      × (sessions_active r ≡ length a.live)
      × (r.sessions_total ≡ a.seen % 2 ^ 64)
unfolding sessions_active
Reach-refines h =
    let (a, past, (same, count, apart)) = Reach-Shows h in
    (a, past, same, ap (length {A = SessionInfo}) same, count)
